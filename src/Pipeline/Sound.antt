-- ===== src/Pipeline/Sound.antt =====
-- The invariant of the scheduler, the crawler and the processor around Kafka.
use Prim.Native.Char.{Char}
use jobcrawler.Base.{ℕ, ℤ, String, ◌≡◌, Bool, true, false, count, arith, refl, ◌∙◌}
use jobcrawler.Domain.{JobSource}
use jobcrawler.World.{KafkaMessage, Env, Trace, Call, write_messages, upsert_job}
use jobcrawler.Crawler.Worker.{CrawlerWorker}
use jobcrawler.Processor.Worker.{Normaliser, process_message}
use jobcrawler.Processor.Worker.Silence.{IsSilent, count-process_message, build_job_fields}
use jobcrawler.Pipeline.{
  is_write_or_upsert, is_sound_result, is_sound, is_unsound, KeepsFields, Turn, scheduled, crawled,
  processed, other, Reached, start, next,
}
use jobcrawler.Pipeline.Delivered.{delivered-is_sound_task, delivered-is_sound_result}
use jobcrawler.Pipeline.Crawled.{Covers, Lists, sound-enqueue_source, sound-process_message}

module _ (env : Env) (w : CrawlerWorker) (sha256_hex : String → String) (lower : Char → Char)
    (norm : Normaliser) (alerts_wired : Bool) (max_total_jobs : ℤ)
    (may_crawl : JobSource → String → Bool) where
  abbrev unsound : Call → Bool
  unsound = is_unsound env w.registry may_crawl

  unsound-IsSilent : IsSilent unsound
  unfolding is_sound
  unsound-IsSilent = record {
    failures = λ m e. rw e refl;
    results = λ m e. rw e refl;
    claims = λ key ttl. refl;
    alerts = λ frequency. refl;
    counts = refl;
  }

  other_call : (c : Call) → is_write_or_upsert c ≡ false → unsound c ≡ false
  other_call (write_messages ms) e = ground arith
  other_call (upsert_job j) e = ground arith
  other_call c e = refl

  -- The processor stores nothing unsound of a page that is sound.
  processed_sound :
      (n : ℕ) (msg : KafkaMessage) (tr : Trace)
      → is_sound_result env w.registry may_crawl (env.unmarshal_raw msg.value) ≡ true
      → count unsound
          (process_message env sha256_hex lower norm w.registry alerts_wired max_total_jobs n msg
            tr).1
        ≡ count unsound tr
  processed_sound n msg tr good =
      count-process_message env sha256_hex lower norm w.registry alerts_wired max_total_jobs unsound
        unsound-IsSilent (λ m. refl) n msg tr
        (λ raw decoded raw_job.
          let (source, url) =
            build_job_fields env sha256_hex lower norm w.registry alerts_wired max_total_jobs raw
              raw_job in
          rw (source, url) (rw (rw decoded at good) refl))

  module _ (keeps : KeepsFields env) (covers : Covers env w.registry may_crawl keeps)
      (lists : Lists env w.registry may_crawl keeps) where
    Turn_sound :
        {tr tr' : Trace}
        → Turn env w sha256_hex lower norm alerts_wired max_total_jobs tr tr'
        → count unsound tr ≡ 0
        → count unsound tr' ≡ 0
    Turn_sound {tr} (scheduled source) h =
        sound-enqueue_source env w.registry may_crawl keeps source tr covers ∙ h
    Turn_sound {tr} (crawled polls cache msg d) h =
        sound-process_message env w may_crawl keeps lists polls cache msg tr
          (delivered-is_sound_task env w.registry may_crawl msg tr d h)
        ∙ h
    Turn_sound {tr} (processed n msg d) h =
        processed_sound n msg tr (delivered-is_sound_result env w.registry may_crawl msg tr d h) ∙ h
    Turn_sound (other c e) h = rw (other_call c e) h

    -- However the scheduler, the crawlers and the processors take turns, message by message, and
    -- whatever the services answer: every task on crawl.queue and every page on jobs.raw that can be
    -- decoded, and every job that is stored, is of a source with parsers, and a page and a job are at a
    -- URL that these may list. It is given that the codec keeps sources, kinds and URLs, that the
    -- scheduler's sources have parsers, that these list only such URLs, and that nothing else writes to
    -- the broker or stores jobs.
    pub reached_sound :
        (tr : Trace)
        → Reached env w sha256_hex lower norm alerts_wired max_total_jobs tr
        → count unsound tr ≡ 0
    reached_sound _ start = refl
    reached_sound _ (next {tr = tr} before s) = Turn_sound s (reached_sound tr before)
