-- ===== src/Pipeline.antt =====
-- The scheduler, the crawler and the processor around Kafka: their calls in one trace, in any
-- interleaving of the messages that they process, and what is to hold of all that they exchange.
pub mod Delivered
pub mod Crawled
pub mod Sound
pub mod Addresses
pub mod Sources
use mathlib.Core.List.{Memᴰ}
use Prim.Native.Char.{Char}
use jobcrawler.Base.{
  ℕ, ℤ, String, ◌≡◌, Bool, true, false, not, ◌&&◌, ◌||◌, List, [], ◌∷◌, any, str_eq, if◌then◌else◌,
}
use jobcrawler.Domain.{JobSource, CrawlTask, RawCrawlResult, crawl_type_listing}
use jobcrawler.World.Errors.{Result, ok, err}
use jobcrawler.World.{
  KafkaMessage, Env, Trace, Call, write_messages, upsert_job, crawl_task, raw_result,
}
use jobcrawler.Kafka.{topic_crawl_queue, topic_jobs_raw}
use jobcrawler.Httputil.Robots.{Cache}
use jobcrawler.Crawler.Registry.{Source, SourceRegistry, get_source}
use jobcrawler.Crawler.Worker.{CrawlerWorker}
use jobcrawler.Crawler.Worker as Crawler
use jobcrawler.Processor.Worker.{Normaliser}
use jobcrawler.Processor.Worker as Processor
use jobcrawler.Scheduler.{enqueue_source}

abbrev pub is_ok : {A : Type 0} → Result A → Bool
is_ok (ok a) = true
is_ok (err e) = false

abbrev pub is_write_or_upsert : Call → Bool
is_write_or_upsert (write_messages ms) = true
is_write_or_upsert (upsert_job j) = true
is_write_or_upsert _ = false

module _ (env : Env) (registry : SourceRegistry) (may_crawl : JobSource → String → Bool) where
  -- A page of a source with parsers, at a URL that these list.
  abbrev pub is_sound_page : JobSource → String → Bool
  is_sound_page source url = is_ok (get_source registry source) && may_crawl source url

  abbrev pub is_sound_task : Result CrawlTask → Bool
  is_sound_task (ok t) =
      is_ok (get_source registry t.source)
      && (str_eq t.crawl_type crawl_type_listing || may_crawl t.source t.url)
  is_sound_task (err e) = true

  abbrev pub is_sound_result : Result RawCrawlResult → Bool
  is_sound_result (ok r) = is_sound_page r.source r.url
  is_sound_result (err e) = true

  -- What is on crawl.queue and on jobs.raw, as far as it can be decoded.
  unfoldable pub is_sound : KafkaMessage → Bool
  is_sound m =
      if str_eq m.topic topic_crawl_queue
      then is_sound_task (env.unmarshal_task m.value)
      else if str_eq m.topic topic_jobs_raw
      then is_sound_result (env.unmarshal_raw m.value)
      else true

  -- A write of a message that is not sound, or a job that is stored and is not.
  abbrev pub is_unsound : Call → Bool
  is_unsound (write_messages ms) = any (λ m. not (is_sound m)) ms
  is_unsound (upsert_job j) = not (is_sound_page j.source j.url)
  is_unsound _ = false

-- The text of the message was written to its topic.
pub record IsDelivered (topic : String) (msg : KafkaMessage) (tr : Trace) : Type 0 where
  pub batch : List KafkaMessage
  pub written : KafkaMessage
  pub in_batch : Memᴰ written batch
  pub in_trace : Memᴰ (write_messages batch) tr
  pub same_topic : written.topic ≡ topic
  pub same_value : written.value ≡ msg.value

-- What is decoded of an encoded task or page has the same source, kind and URL.
pub record KeepsFields (env : Env) : Type 0 where
  pub task :
      (t t' : CrawlTask) (value : String)
      → env.marshal (crawl_task t) ≡ ok value
      → env.unmarshal_task value ≡ ok t'
      → (t'.source ≡ t.source) × (t'.crawl_type ≡ t.crawl_type) × (t'.url ≡ t.url)
  pub raw :
      (r r' : RawCrawlResult) (value : String)
      → env.marshal (raw_result r) ≡ ok value
      → env.unmarshal_raw value ≡ ok r'
      → (r'.source ≡ r.source) × (r'.url ≡ r.url)

module _ (env : Env) (w : CrawlerWorker) (sha256_hex : String → String) (lower : Char → Char)
    (norm : Normaliser) (alerts_wired : Bool) (max_total_jobs : ℤ) where
  -- The scheduler enqueues a source, a crawler or a processor works on a message that was delivered to
  -- it, or something else is called.
  pub data Turn (tr : Trace) : Trace → Type 0 where
    scheduled : (source : JobSource) → Turn tr (enqueue_source env source tr).1
    crawled :
        (polls : ℕ) (cache : Cache) (msg : KafkaMessage)
        → IsDelivered topic_crawl_queue msg tr
        → Turn tr (Crawler.process_message env w polls cache msg tr).1
    processed :
        (count : ℕ) (msg : KafkaMessage)
        → IsDelivered topic_jobs_raw msg tr
        → Turn tr
            (Processor.process_message env sha256_hex lower norm w.registry alerts_wired
              max_total_jobs count msg tr).1
    other : (c : Call) → is_write_or_upsert c ≡ false → Turn tr (c ∷ tr)

  -- The traces that are reached from one without calls.
  pub data Reached : Trace → Type 0 where
    start : Reached []
    next : {tr tr' : Trace} → Reached tr → Turn tr tr' → Reached tr'
