-- ===== src/Crawler/Worker/Silence.antt =====
-- Calls that the crawler worker (internal/crawler/worker.go) does not make: their count stays, as far as
-- it does for what the worker publishes.
use jobcrawler.Base.{
  ℕ, zero, suc, String, ◌≡◌, Bool, true, false, Option, none, some, List, [], ◌∷◌, map, take, count,
  refl, inl, inr, Bool-cases, Option-cases, ◌∙◌, str_eq, ◌⧺◌,
}
use jobcrawler.Domain.{CrawlTask, JobSource, crawl_type_listing}
use jobcrawler.World.Errors.{Err, Result, ok, err, Result-cases}
use jobcrawler.World.{
  KafkaMessage, Env, Trace, Io, Call, write_messages, commit_messages, http_do, wait, raw_result,
}
use jobcrawler.Kafka.{
  topic_crawl_queue, topic_jobs_raw, topic_jobs_failed, publish, publish_batch, commit_message,
}
use jobcrawler.Kafka.Silence.{count-publish_to}
use jobcrawler.Httputil.Client.Silence.{count-get}
use jobcrawler.Httputil.Robots.{Cache}
use jobcrawler.Httputil.Robots.Decisions.{count-is_allowed}
use jobcrawler.Redis.Keys.{key_rate_limit_crawler}
use jobcrawler.Crawler.Interfaces.{IsElsewhere}
use jobcrawler.Crawler.Registry.{Source, get_source}
use jobcrawler.Crawler.Worker.{
  CrawlerWorker, Polled, detail_message, publish_to_dlq, commit, respect_rate_limit, poll_outcome,
  update_stats, fanout_listing, parse_source, enqueue_details, dispatch, fail_message, handle_page,
  handle_allowed, handle_polled, handle_decoded, finish_dispatch, process_message,
}

pub record IsSilent (p : Call → Bool) : Type 0 where
  pub away : IsElsewhere p
  pub fetches : (url : String) → p (http_do url) ≡ false
  pub waits : (delay : ℕ) → p (wait delay) ≡ false
  pub commits : (msg : KafkaMessage) → p (commit_messages msg) ≡ false
  pub failures :
      (m : KafkaMessage) → m.topic ≡ topic_jobs_failed → p (write_messages (m ∷ [])) ≡ false

module _ (p : Call → Bool) (s : IsSilent p) (env : Env) (w : CrawlerWorker) where
  abbrev pub Stays : {A : Type 0} → Trace → A × Trace → Type 0
  Stays tr r = count p r.1 ≡ count p tr

  count-commit : (msg : KafkaMessage) (tr : Trace) → Stays tr (commit env w msg tr)
  unfolding commit commit_message
  count-commit msg tr = rw (s.commits msg) refl

  count-fail_message :
      (msg : KafkaMessage) (e : Err) (tr : Trace) → Stays tr (fail_message env w msg e tr)
  unfolding fail_message publish_to_dlq
  count-fail_message msg e tr =
      count-commit msg _ ∙ count-publish_to p env "" topic_jobs_failed s.failures msg.key _ tr

  count-poll_outcome :
      (answer : Bool × Option Err) (rest : Io Polled) (tr : Trace)
      → ((t : Trace) → Stays t (rest t))
      → Stays tr (poll_outcome env w answer rest tr)
  unfolding poll_outcome
  count-poll_outcome (allowed, some e) rest tr h = refl
  count-poll_outcome (true, none) rest tr h = refl
  count-poll_outcome (false, none) rest tr h = elim (Option-cases (env.wait_answer tr 500)) [
    | inl again ↦ rw again (h (wait 500 ∷ tr) ∙ rw (s.waits 500) refl)
    | inr (e, stopped) ↦ rw stopped (rw (s.waits 500) refl)
  ]

  count-respect_rate_limit :
      (polls : ℕ) (source : JobSource) (tr : Trace)
      → Stays tr (respect_rate_limit env w polls source tr)
  unfolding respect_rate_limit
  count-respect_rate_limit zero source tr = refl
  count-respect_rate_limit (suc polls) source tr =
      let asked = w.limiter.ask (key_rate_limit_crawler source) 1 2000 tr in
      count-poll_outcome asked.0 (respect_rate_limit env w polls source) asked.1
        (count-respect_rate_limit polls source)
      ∙ w.limiter.silent p s.away (key_rate_limit_crawler source) 1 2000 tr

  count-update_stats : (source : JobSource) (tr : Trace) → Stays tr (update_stats env w source tr)
  unfolding update_stats
  count-update_stats source tr =
      let at = env.rfc3339 (env.clock tr) in
      let set = w.stats.set ("crawler:last_run:" ⧺ source) at 0 tr in
      let incr = w.stats.incr ("crawler:job_count:" ⧺ source) set.1 in
      w.stats.h_set-silent p s.away "crawler:status" source "ok" incr.1
      ∙ (w.stats.incr-silent p s.away ("crawler:job_count:" ⧺ source) set.1
          ∙ w.stats.set-silent p s.away ("crawler:last_run:" ⧺ source) at 0 tr)

  module _ (task : CrawlTask)
      (details : (src : Source) (html : String) (urls : List String) (tr : Trace)
        → get_source w.registry task.source ≡ ok src
        → src.parse_listing html ≡ ok urls
        → Stays tr (
            publish_batch env "" topic_crawl_queue
              (map (detail_message task (env.clock tr)) (take w.max_fanout urls))
              tr))
      (page : (html : String) (tr : Trace)
        → str_eq task.crawl_type crawl_type_listing ≡ false
        → Stays tr (
            publish env "" topic_jobs_raw task.source
              (raw_result (record {
                source = task.source;
                url = task.url;
                html = html;
                crawled_at = env.clock tr;
              }))
              tr)) where
    count-enqueue_details :
        (src : Source) (html : String) (urls : List String) (tr : Trace)
        → get_source w.registry task.source ≡ ok src
        → src.parse_listing html ≡ ok urls
        → Stays tr (enqueue_details env w task urls tr)
    unfolding enqueue_details
    count-enqueue_details src html [] tr found parsed = refl
    count-enqueue_details src html (u ∷ us) tr found parsed =
        details src html (u ∷ us) tr found parsed

    count-fanout_listing :
        (html : String) (tr : Trace) → Stays tr (fanout_listing env w task html tr)
    unfolding fanout_listing parse_source
    count-fanout_listing html tr = elim (Result-cases (get_source w.registry task.source)) [
      | inr (e, missing) ↦ rw missing refl
      | inl (src, found) ↦ elim (Result-cases (src.parse_listing html)) [
        | inr (e, failed) ↦ rw (found, parse_source, failed) refl
        | inl (urls, parsed) ↦
            rw (found, parse_source, parsed) (count-enqueue_details src html urls tr found parsed)
      ]
    ]

    count-dispatch : (html : String) (tr : Trace) → Stays tr (dispatch env w task html tr)
    unfolding dispatch
    count-dispatch html tr = elim (Bool-cases (str_eq task.crawl_type crawl_type_listing)) [
      | inl listing ↦ rw listing (count-fanout_listing html tr)
      | inr detail ↦ rw detail (page html tr detail)
    ]

    count-handle_page :
        (msg : KafkaMessage) (r : Result String) (tr : Trace)
        → Stays tr (handle_page env w msg task r tr)
    unfolding handle_page finish_dispatch
    count-handle_page msg (err e) tr = count-fail_message msg e tr
    count-handle_page msg (ok html) tr =
        let same = count-dispatch html tr in
        elim (Option-cases (dispatch env w task html tr).0) [
          | inl done ↦ rw done (count-commit msg _ ∙ (count-update_stats task.source _ ∙ same))
          | inr (e, failed) ↦ rw failed (count-fail_message msg e _ ∙ same)
        ]

    count-handle_allowed :
        (msg : KafkaMessage) (allowed : Bool) (tr : Trace)
        → Stays tr (handle_allowed env w msg task allowed tr)
    unfolding handle_allowed
    count-handle_allowed msg false tr = count-commit msg tr
    count-handle_allowed msg true tr =
        count-handle_page msg _ _ ∙ count-get p s.fetches s.waits env task.url tr

    count-handle_polled :
        (cache : Cache) (msg : KafkaMessage) (polled : Polled) (tr : Trace)
        → Stays tr (handle_polled env w cache msg task polled tr)
    unfolding handle_polled
    count-handle_polled cache msg none tr = refl
    count-handle_polled cache msg (some (some e)) tr = count-fail_message msg e tr
    count-handle_polled cache msg (some none) tr =
        count-handle_allowed msg _ _
        ∙ count-is_allowed p s.fetches s.waits env cache task.url "/" tr

    pub count-process_message :
        (polls : ℕ) (cache : Cache) (msg : KafkaMessage) (tr : Trace)
        → env.unmarshal_task msg.value ≡ ok task
        → Stays tr (process_message env w polls cache msg tr)
    unfolding process_message handle_decoded
    count-process_message polls cache msg tr decoded =
        rw (decoded, handle_decoded)
          (count-handle_polled cache msg _ _ ∙ count-respect_rate_limit polls task.source tr)

  pub count-undecoded :
      (polls : ℕ) (cache : Cache) (msg : KafkaMessage) (e : Err) (tr : Trace)
      → env.unmarshal_task msg.value ≡ err e
      → Stays tr (process_message env w polls cache msg tr)
  unfolding process_message
  count-undecoded polls cache msg e tr bad = rw bad (count-fail_message msg e tr)
