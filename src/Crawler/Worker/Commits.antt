-- ===== src/Crawler/Worker/Commits.antt =====
-- When the crawler worker (internal/crawler/worker.go) commits a message, and what it publishes.
use jobcrawler.Base.{
  ℕ, zero, suc, String, ◌≡◌, Bool, true, false, Option, none, some, List, [], ◌∷◌, arith, refl,
  str_eq, inl, inr, Option-cases, Bool-cases, ◌∙◌, ◌⧺◌,
}
use jobcrawler.World.Errors.{Err, wrap, Result, ok, err, Result-cases}
use jobcrawler.World.{KafkaMessage, Env, Trace, Io, commit_messages, wait}
use jobcrawler.World.Counting.{is_commit, commits}
use jobcrawler.Domain.{CrawlTask, JobSource, crawl_type_listing}
use jobcrawler.Kafka.{topic_jobs_failed, topic_jobs_raw, topic_crawl_queue, commit_message}
use jobcrawler.Kafka.Silence.{count-publish, count-publish_batch}
use jobcrawler.Httputil.Client.Silence.{count-get}
use jobcrawler.Httputil.Robots.{Cache}
use jobcrawler.Httputil.Robots.Decisions.{count-is_allowed}
use jobcrawler.Redis.Keys.{key_rate_limit_crawler}
use jobcrawler.Crawler.Interfaces.{IsElsewhere}
use jobcrawler.Crawler.Registry.{get_source}
use jobcrawler.Crawler.Worker.{
  CrawlerWorker, Polled, publish_to_dlq, commit, respect_rate_limit, poll_outcome, update_stats,
  fanout_listing, enqueue_details, dispatch, fail_message, handle_page, handle_allowed,
  handle_polled, handle_decoded, process_message,
}

-- The last call commits the message, and the calls before it commit nothing more than `before`.
abbrev pub EndsCommitted : KafkaMessage → ℕ → Trace → Type 0
EndsCommitted msg before [] = ⊥
EndsCommitted msg before (c ∷ tr) = (c ≡ commit_messages msg) × (commits tr ≡ before)

is_commit-IsElsewhere : IsElsewhere is_commit
is_commit-IsElsewhere = record {
  no_pipeline = λ cs. refl;
  no_set = λ key value ttl. refl;
  no_incr = λ key. refl;
  no_h_set = λ key field value. refl;
}

module _ (env : Env) (w : CrawlerWorker) where
  commit-EndsCommitted :
      (msg : KafkaMessage) (n : ℕ) (tr : Trace)
      → commits tr ≡ n
      → EndsCommitted msg n (commit env w msg tr).1
  unfolding commit commit_message
  commit-EndsCommitted msg n tr h = (refl, h)

  fail_message-EndsCommitted :
      (msg : KafkaMessage) (e : Err) (n : ℕ) (tr : Trace)
      → commits tr ≡ n
      → EndsCommitted msg n (fail_message env w msg e tr).1
  unfolding fail_message publish_to_dlq
  fail_message-EndsCommitted msg e n tr h =
      commit-EndsCommitted msg n _
        (count-publish is_commit (λ ms. refl) env "" topic_jobs_failed msg.key _ tr ∙ h)

  commits-enqueue_details :
      (task : CrawlTask) (urls : List String) (tr : Trace)
      → commits (enqueue_details env w task urls tr).1 ≡ commits tr
  unfolding enqueue_details
  commits-enqueue_details task [] tr = refl
  commits-enqueue_details task (u ∷ us) tr =
      count-publish_batch is_commit (λ ms. refl) env "" topic_crawl_queue _ tr

  commits-fanout_listing :
      (task : CrawlTask) (html : String) (tr : Trace)
      → commits (fanout_listing env w task html tr).1 ≡ commits tr
  unfolding fanout_listing
  commits-fanout_listing task html tr = elim (Result-cases (get_source w.registry task.source)) [
    | inr (e, missing) ↦ ground arith
    | inl (src, found) ↦ elim (Result-cases (src.parse_listing html)) [
      | inr (e, failed) ↦ ground arith
      | inl (urls, parsed) ↦ ground (arith, commits-enqueue_details task urls tr)
    ]
  ]

  commits-dispatch :
      (task : CrawlTask) (html : String) (tr : Trace)
      → commits (dispatch env w task html tr).1 ≡ commits tr
  unfolding dispatch
  commits-dispatch task html tr = elim (Bool-cases (str_eq task.crawl_type crawl_type_listing)) [
    | inl listing ↦ rw listing (commits-fanout_listing task html tr)
    | inr detail ↦
        rw detail (count-publish is_commit (λ ms. refl) env "" topic_jobs_raw task.source _ tr)
  ]

  commits-poll_outcome :
      (answer : Bool × Option Err) (rest : Io Polled) (tr : Trace)
      → ((t : Trace) → commits (rest t).1 ≡ commits t)
      → commits (poll_outcome env w answer rest tr).1 ≡ commits tr
  unfolding poll_outcome
  commits-poll_outcome (allowed, some e) rest tr h = refl
  commits-poll_outcome (true, none) rest tr h = refl
  commits-poll_outcome (false, none) rest tr h = ground (arith, h (wait 500 ∷ tr))

  pub commits-respect_rate_limit :
      (polls : ℕ) (source : JobSource) (tr : Trace)
      → commits (respect_rate_limit env w polls source tr).1 ≡ commits tr
  unfolding respect_rate_limit
  commits-respect_rate_limit zero source tr = refl
  commits-respect_rate_limit (suc polls) source tr =
      let asked = w.limiter.ask (key_rate_limit_crawler source) 1 2000 tr in
      commits-poll_outcome asked.0 (respect_rate_limit env w polls source) asked.1
        (commits-respect_rate_limit polls source)
      ∙ w.limiter.silent is_commit is_commit-IsElsewhere (key_rate_limit_crawler source) 1 2000 tr

  commits-update_stats :
      (source : JobSource) (tr : Trace) → commits (update_stats env w source tr).1 ≡ commits tr
  unfolding update_stats
  commits-update_stats source tr =
      let away = is_commit-IsElsewhere in
      let set = w.stats.set ("crawler:last_run:" ⧺ source) (env.rfc3339 (env.clock tr)) 0 tr in
      let incr = w.stats.incr ("crawler:job_count:" ⧺ source) set.1 in
      omega (
        arith,
        w.stats.set-silent is_commit away ("crawler:last_run:" ⧺ source)
            (env.rfc3339 (env.clock tr)) 0 tr,
        w.stats.incr-silent is_commit away ("crawler:job_count:" ⧺ source) set.1,
        w.stats.h_set-silent is_commit away "crawler:status" source "ok" incr.1,
      )

  handle_page-EndsCommitted :
      (msg : KafkaMessage) (task : CrawlTask) (page : Result String) (n : ℕ) (tr : Trace)
      → commits tr ≡ n
      → EndsCommitted msg n (handle_page env w msg task page tr).1
  unfolding handle_page
  handle_page-EndsCommitted msg task (err e) n tr h = fail_message-EndsCommitted msg e n tr h
  handle_page-EndsCommitted msg task (ok html) n tr h =
      let same = commits-dispatch task html tr ∙ h in
      elim (Option-cases (dispatch env w task html tr).0) [
        | inl done ↦
            rw done (commit-EndsCommitted msg n _ (commits-update_stats task.source _ ∙ same))
        | inr (e, failed) ↦ rw failed (fail_message-EndsCommitted msg e n _ same)
      ]

  handle_allowed-EndsCommitted :
      (msg : KafkaMessage) (task : CrawlTask) (allowed : Bool) (n : ℕ) (tr : Trace)
      → commits tr ≡ n
      → EndsCommitted msg n (handle_allowed env w msg task allowed tr).1
  unfolding handle_allowed
  handle_allowed-EndsCommitted msg task false n tr h = commit-EndsCommitted msg n tr h
  handle_allowed-EndsCommitted msg task true n tr h =
      handle_page-EndsCommitted msg task _ n _
        (count-get is_commit (λ u. refl) (λ d. refl) env task.url tr ∙ h)

  handle_polled-EndsCommitted :
      (cache cache' : Cache) (msg : KafkaMessage) (task : CrawlTask) (polled : Polled) (n : ℕ)
      (tr : Trace)
      → commits tr ≡ n
      → (handle_polled env w cache msg task polled tr).0 ≡ some cache'
      → EndsCommitted msg n (handle_polled env w cache msg task polled tr).1
  unfolding handle_polled
  handle_polled-EndsCommitted cache cache' msg task none n tr h r = cc
  handle_polled-EndsCommitted cache cache' msg task (some (some e)) n tr h r =
      fail_message-EndsCommitted msg e n tr h
  handle_polled-EndsCommitted cache cache' msg task (some none) n tr h r =
      handle_allowed-EndsCommitted msg task _ n _
        (count-is_allowed is_commit (λ u. refl) (λ d. refl) env cache task.url "/" tr ∙ h)

  -- Whatever the services answer, a message whose processing returns is committed by the very last
  -- call, and nothing else is committed on the way: on success, on a page that robots.txt
  -- disallows, and on every error.
  pub process_message-EndsCommitted :
      (polls : ℕ) (cache cache' : Cache) (msg : KafkaMessage) (tr : Trace)
      → (process_message env w polls cache msg tr).0 ≡ some cache'
      → EndsCommitted msg (commits tr) (process_message env w polls cache msg tr).1
  unfolding process_message
  process_message-EndsCommitted polls cache cache' msg tr r =
      elim (Result-cases (env.unmarshal_task msg.value)) [
        | inr (e, bad) ↦ rw bad (fail_message-EndsCommitted msg e (commits tr) tr refl)
        | inl (task, decoded) ↦ rw decoded (
            handle_polled-EndsCommitted cache cache' msg task _ (commits tr) _
              (commits-respect_rate_limit polls task.source tr) (rw decoded at r))
      ]

  handle_polled_returns :
      (cache : Cache) (msg : KafkaMessage) (task : CrawlTask) (answer : Option Err) (tr : Trace)
      → (cache' : Cache) × ((handle_polled env w cache msg task (some answer) tr).0 ≡ some cache')
  unfolding handle_polled
  handle_polled_returns cache msg task (some e) tr = (cache, refl)
  handle_polled_returns cache msg task none tr = (_, refl)

  respect_rate_limit_allowed :
      (polls : ℕ) (source : JobSource) (tr : Trace)
      → (w.limiter.ask (key_rate_limit_crawler source) 1 2000 tr).0.0 ≡ true
      → (answer : Option Err) × ((respect_rate_limit env w (suc polls) source tr).0 ≡ some answer)
  unfolding respect_rate_limit
  respect_rate_limit_allowed polls source tr h =
      elim (Option-cases (w.limiter.ask (key_rate_limit_crawler source) 1 2000 tr).0.1) [
        | inl fine ↦ (none, ground arith)
        | inr (e, failed) ↦ (some (wrap "rate limiter error: " e), ground arith)
      ]

  process_message_returns :
      (polls : ℕ) (cache : Cache) (msg : KafkaMessage) (tr : Trace)
      → ((task : CrawlTask)
          → env.unmarshal_task msg.value ≡ ok task
          → (w.limiter.ask (key_rate_limit_crawler task.source) 1 2000 tr).0.0 ≡ true)
      → (cache' : Cache) × ((process_message env w (suc polls) cache msg tr).0 ≡ some cache')
  unfolding process_message
  process_message_returns polls cache msg tr admit =
      elim (Result-cases (env.unmarshal_task msg.value)) [
        | inr (e, bad) ↦ rw bad (cache, refl)
        | inl (task, decoded) ↦
            let (answer, polled) =
              respect_rate_limit_allowed polls task.source tr (admit task decoded) in
            rw (decoded, handle_decoded, polled) (handle_polled_returns cache msg task answer _)
      ]

  -- A message that is no task, or whose source the limiter lets through at once, is processed to the
  -- end with a single question to the limiter, and its commit is the last call.
  pub process_message_total :
      (polls : ℕ) (cache : Cache) (msg : KafkaMessage) (tr : Trace)
      → ((task : CrawlTask)
          → env.unmarshal_task msg.value ≡ ok task
          → (w.limiter.ask (key_rate_limit_crawler task.source) 1 2000 tr).0.0 ≡ true)
      → (cache' : Cache) × ((process_message env w (suc polls) cache msg tr).0 ≡ some cache')
        × EndsCommitted msg (commits tr) (process_message env w (suc polls) cache msg tr).1
  process_message_total polls cache msg tr admit =
      let (cache', returned) = process_message_returns polls cache msg tr admit in
      (cache', returned, process_message-EndsCommitted (suc polls) cache cache' msg tr returned)
