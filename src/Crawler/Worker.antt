-- ===== src/Crawler/Worker.antt =====
-- internal/crawler/worker.go: one message of crawl.queue from its fetch to its commit. Logging and
-- the temporary dump of listing pages change nothing that is modelled. The context carries no trace
-- id. The cache of robots.txt is handed from message to message.
pub mod Polling
pub mod Consumer
pub mod Commits
pub mod Fanout
pub mod Silence
use jobcrawler.Base.{
  ℕ, ℤ, positive_or, zero, suc, String, Bool, true, false, Option, none, some, List, [], ◌∷◌, map,
  take, str_eq, ◌⧺◌, if◌then◌else◌,
}
use jobcrawler.World.Errors.{Err, wrap, error_text, Result, ok, err}
use jobcrawler.World.{
  KafkaMessage, FailedMessage, crawl_task, raw_result, failed, Env, Io, Trace, wait, perform,
}
use jobcrawler.Domain.{JobSource, CrawlTask, RawCrawlResult, crawl_type_listing, crawl_type_detail}
use jobcrawler.Kafka.{
  Message, topic_crawl_queue, topic_jobs_raw, topic_jobs_failed, publish, publish_batch,
  commit_message,
}
use jobcrawler.Redis.Keys.{key_rate_limit_crawler}
use jobcrawler.Httputil.Client.{get}
use jobcrawler.Httputil.Robots.{Cache, is_allowed}
use jobcrawler.Crawler.Interfaces.{RateLimiter, StatsUpdater}
use jobcrawler.Crawler.Registry.{Source, SourceRegistry, get_source}

abbrev pub default_listing_fanout : ℕ
default_listing_fanout = 50

-- The parts of a worker that differ from one binary to another; the broker and the client are answers
-- of the environment.
pub record CrawlerWorker : Type 0 where
  pub registry : SourceRegistry
  pub limiter : RateLimiter
  pub stats : StatsUpdater
  pub max_fanout : ℕ

unfoldable pub new_crawler_worker : SourceRegistry → RateLimiter → StatsUpdater → ℤ → CrawlerWorker
new_crawler_worker registry limiter stats max_fanout = record {
  registry = registry;
  limiter = limiter;
  stats = stats;
  max_fanout = positive_or max_fanout default_listing_fanout;
}

-- The tasks for the detail pages of one listing.
abbrev pub detail_message : CrawlTask → ℕ → String → Message
detail_message task at url = record {
  key = task.source;
  payload = crawl_task (record {
    source = task.source;
    url = url;
    crawl_type = crawl_type_detail;
    enqueued_at = at;
  });
  headers = [];
}

-- `none`: the limiter is still polled; `some none`: it allowed the request.
abbrev pub Polled : Type 0
Polled = Option (Option Err)

module _ (env : Env) (w : CrawlerWorker) where
  -- publishToDLQ: a failure to publish is only logged.
  unfoldable pub publish_to_dlq : KafkaMessage → Err → Io (Unit {0})
  publish_to_dlq msg e tr =
      let dlq : FailedMessage = record {
        original_topic = msg.topic;
        original_key = msg.key;
        payload = msg.value;
        error = error_text e;
        attempts = none;
        failed_at = env.clock tr;
      } in
      let (_, tr') = publish env "" topic_jobs_failed msg.key (failed dlq) tr in (tt, tr')

  -- commit: an error is only logged.
  unfoldable pub commit : KafkaMessage → Io (Unit {0})
  commit msg tr = let (_, tr') = commit_message env topic_crawl_queue msg tr in (tt, tr')

  -- After each answer of the limiter: an error ends the loop, so does a cancelled context.
  wait_outcome : Option Err → Io Polled → Io Polled
  wait_outcome (some e) rest tr = (some (some e), tr)
  wait_outcome none rest tr = rest tr

  poll_outcome : Bool × Option Err → Io Polled → Io Polled
  unfolding wait_outcome
  poll_outcome (allowed, some e) rest tr = (some (some (wrap "rate limiter error: " e)), tr)
  poll_outcome (true, none) rest tr = (some none, tr)
  poll_outcome (false, none) rest tr =
      let (stopped, tr') = perform (wait 500) (λ t. env.wait_answer t 500) tr in
      wait_outcome stopped rest tr'

  -- respectRateLimit, for at most `polls` questions to the limiter.
  unfoldable pub respect_rate_limit : ℕ → JobSource → Io Polled
  unfolding poll_outcome
  respect_rate_limit zero source tr = (none, tr)
  respect_rate_limit (suc polls) source tr =
      let rest = λ (t : Trace). respect_rate_limit polls source t in
      let (answer, tr') = w.limiter.ask (key_rate_limit_crawler source) 1 2000 tr in
      poll_outcome answer rest tr'

  -- updateStats: three writes, whose errors are only logged.
  unfoldable pub update_stats : JobSource → Io (Unit {0})
  update_stats source tr =
      let at = env.rfc3339 (env.clock tr) in
      let (_, tr1) = w.stats.set ("crawler:last_run:" ⧺ source) at 0 tr in
      let (_, tr2) = w.stats.incr ("crawler:job_count:" ⧺ source) tr1 in
      let (_, tr3) = w.stats.h_set "crawler:status" source "ok" tr2 in (tt, tr3)

  enqueue_details : CrawlTask → List String → Io (Option Err)
  enqueue_details task [] tr = (none, tr)
  enqueue_details task (u ∷ us) tr =
      let msgs = map (detail_message task (env.clock tr)) (take w.max_fanout (u ∷ us)) in
      let (e, tr') = publish_batch env "" topic_crawl_queue msgs tr in
      (elim e [ none ↦ none | some x ↦ some (wrap "publish detail tasks: " x) ], tr')

  parse_source : CrawlTask → String → Result Source → Io (Option Err)
  unfolding enqueue_details
  parse_source task html (err e) tr = (some (wrap "listing fanout: " e), tr)
  parse_source task html (ok src) tr = elim (src.parse_listing html) [
    | err e ↦ (some (wrap "parse listing: " e), tr)
    | ok urls ↦ enqueue_details task urls tr
  ]

  -- fanoutListing
  unfoldable pub fanout_listing : CrawlTask → String → Io (Option Err)
  unfolding parse_source
  fanout_listing task html = parse_source task html (get_source w.registry task.source)

  -- The two kinds of task: what is published of a fetched page.
  unfoldable pub dispatch : CrawlTask → String → Io (Option Err)
  dispatch task html tr =
      if str_eq task.crawl_type crawl_type_listing
      then fanout_listing task html tr
      else publish env "" topic_jobs_raw task.source
          (raw_result (record {
            source = task.source;
            url = task.url;
            html = html;
            crawled_at = env.clock tr;
          }))
          tr

  -- An error of a step: the message goes to jobs.failed and is committed.
  unfoldable pub fail_message : KafkaMessage → Err → Io (Unit {0})
  fail_message msg e tr = let (_, tr') = publish_to_dlq msg e tr in commit msg tr'

  finish_dispatch : KafkaMessage → CrawlTask → Option Err → Io (Unit {0})
  finish_dispatch msg task (some e) tr = fail_message msg e tr
  finish_dispatch msg task none tr = let (_, tr') = update_stats task.source tr in commit msg tr'

  handle_page : KafkaMessage → CrawlTask → Result String → Io (Unit {0})
  unfolding finish_dispatch
  handle_page msg task (err e) tr = fail_message msg e tr
  handle_page msg task (ok html) tr =
      let (e, tr') = dispatch task html tr in finish_dispatch msg task e tr'

  handle_allowed : KafkaMessage → CrawlTask → Bool → Io (Unit {0})
  unfolding handle_page
  handle_allowed msg task false tr = commit msg tr
  handle_allowed msg task true tr =
      let (page, tr') = get env task.url tr in handle_page msg task page tr'

  handle_polled : Cache → KafkaMessage → CrawlTask → Polled → Io (Option Cache)
  unfolding handle_allowed
  handle_polled cache msg task none tr = (none, tr)
  handle_polled cache msg task (some (some e)) tr =
      let (_, tr') = fail_message msg e tr in (some cache, tr')
  handle_polled cache msg task (some none) tr =
      let (((allowed, _), cache'), tr1) = is_allowed env cache task.url "/" tr in
      let (_, tr2) = handle_allowed msg task allowed tr1 in (some cache', tr2)

  handle_decoded : ℕ → Cache → KafkaMessage → Result CrawlTask → Io (Option Cache)
  unfolding handle_polled
  handle_decoded polls cache msg (err e) tr =
      let (_, tr') = fail_message msg e tr in (some cache, tr')
  handle_decoded polls cache msg (ok task) tr =
      let (polled, tr') = respect_rate_limit polls task.source tr in
      handle_polled cache msg task polled tr'

  -- processMessage: the new cache, or `none` while the limiter is still polled.
  unfoldable pub process_message : ℕ → Cache → KafkaMessage → Io (Option Cache)
  unfolding handle_decoded
  process_message polls cache msg = handle_decoded polls cache msg (env.unmarshal_task msg.value)
