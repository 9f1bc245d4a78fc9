-- ===== src/Tests/Crawling.antt =====
-- The theorems of the crawler worker, of the limiter and of the producer at sample data.
use jobcrawler.Base.{ℕ, pos, ◌≤◌, ◌≡◌, Option, none, some, List, [], ◌∷◌, arith, refl}
use jobcrawler.Domain.{source_stepstone}
use jobcrawler.World.{KafkaMessage, Trace, crawl_task, pipeline}
use jobcrawler.Kafka.{Message, topic_crawl_queue}
use jobcrawler.Httputil.Robots.{Cache}
use jobcrawler.Redis.Keys.{key_rate_limit_crawler}
use jobcrawler.Redis.RateLimiter.{allow, request_commands}
use jobcrawler.Redis.RateLimiter.Window.{admitted, admitted-le-limit}
use jobcrawler.Crawler.Interfaces.{redis_limiter, noop_stats_updater}
use jobcrawler.Crawler.Worker.{
  CrawlerWorker, new_crawler_worker, process_message, fanout_listing, respect_rate_limit,
}
use jobcrawler.Crawler.Worker.Commits.{
  EndsCommitted, process_message-EndsCommitted, process_message_total,
}
use jobcrawler.Crawler.Worker.Fanout.{Fanout, fanout_listing-Fanout}
use jobcrawler.Crawler.Worker.Polling.{limited_by_redis, IsBusy, respect_rate_limit_starves}
use jobcrawler.Tests.Samples.{
  sample_env, sample_registry, sample_message, sample_task, sample-KeepsEntries,
  sample-ClockForward, sample-KeepsPolling,
}

abbrev no_nanos : Trace → ℕ
no_nanos tr = 0

abbrev sample_worker : CrawlerWorker
sample_worker =
    new_crawler_worker sample_registry (redis_limiter sample_env no_nanos) noop_stats_updater
      (pos 1)

process_message_total_example :
    (cache : Cache) × ((process_message sample_env sample_worker 1 [] sample_message []).0
      ≡ some cache)
    × EndsCommitted sample_message 0
        (process_message sample_env sample_worker 1 [] sample_message []).1
unfolding allow new_crawler_worker
process_message_total_example =
    process_message_total sample_env sample_worker 0 [] sample_message [] (λ task h. refl)

abbrev crawled : Option Cache × Trace
crawled = process_message sample_env sample_worker 1 [] sample_message []

crawled_returns : (cache : Cache) × (crawled.0 ≡ some cache)
unfolding allow new_crawler_worker
crawled_returns =
    let t =
      process_message_total sample_env sample_worker 0 [] sample_message [] (λ task h. refl) in
    (t.0, t.1)

process_message-EndsCommitted_example : EndsCommitted sample_message 0 crawled.1
process_message-EndsCommitted_example =
    process_message-EndsCommitted sample_env sample_worker 1 [] crawled_returns.0 sample_message []
      crawled_returns.1

fanout_listing-Fanout_example :
    Fanout sample_env sample_worker
      (sample_task "u")
      "<html>"
      []
      (fanout_listing sample_env sample_worker (sample_task "u") "<html>" [])
fanout_listing-Fanout_example =
    fanout_listing-Fanout sample_env sample_worker (sample_task "u") "<html>" []

-- The trace of one question to the limiter.
abbrev asked_once : Trace
asked_once =
    pipeline (request_commands sample_env (key_rate_limit_crawler source_stepstone) 2000 0 []) ∷ []

asked_once-IsBusy : IsBusy sample_env source_stepstone asked_once
asked_once-IsBusy = record { kept = (refl, tt); recent = omega arith }

respect_rate_limit_starves_example :
    (respect_rate_limit sample_env
      (limited_by_redis sample_env no_nanos sample_worker)
      3
      source_stepstone
      asked_once).0
    ≡ none
respect_rate_limit_starves_example =
    respect_rate_limit_starves sample_env no_nanos sample_worker sample-ClockForward
      sample-KeepsEntries sample-KeepsPolling source_stepstone 3 asked_once asked_once-IsBusy

-- Two questions at one key, half a second apart.
abbrev asked_twice : Trace
asked_twice =
    pipeline (
      request_commands sample_env "k" 2000 0
        (pipeline (request_commands sample_env "k" 2000 0 []) ∷ []))
    ∷ pipeline (request_commands sample_env "k" 2000 0 [])
    ∷ []

admitted-le-limit_example : admitted sample_env "k" 1 0 asked_twice ≤ 1
admitted-le-limit_example =
    admitted-le-limit sample_env no_nanos sample-ClockForward "k" 2000 sample-KeepsEntries 1 0
      asked_twice (omega arith) (refl, (refl, tt))

abbrev one_task : List Message
one_task = record { key = "STEPSTONE"; payload = crawl_task (sample_task "u"); headers = [] } ∷ []

abbrev one_message : List KafkaMessage
one_message =
    record { topic = topic_crawl_queue; key = "STEPSTONE"; value = "u"; headers = []; offset = 0 }
    ∷ []
