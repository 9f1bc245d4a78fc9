-- ===== src/Cmd/Crawler.antt =====
-- cmd/crawler/main.go: the crawler as it is wired, with a limiter and statistics that do nothing. The
-- parsers are an argument, and so is how many rounds of the loop are looked at.
pub mod Shipped
use jobcrawler.Base.{ℕ, String, Bool, true, false, List, [], ◌∷◌}
use jobcrawler.World.{Env}
use jobcrawler.Config.{Config, Viper, load}
use jobcrawler.Kafka.Admin.{Cluster, create_topics}
use jobcrawler.Kafka.Admin.Created.{asked}
use jobcrawler.Crawler.Interfaces.{noop_rate_limiter, noop_stats_updater}
use jobcrawler.Crawler.Registry.{SourceRegistry}
use jobcrawler.Crawler.Worker.{CrawlerWorker, new_crawler_worker}
use jobcrawler.Crawler.Worker.Consumer.{Progress, between, stopped, polling, start}
use jobcrawler.Cmd.{
  Main, ◌>>=◌, ◌>>◌, or_exit, exit_if, act, acquire, perform_io, topics_asked, user_agents_set,
  kafka_reader, kafka_writer,
}

-- config.DefaultUserAgents
abbrev pub default_user_agents : List String
default_user_agents =
    "Mozilla/5.0 (Windows NT 10.0; Win64; x64) AppleWebKit/537.36 (KHTML, like Gecko) Chrome/125.0.0.0 Safari/537.36"
    ∷ "Mozilla/5.0 (Macintosh; Intel Mac OS X 10_15_7) AppleWebKit/537.36 (KHTML, like Gecko) Chrome/125.0.0.0 Safari/537.36"
    ∷ "Mozilla/5.0 (Windows NT 10.0; Win64; x64; rv:126.0) Gecko/20100101 Firefox/126.0"
    ∷ "Mozilla/5.0 (Macintosh; Intel Mac OS X 14.5; rv:126.0) Gecko/20100101 Firefox/126.0"
    ∷ "Mozilla/5.0 (Macintosh; Intel Mac OS X 14_5) AppleWebKit/605.1.15 (KHTML, like Gecko) Version/17.4.1 Safari/605.1.15"
    ∷ "Mozilla/5.0 (Windows NT 10.0; Win64; x64) AppleWebKit/537.36 (KHTML, like Gecko) Chrome/125.0.0.0 Safari/537.36 Edg/125.0.0.0"
    ∷ "Mozilla/5.0 (X11; Linux x86_64) AppleWebKit/537.36 (KHTML, like Gecko) Chrome/125.0.0.0 Safari/537.36"
    ∷ "Mozilla/5.0 (X11; Ubuntu; Linux x86_64; rv:126.0) Gecko/20100101 Firefox/126.0"
    ∷ "Mozilla/5.0 (Windows NT 10.0; Win64; x64) AppleWebKit/537.36 (KHTML, like Gecko) Chrome/124.0.0.0 Safari/537.36"
    ∷ "Mozilla/5.0 (Windows NT 10.0; Win64; x64) AppleWebKit/537.36 (KHTML, like Gecko) Chrome/125.0.0.0 Safari/537.36 OPR/111.0.0.0"
    ∷ []

-- The user agents of the client.
abbrev pub user_agents_or : List String → List String
user_agents_or [] = default_user_agents
user_agents_or (a ∷ more) = a ∷ more

abbrev pub shipped_worker : SourceRegistry → Config → CrawlerWorker
shipped_worker registry cfg =
    new_crawler_worker registry noop_rate_limiter noop_stats_updater cfg.crawler.max_listing_fanout

-- The loop of Start has returned.
unfoldable pub is_over : Progress → Bool
is_over p = elim p.phase [ stopped ↦ true | between ↦ false | polling ↦ false ]

module _ (env : Env) (viper : Viper) (cluster : Cluster) (registry : SourceRegistry)
    (rounds polls : ℕ) where
  -- main
  unfoldable pub main : Main Progress
  main = do
    cfg ← or_exit (load viper)
    act (topics_asked (asked (create_topics cluster cfg.kafka.brokers).1))
    exit_if (create_topics cluster cfg.kafka.brokers).0
    acquire kafka_reader
    acquire kafka_writer
    act (user_agents_set (user_agents_or cfg.crawler.user_agents))
    perform_io (start env (shipped_worker registry cfg) rounds polls)
