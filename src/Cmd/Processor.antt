-- ===== src/Cmd/Processor.antt =====
-- cmd/processor/main.go: the processor as it is wired, without an alert matcher. The janitor is started
-- beside the loop of the worker; its runs are those of Janitor.antt.
pub mod Shipped
use Prim.Native.Char.{Char}
use jobcrawler.Base.{ℕ, pos, String, Bool, true, false, List, [], ◌∷◌}
use jobcrawler.World.{Env}
use jobcrawler.Config.{Config, Viper, load}
use jobcrawler.Kafka.Admin.{Cluster, create_topics}
use jobcrawler.Kafka.Admin.Created.{asked}
use jobcrawler.Crawler.Registry.{SourceRegistry}
use jobcrawler.Processor.Worker.{Normaliser}
use jobcrawler.Processor.Worker.Consumer.{Progress, start}
use jobcrawler.Cmd.{
  Main, ◌>>=◌, ◌>>◌, or_exit, exit_if, act, acquire, obtain, done_or_exit, perform_io, opened,
  client_set, topics_asked, janitor_started, postgres, redis, kafka_reader, kafka_writer,
}
use jobcrawler.Cmd.Connections.{Driver, new_db, Migrate, run_migrations}

module _ (env : Env) (viper : Viper) (driver : Driver) (m : Migrate) (cluster : Cluster)
    (sha256_hex : String → String) (lower : Char → Char) (norm : Normaliser)
    (registry : SourceRegistry) (schedule : List Bool) where
  -- main; the options of Redis leave the idle connections and the timeout of writes at 0.
  unfoldable pub main : Main Progress
  main = do
    cfg ← or_exit (load viper)
    obtain postgres (new_db cfg.database driver)
    done_or_exit (run_migrations m cfg.database.dsn "./migrations")
    acquire redis
    act (client_set cfg.redis 0 (pos 0))
    act (topics_asked (asked (create_topics cluster cfg.kafka.brokers).1))
    exit_if (create_topics cluster cfg.kafka.brokers).0
    acquire kafka_reader
    acquire kafka_writer
    act (janitor_started cfg.processor)
    perform_io
        (start env sha256_hex lower norm registry false cfg.processor.max_total_jobs schedule)
