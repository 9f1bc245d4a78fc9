-- ===== src/Cmd/Scheduler.antt =====
-- cmd/scheduler/main.go. What cron answers and which entries it fires is as in Scheduler/Cron.antt.
pub mod Shipped
use jobcrawler.Base.{ℕ, String, Option, none, some, List, [], ◌∷◌}
use jobcrawler.World.Errors.{Err}
use jobcrawler.World.{Env, Trace, Io}
use jobcrawler.Config.{Viper, load}
use jobcrawler.Kafka.Admin.{Cluster, create_topics}
use jobcrawler.Kafka.Admin.Created.{asked}
use jobcrawler.Scheduler.Cron.{start}
use jobcrawler.Cmd.{
  Main, ◌>>=◌, ◌>>◌, or_exit, exit_if, act, acquire, perform_io, topics_asked, kafka_writer,
}

-- The entries that fire before each of the three sources of the start-up, and after the last.
pub record Firing : Type 0 where
  pub first : List ℕ
  pub second : List ℕ
  pub third : List ℕ
  pub later : List ℕ

module _ (env : Env) (viper : Viper) (cluster : Cluster) (add_func : String → Option Err)
    (firing : Firing) where
  abbrev pub schedule : Trace → Trace
  schedule tr = start env add_func firing.first firing.second firing.third firing.later tr

  abbrev pub scheduling : Io (Unit {0})
  scheduling tr = (tt, schedule tr)

  -- main
  unfoldable pub main : Main (Unit {0})
  main = do
    cfg ← or_exit (load viper)
    act (topics_asked (asked (create_topics cluster cfg.kafka.brokers).1))
    exit_if (create_topics cluster cfg.kafka.brokers).0
    acquire kafka_writer
    perform_io scheduling
