-- ===== src/Cmd/Crawler/Shipped.antt =====
-- What a run of cmd/crawler/main.go comes to.
use mathlib.Core.List.{Memᴰ}
use jobcrawler.Base.{ℕ, suc, String, ◌+◌, ◌≡◌, ◌≢◌, Option, none, some, count}
use jobcrawler.World.{Env, Trace}
use jobcrawler.World.Counting.{commits}
use jobcrawler.Config.{Config, Viper}
use jobcrawler.Config.Required.{IsComplete}
use jobcrawler.Kafka.Admin.{Cluster, create_topics}
use jobcrawler.Kafka.Admin.Created.{IsEnsured}
use jobcrawler.Crawler.Registry.{SourceRegistry}
use jobcrawler.Crawler.Worker.Consumer.{Progress, polling, start}
use jobcrawler.Crawler.Worker.Consumer.Stopping.{IsCancelled}
use jobcrawler.Cmd.{Resource, Process, opens, closes, run_loop, IsReleased}
use jobcrawler.Cmd.Crawler.{shipped_worker, is_over, main}

module _ (env : Env) (viper : Viper) (cluster : Cluster) (registry : SourceRegistry)
    (rounds polls : ℕ) (tr : Trace) where
  abbrev pub served_by : Config → Progress × Trace
  served_by cfg = start env (shipped_worker registry cfg) rounds (suc polls) tr

  abbrev pub ending : Option ℕ × Process
  ending = run_loop is_over (main env viper cluster registry rounds (suc polls)) tr

  -- The loop is between two messages, or its last fetch was cancelled and everything is closed.
  pub data Outcome (r : Option ℕ × Process) : Type 0 where
    going : r.0 ≡ none → ((s : Resource) → count (closes s) r.1.acts ≡ 0) → Outcome r
    over : r.0 ≡ some 0 → IsCancelled env r.1.trace → IsReleased r.1.acts → Outcome r

  pub data Ending (r : Option ℕ × Process) : Type 0 where
    refused :
        r.0 ≡ some 1 → ((s : Resource) → count (opens s) r.1.acts ≡ 0) → r.1.trace ≡ tr → Ending r
    served :
        (cfg : Config) (broker : String)
        → IsComplete cfg
        → Memᴰ broker cfg.kafka.brokers
        → IsEnsured cluster broker (create_topics cluster cfg.kafka.brokers)
        → (served_by cfg).0.phase ≢ polling
        → commits r.1.trace ≡ commits tr + (served_by cfg).0.handled
        → Outcome r
        → Ending r
