-- ===== src/Cmd/Processor/Shipped.antt =====
-- What a run of cmd/processor/main.go comes to.
use Prim.Native.Char.{Char}
use mathlib.Core.List.{Memᴰ}
use jobcrawler.Base.{ℕ, String, ◌+◌, ◌≡◌, Bool, false, Option, none, some, List, [], ◌∷◌, ◌⊎◌}
use jobcrawler.World.{Env, Trace}
use jobcrawler.World.Counting.{commits}
use jobcrawler.Config.{Config, Viper}
use jobcrawler.Config.Required.{IsComplete}
use jobcrawler.Kafka.Admin.{Cluster, create_topics}
use jobcrawler.Kafka.Admin.Created.{IsEnsured}
use jobcrawler.Crawler.Registry.{SourceRegistry}
use jobcrawler.Processor.Worker.{Normaliser}
use jobcrawler.Processor.Worker.Consumer.{start}
use jobcrawler.Processor.Worker.Consumer.Stopping.{IsCancelled}
use jobcrawler.Cmd.{
  Process, ◌>>=◌, ◌>>◌, or_exit, obtain, done_or_exit, exit_if, act, acquire, perform_io, postgres,
  redis, kafka_reader, kafka_writer, run_loop,
}
use jobcrawler.Cmd.Connections.{Driver, Migrate}
use jobcrawler.Cmd.Connections.Released.{IsClean}
use jobcrawler.Cmd.Processor.{main}

module _ (env : Env) (viper : Viper) (driver : Driver) (m : Migrate) (cluster : Cluster)
    (sha256_hex : String → String) (lower : Char → Char) (norm : Normaliser)
    (registry : SourceRegistry) (schedule : List Bool) where
  abbrev pub the_main : jobcrawler.Cmd.Main jobcrawler.Processor.Worker.Consumer.Progress
  the_main = main env viper driver m cluster sha256_hex lower norm registry schedule

  abbrev pub served_by : Config → Trace → jobcrawler.Processor.Worker.Consumer.Progress × Trace
  served_by cfg tr =
      start env sha256_hex lower norm registry false cfg.processor.max_total_jobs schedule tr

  abbrev pub ending : Trace → Option ℕ × Process
  ending tr = run_loop (λ p. p.stopped) the_main tr

  -- Either the process exits with 1 and has made none of the calls of the worker; or it had complete
  -- settings, a clean schema and its topics, the loop has made one commit for each message that it
  -- handled, and either it goes on, with nothing of its main function closed, or its last fetch was
  -- cancelled and the exit code is 0.
  pub data Ending (tr : Trace) (r : Option ℕ × Process) : Type 0 where
    refused : r.0 ≡ some 1 → r.1.trace ≡ tr → Ending tr r
    served :
        (cfg : Config) (broker : String)
        → IsComplete cfg
        → IsClean m
        → Memᴰ broker cfg.kafka.brokers
        → IsEnsured cluster broker (create_topics cluster cfg.kafka.brokers)
        → commits r.1.trace ≡ commits tr + (served_by cfg tr).0.handled
        → (((r.0 ≡ none) × (r.1.deferred ≡ kafka_writer ∷ kafka_reader ∷ redis ∷ postgres ∷ []))
            ⊎ ((r.0 ≡ some 0) × IsCancelled env r.1.trace))
        → Ending tr r
