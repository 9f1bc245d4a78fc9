-- ===== src/Tests/Launching.antt =====
-- The theorems of the binaries at sample data.
use jobcrawler.Base.{
  ℕ, pos, ◌+◌, ◌≡◌, Option, leb, true, false, none, some, List, [], ◌∷◌, count, ltb, refl,
  if◌then◌else◌,
}
use jobcrawler.World.Errors.{failure, sentinel, canceled, Result, ok, err}
use jobcrawler.World.Counting.{is_fetch}
use jobcrawler.World.{Env, KafkaMessage}
use jobcrawler.Config.{Config, Viper, load, validate}
use jobcrawler.Kafka.Admin.{Cluster}
use jobcrawler.Shutdown.{
  State, new, register, drain, returned, Steps, step, stop, registered, signalled, complete,
  completed, return_with, all_done, Hook,
}
use jobcrawler.Startup.{connect_with_retry}
use jobcrawler.Cmd.{run_main, postgres, redis, opens, closes}
use jobcrawler.Cmd.Connections.{Driver, new_db, new_client, Migrate, run_migrations}
use jobcrawler.Cmd.Connections.Released.{Migration, run_migrations-Migration}
use jobcrawler.Cmd.Crawler as CrawlerCmd
use jobcrawler.Cmd.Crawler.Shipped as CrawlerRun
use jobcrawler.Cmd.Processor.Shipped as ProcessorRun
use jobcrawler.Cmd.Api.{Services, api_hooks, hook, connected, event_acts}
use jobcrawler.Cmd.Api as ApiCmd
use jobcrawler.Cmd.Api.Leaks.{acts_after, main_leaks}
use jobcrawler.Tests.Samples.{
  sample_message, sample_env, sample_registry, sample_normaliser, same_text, same_char,
}

abbrev sample_config : Config
sample_config = record {
  server = record {
    host = "0.0.0.0";
    port = pos 8080;
    read_timeout = pos 15000;
    write_timeout = pos 15000;
    idle_timeout = pos 60000;
  };
  database = record {
    dsn = "postgres://";
    max_open_conns = pos 25;
    max_idle_conns = pos 10;
    conn_max_lifetime = pos 300000;
  };
  redis = record {
    addr = "r:6379";
    password = "";
    db = pos 0;
    pool_size = pos 10;
    dial_timeout = pos 5000;
    read_timeout = pos 3000;
  };
  kafka = record { brokers = "k:9092" ∷ []; group_id = "jobcrawler"; required_acks = pos 1 };
  elasticsearch = record { addresses = []; index_name = "jobs" };
  crawler = record {
    rate_limit_rps = "0.5";
    max_retries = pos 3;
    user_agents = [];
    max_listing_fanout = pos 50;
  };
  processor = record {
    max_total_jobs = pos 0;
    cleanup_enabled = true;
    cleanup_schedule = "0 3 * * *";
    cleanup_retention_days = pos 30;
  };
}

abbrev sample_viper : Viper
sample_viper = record {
  read_in_config = none;
  is_file_not_found = λ e. true;
  unmarshal = ok sample_config;
}

abbrev sample_cluster : Cluster
sample_cluster = record {
  dial = λ a. none;
  controller = λ a. ok ("k", 9092);
  join_host_port = λ h p. h;
  read_partitions = λ a. ok [];
  create = λ a specs. none;
  is_topic_exists = λ e. false;
}

-- A schema that has no version yet.
abbrev sample_migrate : Migrate
sample_migrate = record {
  new_error = λ url dsn. none;
  version = err (failure "no migration");
  is_nil_version = λ e. true;
  up = none;
  is_no_change = λ e. false;
}

abbrev reachable : Driver
reachable = record { open_error = none; ping_error = none }

abbrev unreachable : Driver
unreachable = record { open_error = none; ping_error = some (failure "refused") }

run_migrations-Migration_example :
    Migration sample_migrate none (run_migrations sample_migrate "postgres://" "./migrations")
run_migrations-Migration_example =
    run_migrations-Migration sample_migrate "postgres://" "./migrations"

-- A broker that delivers a message at every fetch.
abbrev busy : Env
busy = record sample_env { fetch_answer = λ tr. ok sample_message }

-- A broker that delivers two messages, after which the context is cancelled.
abbrev cancelled_after : ℕ → Result KafkaMessage
cancelled_after n = if leb 2 n then err (sentinel canceled) else ok sample_message

abbrev brief : Env
brief = record sample_env { fetch_answer = λ tr. cancelled_after (count is_fetch tr) }

abbrev processed : Option ℕ × jobcrawler.Cmd.Process
processed =
    ProcessorRun.ending brief sample_viper reachable sample_migrate sample_cluster same_text
      same_char sample_normaliser sample_registry (true ∷ false ∷ false ∷ []) []

-- Postgres answers from the third attempt on, Redis at once.
abbrev late : Services
late = record {
  db_at = λ k. if ltb k 3 then unreachable else reachable;
  db_again = reachable;
  migrate = sample_migrate;
  redis_at = λ k. none;
  redis_again = none;
}

-- All five hooks return without an error, in the order of their registration.
abbrev listening_state : State
listening_state = register (hook "redis") (
    register (hook "postgres") (
      register (hook "tracer")
        (register (hook "http-server") (register (hook "readiness-flag") new))))

abbrev end_of : List Hook → State → State
end_of [] s = return_with true s
end_of (h ∷ hs) s = end_of hs (complete h none hs s)

finish_all :
    (hs : List Hook) (s : State)
    → s.phase ≡ jobcrawler.Shutdown.draining
    → s.running ≡ hs
    → Steps s (end_of hs s)
finish_all [] s p e = step (all_done s p e) (stop (return_with true s))
finish_all (h ∷ hs) s p e =
    step (completed s [] hs h none e) (finish_all hs (complete h none hs s) p refl)

stopped : Steps new (end_of api_hooks (drain listening_state))
stopped = step (registered new (hook "readiness-flag")) (
    step (registered _ (hook "http-server")) (
      step (registered _ (hook "tracer")) (
        step (registered _ (hook "postgres")) (
          step (registered _ (hook "redis")) (
            step (signalled listening_state refl)
              (finish_all api_hooks (drain listening_state) refl refl))))))

main_leaks_example :
    let acts = acts_after sample_viper late (end_of api_hooks (drain listening_state)) [] in
    (count (opens postgres) acts ≡ count (closes postgres) acts + 1)
    × (count (opens redis) acts ≡ count (closes redis) acts + 1)
unfolding ApiCmd.main connected event_acts connect_with_retry load validate new_db new_client
    run_migrations
main_leaks_example =
    main_leaks sample_viper late [] (end_of api_hooks (drain listening_state)) refl stopped refl
      refl
