-- ===== src/Cmd/Api.antt =====
-- cmd/api/main.go. What the drivers answer is an argument, for each attempt of the retries and for the
-- calls after them. The tracer and the server are hooks of the shutdown; requests are those of Handler.
pub mod Leaks
use jobcrawler.Base.{
  ℕ, ℤ, pos, negsuc, ◌+◌, decimal, String, Bool, true, false, Option, none, some, List, [], ◌∷◌,
  ◌++◌, ◌⧺◌, str_eq, if◌then◌else◌,
}
use jobcrawler.World.Errors.{Err}
use jobcrawler.Config.{Viper, load}
use jobcrawler.Startup.{Event, tried, connect_with_retry}
use jobcrawler.Startup
use jobcrawler.Shutdown.{Hook}
use jobcrawler.Cmd.{
  Act, Main, ◌>>=◌, ◌>>◌, or_exit, act, done_or_exit, closed, readiness_set, slept, listening,
  postgres, redis,
}
use jobcrawler.Cmd.Connections.{Driver, new_db, new_client, Migrate, run_migrations}

-- What the calls of a run of connectWithRetry have done.
unfoldable pub event_acts : (ℕ → Option Err × List Act) → List Event → List Act
event_acts call [] = []
event_acts call (tried k ∷ es) = (call k).1 ++ event_acts call es
event_acts call (Startup.slept ∷ es) = slept 2000 ∷ event_acts call es

-- connectWithRetry with ten attempts; what an attempt has opened is dropped.
unfoldable pub connected : String → (ℕ → Option Err × List Act) → Option Err × List Act
unfolding event_acts
connected name call =
    let (e, events) = connect_with_retry (λ k. (call k).0) name 10 in (e, event_acts call events)

pub record Services : Type 0 where
  pub db_at : ℕ → Driver
  pub db_again : Driver
  pub migrate : Migrate
  pub redis_at : ℕ → Option Err
  pub redis_again : Option Err

abbrev pub hook : String → Hook
hook name = record { name = name }

-- The hooks, in the order of their registration.
abbrev pub api_hooks : List Hook
api_hooks =
    hook "readiness-flag" ∷ hook "http-server" ∷ hook "tracer" ∷ hook "postgres" ∷ hook "redis" ∷ []

-- What the function of a hook does.
abbrev pub hook_acts : Hook → List Act
hook_acts h =
    if str_eq h.name "readiness-flag"
    then readiness_set false ∷ slept 2000 ∷ []
    else if str_eq h.name "postgres"
    then closed postgres ∷ []
    else if str_eq h.name "redis"
    then closed redis ∷ []
    else []

unfoldable pub all_hook_acts : List Hook → List Act
all_hook_acts [] = []
all_hook_acts (h ∷ hs) = hook_acts h ++ all_hook_acts hs

-- %d
abbrev pub print_int : ℤ → String
print_int (pos n) = decimal n
print_int (negsuc n) = "-" ⧺ decimal (n + 1)

module _ (viper : Viper) (services : Services) where
  -- main, up to the call of ListenAndShutdown.
  unfoldable pub main : Main (Unit {0})
  main = do
    cfg ← or_exit (load viper)
    done_or_exit (connected "postgres" (λ k. new_db cfg.database (services.db_at k)))
    done_or_exit (new_db cfg.database services.db_again)
    done_or_exit (run_migrations services.migrate cfg.database.dsn "./migrations")
    done_or_exit (connected "redis" (λ k. new_client cfg.redis (services.redis_at k)))
    done_or_exit (new_client cfg.redis services.redis_again)
    act (readiness_set true)
    act (listening (cfg.server.host ⧺ (":" ⧺ print_int cfg.server.port)))
