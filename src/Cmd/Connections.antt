-- ===== src/Cmd/Connections.antt =====
-- pkg/database/postgres.go and migrate.go, and pkg/redis/client.go. What the drivers answer is an
-- argument. The hint that the error of a ping ends with is left out.
pub mod Released
use jobcrawler.Base.{
  ℕ, ℤ, String, Bool, true, false, Option, none, some, List, [], ◌∷◌, ◌++◌, ◌⧺◌, decimal,
  if◌then◌else◌,
}
use jobcrawler.World.Errors.{Err, failure, wrap, Result, ok, err}
use jobcrawler.Config.{DatabaseConfig, RedisConfig}
use jobcrawler.Cmd.{
  Act, postgres, redis, migrator, opened, closed, pool_limited, client_set, migrations_applied,
}

-- What sql.Open and PingContext answer to one call of NewDB.
pub record Driver : Type 0 where
  pub open_error : Option Err
  pub ping_error : Option Err

abbrev pub pinged : Option Err → List Act → Option Err × List Act
pinged none acts = (none, acts)
pinged (some e) acts = (some (wrap "ping db: " e), acts)

-- db.Close on a failed ping.
abbrev pub close_if_unreachable : Option Err → List Act
close_if_unreachable none = []
close_if_unreachable (some e) = closed postgres ∷ []

abbrev pub opened_db : DatabaseConfig → Option Err → Option Err → Option Err × List Act
opened_db cfg (some e) ping = (some (wrap "open db: " e), [])
opened_db cfg none ping =
    pinged ping (opened postgres ∷ pool_limited cfg 300000 ∷ close_if_unreachable ping)

-- NewDB; idle connections live for five minutes.
unfoldable pub new_db : DatabaseConfig → Driver → Option Err × List Act
new_db cfg driver = opened_db cfg driver.open_error driver.ping_error

abbrev pub client_acts : RedisConfig → List Act
client_acts cfg = opened redis ∷ client_set cfg 5 cfg.read_timeout ∷ []

-- NewClient of pkg/redis: at least five idle connections, and the read timeout for writes too.
unfoldable pub new_client : RedisConfig → Option Err → Option Err × List Act
new_client cfg none = (none, client_acts cfg)
new_client cfg (some e) = (
  some (wrap "redis ping failed — check REDIS_ADDR in .env: " e),
  opened redis ∷ client_set cfg 5 cfg.read_timeout ∷ closed redis ∷ [],
)

-- golang-migrate: the errors of New, Version and Up, and which errors are ErrNilVersion and ErrNoChange.
pub record Migrate : Type 0 where
  pub new_error : String → String → Option Err
  pub version : Result (ℕ × Bool)
  pub is_nil_version : Err → Bool
  pub up : Option Err
  pub is_no_change : Err → Bool

module _ (m : Migrate) where
  abbrev pub up_error : Option Err → Option Err
  up_error none = none
  up_error (some e) = if m.is_no_change e then none else some (wrap "apply migrations: " e)

  -- From the answer of Version on; an error of it that is ErrNilVersion stands for a clean version 0.
  abbrev pub from_version : ℕ × Bool → Option Err × List Act
  from_version (version, true) = (
    some (
        failure (
          "database is in dirty state at version "
          ⧺ (decimal version ⧺ " — manual intervention required"))),
    [],
  )
  from_version (version, false) = (up_error m.up, migrations_applied ∷ [])

  abbrev pub versioned : Result (ℕ × Bool) → Option Err × List Act
  versioned (ok v) = from_version v
  versioned (err e) =
      if m.is_nil_version e
      then from_version (0, false)
      else (some (wrap "get migration version: " e), [])

  -- m.Close is deferred.
  abbrev pub with_migrator : Option Err × List Act → Option Err × List Act
  with_migrator (e, acts) = (e, opened migrator ∷ (acts ++ (closed migrator ∷ [])))

  abbrev pub migrated : Option Err → Option Err × List Act
  migrated (some e) = (some (wrap "create migrator: " e), [])
  migrated none = with_migrator (versioned m.version)

  -- RunMigrations
  unfoldable pub run_migrations : String → String → Option Err × List Act
  run_migrations dsn migrations_path = migrated (m.new_error ("file://" ⧺ migrations_path) dsn)
