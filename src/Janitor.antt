-- ===== src/Janitor.antt =====
-- internal/janitor/janitor.go: the retention sweep. Whether cron accepts the schedule is an argument,
-- and so is the number of its ticks before the context is cancelled. A cut-off is in nanoseconds
-- since 1970, and one before that is taken for 0.
pub mod Retention
use jobcrawler.Base.{
  ℕ, zero, suc, ℤ, pos, negsuc, ◌+◌, ◌-◌, ◌*◌, ◌%◌, ◌^◌, String, Bool, true, false, Option, none,
  some, ◌∷◌,
}
use jobcrawler.Base.Words.{wrap64}
use jobcrawler.World.Errors.{Err, Result, ok, err}
use jobcrawler.World.{Env, Io, Trace, delete_older_than, perform}

-- The settings of config.ProcessorConfig that the janitor reads.
pub record Settings : Type 0 where
  pub cleanup_enabled : Bool
  pub cleanup_schedule : String
  pub cleanup_retention_days : ℤ

-- -time.Duration(days) * 24 * time.Hour, in 64 bits.
unfoldable pub retention : ℕ → ℤ
unfolding wrap64
retention days = wrap64 (2 ^ 64 - days * 86400000000000 % 2 ^ 64)

-- time.Time.Add
unfoldable pub add_duration : ℕ → ℤ → ℕ
add_duration at (pos d) = at + d
add_duration at (negsuc d) = at - (d + 1)

unfoldable pub cutoff : ℕ → ℕ → ℕ
unfolding retention add_duration
cutoff at days = add_duration (at * 1000000) (retention days)

module _ (env : Env) where
  -- runOnce: an error is only logged.
  unfoldable pub run_once : ℕ → Io (Unit {0})
  unfolding cutoff
  run_once days tr =
      let (_, tr') =
        perform (delete_older_than (cutoff (env.clock tr) days))
          (λ t. env.delete_answer t (cutoff (env.clock tr) days)) tr in
      (tt, tr')

  sweeps : ℕ → ℕ → Io (Unit {0})
  unfolding run_once
  sweeps zero days tr = (tt, tr)
  sweeps (suc ticks) days tr = let (_, tr') = run_once days tr in sweeps ticks days tr'

  schedule : Option Err → ℕ → ℕ → Io (Unit {0})
  unfolding sweeps
  schedule (some e) ticks days tr = (tt, tr)
  schedule none ticks days tr = sweeps ticks days tr

  enabled : Bool → Option Err → ℤ → ℕ → Io (Unit {0})
  unfolding schedule
  enabled false bad days ticks tr = (tt, tr)
  enabled true bad (negsuc n) ticks tr = (tt, tr)
  enabled true bad (pos zero) ticks tr = (tt, tr)
  enabled true bad (pos (suc n)) ticks tr = schedule bad ticks (suc n) tr

  -- Start
  unfoldable pub start : (String → Option Err) → Settings → ℕ → Io (Unit {0})
  unfolding enabled
  start schedule_error cfg ticks =
      enabled cfg.cleanup_enabled (schedule_error cfg.cleanup_schedule) cfg.cleanup_retention_days
        ticks
