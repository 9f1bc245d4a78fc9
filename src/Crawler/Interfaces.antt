-- ===== src/Crawler/Interfaces.antt =====
-- The interfaces that internal/crawler/worker.go leaves to its caller, RateLimiter and StatsUpdater, and
-- what implements them: the limiter of pkg/redis/rate_limiter.go, and the two stubs of
-- cmd/crawler/main.go.
use jobcrawler.Base.{ℕ, String, Bool, true, false, ◌≡◌, Option, none, List, count, refl}
use jobcrawler.World.Errors.{Err}
use jobcrawler.World.{
  Call, Command, Trace, Env, Io, pipeline, redis_set, redis_incr, redis_h_set, pure,
}
use jobcrawler.Redis.RateLimiter.{allow}

-- A kind of call that is none of those of an implementation: pipelines and writes of Redis.
pub record IsElsewhere (p : Call → Bool) : Type 0 where
  pub no_pipeline : (cs : List Command) → p (pipeline cs) ≡ false
  pub no_set : (key value : String) (ttl : ℕ) → p (redis_set key value ttl) ≡ false
  pub no_incr : (key : String) → p (redis_incr key) ≡ false
  pub no_h_set : (key field value : String) → p (redis_h_set key field value) ≡ false

-- RateLimiter, whose implementations make no other calls.
pub record RateLimiter : Type 0 where
  pub ask : String → ℕ → ℕ → Io (Bool × Option Err)
  pub silent :
      (p : Call → Bool)
      → IsElsewhere p
      → (key : String) (limit window : ℕ) (tr : Trace)
      → count p (ask key limit window tr).1 ≡ count p tr

-- StatsUpdater, likewise.
pub record StatsUpdater : Type 0 where
  pub set : String → String → ℕ → Io (Option Err)
  pub incr : String → Io (Option Err)
  pub h_set : String → String → String → Io (Option Err)
  pub set-silent :
      (p : Call → Bool)
      → IsElsewhere p
      → (key value : String) (ttl : ℕ) (tr : Trace) → count p (set key value ttl tr).1 ≡ count p tr
  pub incr-silent :
      (p : Call → Bool)
      → IsElsewhere p
      → (key : String) (tr : Trace) → count p (incr key tr).1 ≡ count p tr
  pub h_set-silent :
      (p : Call → Bool)
      → IsElsewhere p
      → (key field value : String) (tr : Trace) → count p (h_set key field value tr).1 ≡ count p tr

pub allow-silent :
    (env : Env) (nanos : Trace → ℕ) (p : Call → Bool)
    → IsElsewhere p
    → (key : String) (limit window : ℕ) (tr : Trace)
    → count p (allow env nanos key limit window tr).1 ≡ count p tr
unfolding allow
allow-silent env nanos p h key limit window tr = rw (h.no_pipeline _) refl

-- NewRateLimiter
abbrev pub redis_limiter : Env → (Trace → ℕ) → RateLimiter
redis_limiter env nanos = record { ask = allow env nanos; silent = allow-silent env nanos }

abbrev pub noop_rate_limiter : RateLimiter
noop_rate_limiter = record {
  ask = λ key limit window. pure (true, none);
  silent = λ p h key limit window tr. refl;
}

abbrev pub noop_stats_updater : StatsUpdater
noop_stats_updater = record {
  set = λ key value ttl. pure none;
  incr = λ key. pure none;
  h_set = λ key field value. pure none;
  set-silent = λ p h key value ttl tr. refl;
  incr-silent = λ p h key tr. refl;
  h_set-silent = λ p h key field value tr. refl;
}
