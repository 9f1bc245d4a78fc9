-- ===== src/Handler/Middleware/Limiting.antt =====
-- What internal/handler/middleware/rate_limit.go lets through.
use jobcrawler.Base.{
  ℕ, ◌/◌, ◌≤◌, ◌<◌, String, ◌≡◌, ◌⊎◌, inl, inr, List, ◌∷◌, arith, refl, Bool-cases, ltb,
}
use jobcrawler.World.Errors.{Err, ok, err, Result-cases}
use jobcrawler.World.{Env, Io, Trace, pipeline, Command}
use jobcrawler.Redis.Keys.{key_rate_limit_api}
use jobcrawler.Redis.RateLimiter.{allow, request_commands, card_reply}
use jobcrawler.Handler.Middleware.{Limited, served, rejected, rate_limited_handler, decide, serve}

module _ (env : Env) (nanos : Trace → ℕ) {A : Type 0} (next : Io A) (limit window : ℕ) (ip : String)
    (tr : Trace) where
  abbrev pub commands : List Command
  commands = request_commands env (key_rate_limit_api ip) window (nanos tr) tr

  abbrev pub asked : Trace
  asked = pipeline commands ∷ tr

  -- The handler behind runs after the question, since Redis failed or counted less than the limit.
  pub record IsServed (out : Limited A × Trace) : Type 0 where
    pub answer : out ≡ (served (next asked).0, (next asked).1)
    pub reason :
        ((e : Err) × (env.pipeline_answer tr commands ≡ err e))
        ⊎ ((replies : List ℕ) × (env.pipeline_answer tr commands ≡ ok replies)
            × (card_reply replies < limit))

  -- The handler behind does not run, and the client is told to wait for the window in seconds.
  pub record IsRejected (out : Limited A × Trace) : Type 0 where
    pub answer : out ≡ (rejected (window / 1000), asked)
    pub replies : List ℕ
    pub replied : env.pipeline_answer tr commands ≡ ok replies
    pub full : limit ≤ card_reply replies

  -- A request is rejected where Redis has counted as many requests of the address as the limit
  -- allows, and is served where it counted less or failed.
  pub rate_limited_handler_decides :
      IsServed (rate_limited_handler env nanos next limit window ip tr)
      ⊎ IsRejected (rate_limited_handler env nanos next limit window ip tr)
  unfolding rate_limited_handler allow decide serve
  rate_limited_handler_decides = elim (Result-cases (env.pipeline_answer tr commands)) [
    | inr (e, failed) ↦ inl (record { answer = rw failed refl; reason = inl (e, failed) })
    | inl (rs, answered) ↦ elim (Bool-cases (ltb (card_reply rs) limit)) [
      | inl below ↦
          inl (record {
            answer = rw (answered, below) refl;
            reason = inr (rs, answered, ground arith);
          })
      | inr above ↦ inr (record {
        answer = rw (answered, above) refl;
        replies = rs;
        replied = answered;
        full = ground arith;
      })
    ]
  ]
