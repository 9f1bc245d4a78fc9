-- ===== src/Redis/RateLimiter.antt =====
-- pkg/redis/rate_limiter.go: the sliding-window log. Times are in milliseconds. The member's suffix,
-- the nanoseconds within the current millisecond, is a parameter.
pub mod Window
use jobcrawler.Base.{
  ℕ, ◌+◌, ◌-◌, String, Bool, true, Option, none, some, List, [], ◌∷◌, ltb, ◌⧺◌, decimal, quote,
  get_elem?,
}
use jobcrawler.World.Errors.{Err, wrap, Result, ok, err}
use jobcrawler.World.{
  Command, z_rem_below, z_card, z_add, expire, Env, Io, Trace, pipeline, perform, now,
}

-- The four commands of one request.
abbrev pub window_commands : String → ℕ → ℕ → String → ℕ → List Command
window_commands key start at member ttl =
    z_rem_below key start ∷ z_card key ∷ z_add key at member ∷ expire key ttl ∷ []

-- `zcardCmd.Val()`: the reply of the second command.
abbrev pub card_reply : List ℕ → ℕ
card_reply [] = 0
card_reply (_ ∷ []) = 0
card_reply (_ ∷ n ∷ _) = n

abbrev pub member_of : ℕ → ℕ → String
member_of at nanos = decimal at ⧺ ("." ⧺ decimal nanos)

-- The window of a request at `at` begins at `at - window`, or at 0 if the clock is below that.
abbrev pub request_commands : Env → String → ℕ → ℕ → Trace → List Command
request_commands env key window nanos tr =
    let at = env.clock tr in
    window_commands key (at - window) at (member_of at nanos) (window + 1000)

-- A Redis failure allows the request and is reported beside that.
abbrev pub decide_request : String → ℕ → Result (List ℕ) → Bool × Option Err
decide_request key limit (err e) =
    (true, some (wrap ("rate limiter pipeline for " ⧺ (quote key ⧺ ": ")) e))
decide_request key limit (ok replies) = (ltb (card_reply replies) limit, none)

module _ (env : Env) (nanos : Trace → ℕ) where
  -- RateLimiter.Allow
  unfoldable pub allow : String → ℕ → ℕ → Io (Bool × Option Err)
  allow key limit window tr =
      let commands = request_commands env key window (nanos tr) tr in
      (decide_request key limit (env.pipeline_answer tr commands), pipeline commands ∷ tr)
