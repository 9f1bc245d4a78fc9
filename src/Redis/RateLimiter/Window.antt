-- ===== src/Redis/RateLimiter/Window.antt =====
-- What the sliding-window log of pkg/redis/rate_limiter.go promises, given what Redis documents of
-- sorted sets.
use jobcrawler.Base.{
  ℕ, suc, ◌+◌, ◌-◌, ◌≤◌, String, Bool, true, false, List, [], ◌∷◌, ◌≡◌, ◌&&◌, str_eq, leb,
  if◌then◌else◌, arith, ltb, refl, inl, inr,
}
use jobcrawler.World.Errors.{Result, ok, err, Result-cases}
use jobcrawler.World.{Command, z_rem_below, z_card, z_add, expire, Env, Trace, Call, pipeline}
use jobcrawler.Redis.RateLimiter.{
  decide_request, window_commands, card_reply, request_commands, member_of,
}

-- The commands add a member to the key with a score of at least `start`.
abbrev pub adds_from : String → ℕ → List Command → Bool
adds_from key start (z_rem_below k s ∷ z_card k' ∷ z_add j score m ∷ expire k'' t ∷ []) =
    str_eq j key && leb start score
adds_from key start _ = false

-- The commands remove scores of the key that reach up to `start`.
abbrev pub removes_from : String → ℕ → List Command → Bool
removes_from key start (z_rem_below k s ∷ cs) = str_eq k key && ltb start s
removes_from key start _ = false

abbrev pub is_ok : {A : Type 0} → Result A → Bool
is_ok (ok _) = true
is_ok (err _) = false

-- Redis answered, and the answer lets the request through.
abbrev pub admits : String → ℕ → Result (List ℕ) → Bool
admits key limit (ok replies) = (decide_request key limit (ok replies)).0
admits key limit (err _) = false

-- How many requests were recorded for the key at `start` or later, by pipelines that succeeded.
abbrev pub recorded : Env → String → ℕ → Trace → ℕ
recorded env key start [] = 0
recorded env key start (pipeline cs ∷ tr) =
    if adds_from key start cs && is_ok (env.pipeline_answer tr cs)
    then suc (recorded env key start tr)
    else recorded env key start tr
recorded env key start (_ ∷ tr) = recorded env key start tr

-- How many of them were admitted by the count that Redis replied.
abbrev pub admitted : Env → String → ℕ → ℕ → Trace → ℕ
admitted env key limit start [] = 0
admitted env key limit start (pipeline cs ∷ tr) =
    if adds_from key start cs && admits key limit (env.pipeline_answer tr cs)
    then suc (admitted env key limit start tr)
    else admitted env key limit start tr
admitted env key limit start (_ ∷ tr) = admitted env key limit start tr

-- No pipeline so far has removed scores of the key from `start` on.
abbrev pub NotRemoved : String → ℕ → Trace → Type 0
NotRemoved key start [] = Unit
NotRemoved key start (pipeline cs ∷ tr) =
    (removes_from key start cs ≡ false) × NotRemoved key start tr
NotRemoved key start (_ ∷ tr) = NotRemoved key start tr

-- ZCARD counts every member that was added and not removed. (Each request has a member of its own.)
pub record KeepsEntries (env : Env) : Type 0 where
  pub counted :
      (tr : Trace) (key : String) (start at ttl : ℕ) (member : String) (replies : List ℕ)
      → NotRemoved key start tr
      → env.pipeline_answer tr (window_commands key start at member ttl) ≡ ok replies
      → recorded env key start tr ≤ card_reply replies

-- The clock does not run back.
pub record ClockForward (env : Env) : Type 0 where
  pub later : (c : Call) (tr : Trace) → env.clock tr ≤ env.clock (c ∷ tr)

-- Every pipeline of the trace is a request on the key with this window.
abbrev pub IsLog : Env → (Trace → ℕ) → String → ℕ → Trace → Type 0
IsLog env nanos key window [] = Unit
IsLog env nanos key window (pipeline cs ∷ tr) =
    (cs ≡ request_commands env key window (nanos tr) tr) × IsLog env nanos key window tr
IsLog env nanos key window (_ ∷ tr) = IsLog env nanos key window tr

removes_from_mono :
    (key : String) (a b : ℕ) (cs : List Command)
    → a ≤ b
    → removes_from key a cs ≡ false
    → removes_from key b cs ≡ false
removes_from_mono key a b (z_rem_below k s ∷ cs) h n = ground arith
removes_from_mono key a b cs h n = refl

adds_from_mono :
    (key : String) (a b : ℕ) (cs : List Command)
    → a ≤ b
    → adds_from key b cs ≡ true
    → adds_from key a cs ≡ true
adds_from_mono key a b (z_rem_below k s ∷ z_card k' ∷ z_add j score m ∷ expire k'' t ∷ []) h n =
    ground arith
adds_from_mono key a b cs h n = n

pub NotRemoved-mono :
    (key : String) (a b : ℕ) (tr : Trace) → a ≤ b → NotRemoved key a tr → NotRemoved key b tr
NotRemoved-mono key a b [] h n = tt
NotRemoved-mono key a b (pipeline cs ∷ tr) h n =
    (removes_from_mono key a b cs h n.0, NotRemoved-mono key a b tr h n.1)
NotRemoved-mono key a b (_ ∷ tr) h n = NotRemoved-mono key a b tr h n

-- An earlier start records no fewer requests.
pub recorded_mono :
    (env : Env) (key : String) (a b : ℕ) (tr : Trace)
    → a ≤ b
    → recorded env key b tr ≤ recorded env key a tr
recorded_mono env key a b [] h = omega arith
recorded_mono env key a b (pipeline cs ∷ tr) h =
    ground (arith, adds_from_mono key a b cs h, recorded_mono env key a b tr h)
recorded_mono env key a b (_ ∷ tr) h = recorded_mono env key a b tr h

admitted-le-recorded :
    (env : Env) (key : String) (limit a : ℕ) (tr : Trace)
    → admitted env key limit a tr ≤ recorded env key a tr
admitted-le-recorded env key limit a [] = omega arith
admitted-le-recorded env key limit a (pipeline cs ∷ tr) =
    ground (arith, admitted-le-recorded env key limit a tr)
admitted-le-recorded env key limit a (_ ∷ tr) = admitted-le-recorded env key limit a tr

module _ (env : Env) (nanos : Trace → ℕ) (forward : ClockForward env) (key : String)
    (window : ℕ) where
  -- The requests so far removed nothing from the window that begins at `start`.
  pub IsLog-NotRemoved :
      (start : ℕ) (tr : Trace)
      → env.clock tr ≤ start + window
      → IsLog env nanos key window tr
      → NotRemoved key start tr
  IsLog-NotRemoved start [] h g = tt
  IsLog-NotRemoved start (pipeline cs ∷ tr) h g =
      let early = forward.later (pipeline cs) tr in
      (rw g.0 (ground arith), IsLog-NotRemoved start tr (omega arith) g.1)
  IsLog-NotRemoved start (c ∷ tr) h g =
      let early = forward.later c tr in IsLog-NotRemoved start tr (omega arith) g

  -- What Redis counts for a request covers what was admitted since `start`.
  admitted-le-card :
      KeepsEntries env
      → (limit start : ℕ) (tr : Trace) (replies : List ℕ) → env.clock tr ≤ start + window
      → IsLog env nanos key window tr
      → env.pipeline_answer tr (request_commands env key window (nanos tr) tr) ≡ ok replies
      → admitted env key limit start tr ≤ card_reply replies
  admitted-le-card keeps limit start tr replies h g e =
      let begin = env.clock tr - window in
      omega (
        arith,
        admitted-le-recorded env key limit start tr,
        recorded_mono env key begin start tr (omega arith),
        keeps.counted tr key begin (env.clock tr) (window + 1000)
            (member_of (env.clock tr) (nanos tr)) replies
            (IsLog-NotRemoved begin tr (omega arith) g) e,
      )

  -- Of the requests at `start` or later, up to a clock that is at most `window` past it, no more
  -- than `limit` were admitted by a count: given that every pipeline so far was a request on the
  -- key with this window, a clock that does not run back and a Redis that keeps its entries.
  pub admitted-le-limit :
      KeepsEntries env
      → (limit start : ℕ) (tr : Trace) → env.clock tr ≤ start + window
      → IsLog env nanos key window tr
      → admitted env key limit start tr ≤ limit
  admitted-le-limit keeps limit start [] h g = omega arith
  admitted-le-limit keeps limit start (pipeline cs ∷ tr) h (same, g) =
      let early = forward.later (pipeline cs) tr in
      let ih = admitted-le-limit keeps limit start tr (omega arith) g in
      elim (Result-cases (env.pipeline_answer tr cs)) [
        | inr (e, failed) ↦ ground arith
        | inl (replies, answered) ↦ ground (
          arith,
          admitted-le-card keeps limit start tr replies (omega arith) g (rw (← same) answered),
        )
      ]
  admitted-le-limit keeps limit start (c ∷ tr) h g =
      let early = forward.later c tr in admitted-le-limit keeps limit start tr (omega arith) g
