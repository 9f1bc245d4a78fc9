-- ===== src/Startup.antt =====
-- cmd/api/main.go, connectWithRetry: what it calls and what it returns. The log lines are left out.
pub mod Attempts
use jobcrawler.Base.{
  ℕ, zero, suc, ◌+◌, String, Bool, true, false, Option, none, some, List, [], ◌∷◌, ltb, ◌⧺◌,
  decimal, if◌then◌else◌,
}
use jobcrawler.World.Errors.{Err, failure}

-- A call of `connect`, and the with_pause of `delay`.
pub data Event : Type 0 where
  tried : ℕ → Event
  slept : Event

abbrev pub with_pause : ℕ → ℕ → List Event → List Event
with_pause attempt max_attempts events = if ltb attempt max_attempts then slept ∷ events else events

module _ (connect : ℕ → Option Err) (name : String) (max_attempts : ℕ) where
  -- The loop from an attempt on, with the number of rounds that are left; `connect` gives the error of
  -- each attempt.
  unfoldable pub attempts_from : ℕ → ℕ → Option Err × List Event
  attempts_from attempt zero =
      (some (failure (name ⧺ (": failed after " ⧺ (decimal max_attempts ⧺ " attempts")))), [])
  attempts_from attempt (suc left) =
      let (result, events) = attempts_from (attempt + 1) left in
      elim (connect attempt) [
        | none ↦ (none, tried attempt ∷ [])
        | some e ↦ (result, tried attempt ∷ with_pause attempt max_attempts events)
      ]

  unfoldable pub connect_with_retry : Option Err × List Event
  unfolding attempts_from
  connect_with_retry = attempts_from 1 max_attempts
