-- ===== src/Startup/Attempts.antt =====
-- How often connectWithRetry of cmd/api/main.go tries, and what it returns.
use jobcrawler.Base.{
  ℕ, zero, suc, ◌+◌, ◌-◌, ◌≤◌, ◌<◌, ◌≡◌, ◌≢◌, inl, inr, String, Bool, true, false, Option, none,
  some, List, [], ◌∷◌, ltb, count, refl, arith, ap, Bool-cases, Option-cases,
}
use jobcrawler.World.Errors.{Err}
use jobcrawler.Startup.{Event, tried, slept, with_pause, attempts_from, connect_with_retry}

abbrev pub is_call : Event → Bool
is_call (tried n) = true
is_call slept = false

abbrev pub is_pause : Event → Bool
is_pause (tried n) = false
is_pause slept = true

module _ (connect : ℕ → Option Err) (name : String) (max_attempts : ℕ) where
  abbrev pub FailBetween : ℕ → ℕ → Type 0
  FailBetween first last = (i : ℕ) → first ≤ i → i < last → connect i ≢ none

  -- Attempt `k` is the first that succeeds, or all of them fail.
  pub data Outcome (attempt left : ℕ) (r : Option Err × List Event) : Type 0 where
    succeeded :
        (k : ℕ)
        → attempt ≤ k
        → k < attempt + left
        → connect k ≡ none
        → FailBetween attempt k
        → r.0 ≡ none
        → count is_call r.1 ≡ k - attempt + 1
        → count is_pause r.1 ≡ k - attempt
        → Outcome attempt left r
    exhausted :
        (e : Err)
        → FailBetween attempt (attempt + left)
        → r.0 ≡ some e
        → count is_call r.1 ≡ left
        → count is_pause r.1 ≡ left - 1
        → Outcome attempt left r

  fail_first :
      (attempt last : ℕ) (e : Err)
      → connect attempt ≡ some e
      → FailBetween (attempt + 1) last
      → FailBetween attempt last
  fail_first attempt last e h later i low high none_at = elim (Bool-cases (ltb attempt i)) [
    | inl after ↦ later i (ground arith) high none_at
    | inr at ↦ let same : i ≡ attempt = ground arith in ground (arith, ap connect same)
  ]

  pause_before :
      (attempt left : ℕ) (events : List Event)
      → attempt + suc (suc left) ≡ max_attempts + 1
      → with_pause attempt max_attempts events ≡ slept ∷ events
  pause_before attempt left events h =
      let more : ltb attempt max_attempts ≡ true = ground arith in rw more refl

  no_pause :
      (attempt : ℕ) (events : List Event)
      → attempt + 1 ≡ max_attempts + 1
      → with_pause attempt max_attempts events ≡ events
  no_pause attempt events h =
      let last : ltb attempt max_attempts ≡ false = ground arith in rw last refl

  -- An attempt that failed, in front of the others.
  one_more :
      (attempt left : ℕ) (e : Err) (r : Option Err × List Event)
      → attempt + suc left ≡ max_attempts + 1
      → connect attempt ≡ some e
      → Outcome (attempt + 1) left r
      → Outcome attempt (suc left) (r.0, tried attempt ∷ with_pause attempt max_attempts r.1)
  one_more attempt zero e r h failed (succeeded k low high fine fails ended calls pauses) =
      absurd (omega arith)
  one_more attempt (suc left) e r h failed (succeeded k low high fine fails ended calls pauses) =
      rw (pause_before attempt left r.1 h) (
        succeeded k (omega arith) (omega arith) fine (fail_first attempt k e failed fails) ended
          (omega arith) (omega arith))
  one_more attempt zero e r h failed (exhausted last fails reported calls pauses) =
      rw (no_pause attempt r.1 h) (
        exhausted last
          (fail_first attempt (attempt + 1) e failed (λ i low high. absurd (omega arith))) reported
          (omega arith) (omega arith))
  one_more attempt (suc left) e r h failed (exhausted last fails reported calls pauses) =
      rw (pause_before attempt left r.1 h) (
        exhausted last
          (fail_first attempt (attempt + suc (suc left)) e failed
            (λ i low high. fails i low (omega arith)))
          reported (omega arith) (omega arith))

  pub tried_once :
      (attempt left : ℕ)
      → connect attempt ≡ none
      → attempts_from connect name max_attempts attempt (suc left) ≡ (none, tried attempt ∷ [])
  unfolding attempts_from
  tried_once attempt left fine = rw (fine, attempts_from) refl

  pub tried_on :
      (attempt left : ℕ) (e : Err)
      → connect attempt ≡ some e
      → attempts_from connect name max_attempts attempt (suc left) ≡ (
          let r = attempts_from connect name max_attempts (attempt + 1) left in
          (r.0, tried attempt ∷ with_pause attempt max_attempts r.1))
  unfolding attempts_from
  tried_on attempt left e failed = rw (failed, attempts_from) refl

  attempts_from-Outcome :
      (attempt left : ℕ)
      → attempt + left ≡ max_attempts + 1
      → Outcome attempt left (attempts_from connect name max_attempts attempt left)
  unfolding attempts_from
  attempts_from-Outcome attempt zero h =
      exhausted _ (λ i low high. absurd (omega arith)) refl refl refl
  attempts_from-Outcome attempt (suc left) h = elim (Option-cases (connect attempt)) [
    | inl fine ↦ rw (tried_once attempt left fine) (
        succeeded attempt (omega arith) (omega arith) fine (λ i low high. absurd (omega arith)) refl
          (omega arith) (omega arith))
    | inr (e, failed) ↦ rw (tried_on attempt left e failed) (
        one_more attempt left e _ h failed (attempts_from-Outcome (attempt + 1) left (omega arith)))
  ]

  -- Where an attempt of the allowed ones succeeds, connectWithRetry stops at the first that does and
  -- returns no error, after as many calls and one with_pause less; where all of them fail, it calls exactly
  -- the allowed number of times, never sleeps after the last one, and returns an error.
  pub connect_with_retry-Outcome :
      Outcome 1 max_attempts (connect_with_retry connect name max_attempts)
  unfolding connect_with_retry
  connect_with_retry-Outcome = attempts_from-Outcome 1 max_attempts (omega arith)
