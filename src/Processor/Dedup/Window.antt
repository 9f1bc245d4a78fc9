-- ===== src/Processor/Dedup/Window.antt =====
-- The deduplicator of internal/processor/dedup.go beside what it promises: a set of fingerprints, each
-- of which is remembered for seven days from the job that was let through.
use Prim.Native.Char.{Char}
use text.Mathlib.TextLemmas.{append_cancel_left}
use text.Mathlib.TextPositions.{eq_refl}
use jobcrawler.Base.{
  ℕ, ◌+◌, ◌*◌, String, ◌≡◌, inl, inr, Bool, true, false, not, Option, none, some, List, [], ◌∷◌,
  ltb, str_eq, eq_iff, ◌⧺◌, Bool-cases, arith, refl, if◌then◌else◌,
}
use jobcrawler.World.Errors.{ok}
use jobcrawler.World.{Call, set_nx, wait, Env, Trace}
use jobcrawler.Processor.Dedup.{fingerprint, is_duplicate}

-- What is promised: fingerprints with the times at which they were let through, the latest first.
abbrev pub Seen : Type 0
Seen = List (String × ℕ)

abbrev pub week : ℕ
week = 7 * 24 * 3600000

-- When a fingerprint is forgotten.
abbrev pub forgotten_at : Seen → String → Option ℕ
forgotten_at [] fp = none
forgotten_at ((g, t) ∷ seen) fp = if str_eq g fp then some (t + week) else forgotten_at seen fp

abbrev pub is_before : ℕ → Option ℕ → Bool
is_before now none = false
is_before now (some t) = ltb now t

-- The verdict on a fingerprint at a time; one that is let through is remembered.
abbrev pub check : ℕ → String → Seen → Bool × Seen
check now fp seen =
    if is_before now (forgotten_at seen fp) then (true, seen) else (false, (fp, now) ∷ seen)

abbrev pub verdicts : List (ℕ × String) → Seen → List Bool
verdicts [] seen = []
verdicts ((now, fp) ∷ rest) seen =
    let (duplicate, seen') = check now fp seen in duplicate ∷ verdicts rest seen'

-- SETNX key and its time to live, as Redis documents them: the key is there until its time is over, and
-- only a call that finds it gone sets it again.
abbrev pub set_by : Call → Option (String × ℕ)
set_by c = elim c [ set_nx k ttl ↦ some (k, ttl) | _ ↦ none ]

module _ (clock : Trace → ℕ) where
  abbrev set_again : Trace → String → Option ℕ → Option (String × ℕ) → Option ℕ
  set_again tr key before none = before
  set_again tr key before (some (k, ttl)) =
      if str_eq k key
      then (if is_before (clock tr) before then before else some (clock tr + ttl))
      else before

  unfoldable pub gone_at : Trace → String → Option ℕ
  gone_at [] key = none
  gone_at (c ∷ tr) key = set_again tr key (gone_at tr key) (set_by c)

abbrev pub IsSetNx : Env → Type 0
IsSetNx env =
    (tr : Trace) (key : String) (ttl : ℕ)
    → env.set_nx_answer tr key ttl ≡ ok (not (is_before (env.clock tr) (gone_at env.clock tr key)))

other_fingerprint :
    (now : ℕ) (g fp : String) (seen : Seen)
    → str_eq g fp ≡ false
    → forgotten_at seen fp ≡ forgotten_at (check now g seen).1 fp
other_fingerprint now g fp seen differ = elim (Bool-cases (is_before now (forgotten_at seen g))) [
  | inl old ↦ rw old refl
  | inr new ↦ rw (new, differ) refl
]

same_fingerprint :
    (now : ℕ) (g fp : String) (seen : Seen)
    → str_eq g fp ≡ true
    → (if is_before now (forgotten_at seen fp) then forgotten_at seen fp else some (now + week))
      ≡ forgotten_at (check now g seen).1 fp
same_fingerprint now g fp seen same =
    let one : g ≡ fp = (eq_iff g fp).0 same in
    elim (Bool-cases (is_before now (forgotten_at seen fp))) [
      | inl old ↦ rw (one, old) refl
      | inr new ↦ rw (one, new, eq_refl fp) refl
    ]

-- A job that is asked for, or time that passes.
pub data Op : Type 0 where
  job : String → String → String → Op
  pass : ℕ → Op

module _ (sha256_hex : String → String) (lower : Char → Char) (env : Env) where
  -- What IsDuplicate answers to the jobs, one after another.
  unfoldable pub run : List Op → Trace → List Bool
  run [] tr = []
  run (job title company location ∷ ops) tr =
      let (r, tr') = is_duplicate sha256_hex lower env title company location tr in
      r.0 ∷ run ops tr'
  run (pass n ∷ ops) tr = run ops (wait n ∷ tr)

  -- The fingerprints of the jobs and the times at which they were asked for.
  unfoldable pub timed : List Op → Trace → List (ℕ × String)
  timed [] tr = []
  timed (job title company location ∷ ops) tr =
      (env.clock tr, fingerprint sha256_hex lower title company location)
      ∷ timed ops (is_duplicate sha256_hex lower env title company location tr).1
  timed (pass n ∷ ops) tr = timed ops (wait n ∷ tr)

  abbrev job_key : String → String
  job_key fp = "dedup:job:" ⧺ fp

  -- The keys in Redis are the fingerprints that are remembered.
  abbrev Agree : Trace → Seen → Type 0
  Agree tr seen = (fp : String) → gone_at env.clock tr (job_key fp) ≡ forgotten_at seen fp

  str_eq-job_key : (g fp : String) → str_eq (job_key g) (job_key fp) ≡ str_eq g fp
  str_eq-job_key g fp = elim (Bool-cases (str_eq g fp)) [
    | inl same ↦ rw ((eq_iff g fp).0 same, eq_refl (job_key fp), eq_refl fp) refl
    | inr differ ↦ elim (Bool-cases (str_eq (job_key g) (job_key fp))) [
      | inl e ↦ absurd (
          ground (
            arith,
            (eq_iff g fp).1
                (append_cancel_left "dedup:job:" g fp ((eq_iff (job_key g) (job_key fp)).0 e)),
          ))
      | inr e ↦ rw (e, differ) refl
    ]
  ]

  module _ (redis : IsSetNx env) (tr : Trace) (seen : Seen) (agree : Agree tr seen)
      (title company location : String) where
    abbrev fp_of : String
    fp_of = fingerprint sha256_hex lower title company location

    verdict_agrees :
        (is_duplicate sha256_hex lower env title company location tr).0.0
        ≡ (check (env.clock tr) fp_of seen).0
    unfolding is_duplicate
    verdict_agrees = elim (Bool-cases (is_before (env.clock tr) (forgotten_at seen fp_of))) [
      | inl old ↦ rw (is_duplicate, redis tr (job_key fp_of) week, agree fp_of, old) refl
      | inr new ↦ rw (is_duplicate, redis tr (job_key fp_of) week, agree fp_of, new) refl
    ]

    trace_agrees :
        Agree
          (is_duplicate sha256_hex lower env title company location tr).1
          (check (env.clock tr) fp_of seen).1
    unfolding is_duplicate gone_at
    trace_agrees fp =
        let prefixed = str_eq-job_key fp_of fp in
        elim (Bool-cases (str_eq fp_of fp)) [
          | inr differ ↦
              rw (is_duplicate, gone_at, prefixed, differ, agree fp)
                (other_fingerprint (env.clock tr) fp_of fp seen differ)
          | inl same ↦
              rw (is_duplicate, gone_at, prefixed, same, agree fp)
                (same_fingerprint (env.clock tr) fp_of fp seen same)
        ]

  run_refines :
      (redis : IsSetNx env) (ops : List Op) (tr : Trace) (seen : Seen)
      → Agree tr seen
      → run ops tr ≡ verdicts (timed ops tr) seen
  unfolding run timed gone_at
  run_refines redis [] tr seen agree = refl
  run_refines redis (job title company location ∷ ops) tr seen agree =
      rw
        (
          verdict_agrees redis tr seen agree title company location,
          run_refines redis ops _ _ (trace_agrees redis tr seen agree title company location),
        )
        refl
  run_refines redis (pass n ∷ ops) tr seen agree = run_refines redis ops (wait n ∷ tr) seen agree

  -- Whatever jobs are asked for and however much time passes between them, IsDuplicate over a Redis
  -- whose SETNX works as documented answers as the set does that remembers a fingerprint for seven days
  -- from the job that was let through.
  pub run-refines : IsSetNx env → (ops : List Op) → run ops [] ≡ verdicts (timed ops []) []
  unfolding gone_at
  run-refines redis ops = run_refines redis ops [] [] (λ fp. refl)
