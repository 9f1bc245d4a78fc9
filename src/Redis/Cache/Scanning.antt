-- ===== src/Redis/Cache/Scanning.antt =====
-- The end of a scan (ScanAndDelete of pkg/redis/cache.go).
use jobcrawler.Base.{
  ℕ, zero, suc, ◌<◌, String, ◌≡◌, ◌⊎◌, inl, inr, Bool, true, Option, none, some, List, [], ◌∷◌,
  arith, refl, any,
}
use jobcrawler.World.Errors.{Err, ok, Result-cases}
use jobcrawler.World.{Env, Io, Trace, Call, redis_scan}
use jobcrawler.Redis.Cache.{scan_from, scanned, next_round, scan_delete, scan_and_delete}

-- The cursor of SCAN runs through finitely many buckets and then comes back to 0.
pub record ScanEnds (env : Env) : Type 0 where
  pub distance : ℕ → ℕ
  pub nearer :
      (tr : Trace) (cursor : ℕ) (pattern : String) (keys : List String) (next : ℕ)
      → env.scan_answer tr cursor pattern ≡ ok (keys, next)
      → (next ≡ 0) ⊎ (distance next < distance cursor)

module _ (env : Env) (ends : ScanEnds env) where
  next_round_ends :
      (e : Option Err) (next : ℕ) (rest : Io (Option (Option Err))) (tr : Trace)
      → (0 < next → (t : Trace) → (x : Option Err) × ((rest t).0 ≡ some x))
      → (x : Option Err) × ((next_round env e next rest tr).0 ≡ some x)
  unfolding next_round
  next_round_ends (some e) next rest tr h = (some e, refl)
  next_round_ends none zero rest tr h = (none, refl)
  next_round_ends none (suc n) rest tr h = h (omega arith) tr

  scan_from_ends :
      (rounds cursor : ℕ) (pattern : String) (tr : Trace)
      → ends.distance cursor < rounds
      → (e : Option Err) × ((scan_from env rounds cursor pattern tr).0 ≡ some e)
  unfolding scan_from scanned
  scan_from_ends zero cursor pattern tr h = absurd (omega arith)
  scan_from_ends (suc rounds) cursor pattern tr h =
      elim (Result-cases (env.scan_answer tr cursor pattern)) [
        | inr (e, failed) ↦ rw failed (_, refl)
        | inl ((keys, next), answered) ↦ rw answered (
            next_round_ends _ next (scan_from env rounds next pattern) _ (λ more t.
              scan_from_ends rounds next pattern t
                (ground (arith, ends.nearer tr cursor pattern keys next answered))))
      ]

  -- A scan ends within one round more than the distance of its start, with or without an error.
  pub scan_and_delete_ends :
      (pattern : String) (tr : Trace)
      → (e : Option Err) × ((scan_and_delete env (suc (ends.distance 0)) pattern tr).0 ≡ some e)
  unfolding scan_and_delete
  scan_and_delete_ends pattern tr =
      scan_from_ends (suc (ends.distance 0)) 0 pattern tr (omega arith)

module _ (env : Env) (p : Call → Bool) where
  scan_delete_keeps :
      (pattern : String) (keys : List String) (tr : Trace)
      → any p tr ≡ true
      → any p (scan_delete env pattern keys tr).1 ≡ true
  unfolding scan_delete
  scan_delete_keeps pattern [] tr h = h
  scan_delete_keeps pattern (k ∷ ks) tr h = ground arith

  next_round_keeps :
      (e : Option Err) (next : ℕ) (rest : Io (Option (Option Err))) (tr : Trace)
      → any p tr ≡ true
      → ((t : Trace) → any p t ≡ true → any p (rest t).1 ≡ true)
      → any p (next_round env e next rest tr).1 ≡ true
  unfolding next_round
  next_round_keeps (some e) next rest tr h k = h
  next_round_keeps none zero rest tr h k = h
  next_round_keeps none (suc n) rest tr h k = k tr h

  scan_from_keeps :
      (rounds cursor : ℕ) (pattern : String) (tr : Trace)
      → any p tr ≡ true
      → any p (scan_from env rounds cursor pattern tr).1 ≡ true
  unfolding scan_from scanned
  scan_from_keeps zero cursor pattern tr h = h
  scan_from_keeps (suc rounds) cursor pattern tr h =
      let made : any p (redis_scan cursor pattern 100 ∷ tr) ≡ true = ground arith in
      elim (Result-cases (env.scan_answer tr cursor pattern)) [
        | inr (e, failed) ↦ rw failed made
        | inl ((keys, next), answered) ↦ rw answered (
            next_round_keeps _ next (scan_from env rounds next pattern) _
              (scan_delete_keeps pattern keys _ made)
              (λ t k. scan_from_keeps rounds next pattern t k))
      ]

  -- A call that was made stays on the trace.
  pub scan_and_delete_keeps :
      (rounds : ℕ) (pattern : String) (tr : Trace)
      → any p tr ≡ true
      → any p (scan_and_delete env rounds pattern tr).1 ≡ true
  unfolding scan_and_delete
  scan_and_delete_keeps rounds pattern tr = scan_from_keeps rounds 0 pattern tr
