-- ===== src/Repository/Rows/RoundTrip.antt =====
-- The SQL null helpers and the cut of texts (internal/repository/postgres/job_repo.go).
use Prim.Native.String
use Prim.Native.String.{[], ◌∷◌}
use text.Mathlib.TextLemmas.{length-nil, length-cons}
use jobcrawler.Base.{ℕ, zero, suc, ◌≤◌, String, ◌≡◌, arith, refl, eq_iff, ap}
use jobcrawler.Repository.Rows.{truncate, null_string, null_time, string_or_empty, time_or_zero}

pub string_or_empty-null_string : (s : String) → string_or_empty (null_string s) ≡ s
string_or_empty-null_string s = ground (arith, eq_iff s "")

pub time_or_zero-null_time : (t : ℕ) → time_or_zero (null_time t) ≡ t
time_or_zero-null_time t = ground arith

-- A truncated text has at most the given number of characters.
pub count-truncate : (s : String) (n : ℕ) → String.count (truncate s n) ≤ n
unfolding truncate
count-truncate s zero = rw length-nil (omega arith)
count-truncate [] (suc n) = rw length-nil (omega arith)
count-truncate (c ∷ s) (suc n) = rw length-cons (omega (arith, count-truncate s n))

-- A text that fits is not changed.
pub truncate_fits : (s : String) (n : ℕ) → String.count s ≤ n → truncate s n ≡ s
unfolding truncate
truncate_fits [] zero h = refl
truncate_fits (c ∷ s) zero h = absurd (omega (arith, length-cons c s))
truncate_fits [] (suc n) h = refl
truncate_fits (c ∷ s) (suc n) h =
    ap (λ (t : String). c ∷ t) (truncate_fits s n (omega (arith, length-cons c s)))
