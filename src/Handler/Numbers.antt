-- ===== src/Handler/Numbers.antt =====
-- strconv.Atoi, as internal/handler/job_handler.go uses it: a sign, decimal digits, 64 bits.
use Prim.Native.Char.{code}
use Prim.Native.String.{String, [], ◌∷◌}
use jobcrawler.Base.{
  ℕ, zero, suc, ℤ, pos, negsuc, ◌+◌, ◌-◌, ◌*◌, ◌^◌, Bool, ◌&&◌, Option, none, some, ltb, leb, ◌==◌,
  str_eq, if◌then◌else◌,
}

abbrev is_digit : ℕ → Bool
is_digit c = leb 48 c && leb c 57

digits_from : ℕ → String → Option ℕ
digits_from n [] = some n
digits_from n (c ∷ s) =
    let rest = digits_from (n * 10 + (code c - 48)) s in if is_digit (code c) then rest else none

unsigned : String → Option ℕ
unfolding digits_from
unsigned s = if str_eq s "" then none else digits_from 0 s

abbrev positive_int : Option ℕ → Option ℤ
positive_int none = none
positive_int (some n) = if ltb n (2 ^ 63) then some (pos n) else none

abbrev negative_int : Option ℕ → Option ℤ
negative_int none = none
negative_int (some zero) = some (pos 0)
negative_int (some (suc n)) = if ltb n (2 ^ 63) then some (negsuc n) else none

-- An error is `none`.
unfoldable pub atoi : String → Option ℤ
unfolding unsigned
atoi [] = none
atoi (c ∷ s) =
    if code c == 45
    then negative_int (unsigned s)
    else if code c == 43
    then positive_int (unsigned s)
    else positive_int (unsigned (c ∷ s))
