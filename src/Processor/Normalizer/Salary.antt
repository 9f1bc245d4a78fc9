-- ===== src/Processor/Normalizer/Salary.antt =====
-- ParseSalary, parseAmount and normaliseCurrency of internal/processor/normalizer.go. An int has 64
-- bits.
pub mod Currency
pub mod Ranges
use Prim.Native.Char.{Char, code}
use Prim.Native.Nat.{min}
use Prim.Native.String
use Prim.Native.String.{[], ◌∷◌}
use jobcrawler.Base.{
  ℕ, ℤ, pos, zero, suc, ◌+◌, ◌-◌, ◌*◌, ◌^◌, String, Bool, true, false, not, ◌&&◌, ◌||◌, ◌==◌,
  Option, none, some, str_eq, leb, digits_from, is_digit, all_chars, trim_space, ◌⧺◌, if◌then◌else◌,
}
use jobcrawler.Base.Words.{wrap64}
use jobcrawler.Processor.Normalizer.Matching.{
  is_blank, is_dash, take_run, skip_blank, one_char, after_char, skip_optional, leftmost, ◌>>=◌,
}

abbrev pub is_digit_or_dot : ℕ → Bool
is_digit_or_dot c = is_digit c || c == b'.'

-- \d[\d.]+
unfoldable pub match_amount : String → Option (String × String)
unfolding take_run
match_amount s = do
  (c, s1) ← one_char is_digit s
  let (run, rest) = take_run is_digit_or_dot s1
  if str_eq run "" then none else some (c ∷ run, rest)

-- \d+
unfoldable pub match_digits : String → Option (String × String)
unfolding take_run
match_digits s =
    let (run, rest) = take_run is_digit s in if str_eq run "" then none else some (run, rest)

abbrev pub starts_exactly : String → String → Bool
starts_exactly s t = text.Mathlib.Text.starts_with s t

-- (€|EUR|CHF|GBP|USD)?, as the text of the group.
abbrev pub currency_de : String → String
currency_de s =
    if starts_exactly s "€"
    then "€"
    else if starts_exactly s "EUR"
    then "EUR"
    else if starts_exactly s "CHF"
    then "CHF"
    else if starts_exactly s "GBP"
    then "GBP"
    else if starts_exactly s "USD"
    then "USD"
    else ""

-- patternDE: the two amounts and the currency.
unfoldable pub match_de : String → Option (String × String × String)
match_de s = do
  (low, s1) ← match_amount s
  s2 ← after_char is_dash (skip_blank s1)
  (high, s3) ← match_amount (skip_blank s2)
  some (low, high, currency_de (skip_blank s3))

abbrev pub is_sign : ℕ → Bool
is_sign c = c == 0x20AC || c == b'$' || c == 0xA3

abbrev pub is_k : ℕ → Bool
is_k c = c == b'k'

-- patternShort: the two amounts and the first currency.
unfoldable pub match_short : String → Option (String × String × String)
unfolding take_run match_digits
match_short s = do
  (sign, s1) ← one_char is_sign s
  (low, s2) ← match_digits (skip_blank s1)
  s3 ← after_char is_dash (skip_blank (skip_optional is_k s2))
  (high, _) ← match_digits (skip_blank (skip_optional is_sign (skip_blank s3)))
  some (low, high, sign ∷ [])

-- A letter in either case, where the long s is another s.
abbrev pub folds : ℕ → ℕ → Bool
folds letter c =
    c == letter
    || (leb b'a' letter && leb letter b'z' && c == letter - 32)
    || (letter == b's' && c == 0x17F)

-- The text that a word of small letters matches, if it does.
unfoldable pub match_folded : String → String → Option (String × String)
match_folded [] s = some ("", s)
match_folded (l ∷ w) [] = none
match_folded (l ∷ w) (c ∷ s) =
    let rest = match_folded w s in
    if folds (code l) (code c) then (rest >>= λ (t, s'). some (c ∷ t, s')) else none

abbrev pub text_of : Option (String × String) → String
text_of none = ""
text_of (some (t, _)) = t

abbrev pub or_else : String → String → String
or_else s t = if str_eq s "" then t else s

-- (€|EUR|USD|GBP)? without regard to case.
abbrev pub currency_up_to : String → String
currency_up_to s = or_else (text_of (match_folded "€" s)) (
    or_else (text_of (match_folded "eur" s))
      (or_else (text_of (match_folded "usd" s)) (text_of (match_folded "gbp" s))))

-- \s+
abbrev pub some_blank : String → Option String
some_blank s = if str_eq (take_run is_blank s).0 "" then none else some (skip_blank s)

-- patternUpTo: the amount and the currency.
unfoldable pub match_up_to : String → Option (String × String)
unfolding take_run match_amount match_folded
match_up_to s = do
  (_, s1) ← match_folded "up" s
  s2 ← some_blank s1
  (_, s3) ← match_folded "to" s2
  s4 ← some_blank s3
  (high, s5) ← match_amount s4
  some (high, currency_up_to (skip_blank s5))

-- strings.ReplaceAll(s, x, "") for one character.
unfoldable pub drop_char : ℕ → String → String
drop_char x [] = []
drop_char x (c ∷ s) = if code c == x then drop_char x s else c ∷ drop_char x s

-- strconv.Atoi of a text without a sign, its error dropped: 0 for a text that is no number, and the
-- largest int for a number that is too large.
unfoldable pub atoi : String → ℕ
unfolding digits_from all_chars
atoi s = if not (str_eq s "") && all_chars is_digit s then min (digits_from 0 s) (2 ^ 63 - 1) else 0

unfoldable pub parse_amount : String → ℕ
unfolding drop_char atoi
parse_amount s = atoi (trim_space (drop_char b',' (drop_char b'.' s)))

unfoldable pub normalise_currency : String → String
normalise_currency s =
    let t = trim_space s in
    if str_eq t "€" || str_eq t "EUR"
    then "EUR"
    else if str_eq t "$" || str_eq t "USD"
    then "USD"
    else if str_eq t "£" || str_eq t "GBP"
    then "GBP"
    else if str_eq t "CHF"
    then "CHF"
    else "EUR"

abbrev pub currency_or_eur : String → String
currency_or_eur cur = if str_eq cur "" then "EUR" else normalise_currency cur

abbrev pub Salary : Type 0
Salary = Option ℤ × Option ℤ × String

abbrev pub up_to_salary : Option (String × String) → Salary
up_to_salary none = (none, none, "")
up_to_salary (some (high, cur)) = (none, some (pos (parse_amount high)), currency_or_eur cur)

abbrev pub short_salary : Option (String × String × String) → Salary → Salary
short_salary none rest = rest
short_salary (some (low, high, cur)) rest = (
  some (wrap64 (parse_amount low * 1000)),
  some (wrap64 (parse_amount high * 1000)),
  normalise_currency cur,
)

abbrev pub de_salary : Option (String × String × String) → Salary → Salary
de_salary none rest = rest
de_salary (some (low, high, cur)) rest =
    (some (pos (parse_amount low)), some (pos (parse_amount high)), currency_or_eur cur)

-- ParseSalary: the three patterns in their order.
unfoldable pub parse_salary : String → Salary
unfolding take_run leftmost match_amount match_de match_short match_up_to parse_amount
    normalise_currency
parse_salary text =
    if str_eq text ""
    then (none, none, "")
    else de_salary (leftmost match_de text)
        (short_salary (leftmost match_short text) (up_to_salary (leftmost match_up_to text)))
