-- ===== src/Processor/Normalizer/Salary/Ranges.antt =====
-- The salaries that internal/processor/normalizer.go reads back from a printed range.
use Prim.Native.Char.{Char, code}
use Prim.Native.Nat.{min}
use Prim.Native.String
use Prim.Native.String.{[], ◌∷◌}
use text.Mathlib.TextLemmas.{cons-append, nil-append, length-nil, length-cons, length-append}
use jobcrawler.Base.{
  cons_differs, longer_differs, ℕ, pos, ◌-◌, ◌^◌, ◌≤◌, ◌<◌, ◌≡◌, refl, ap, arith, String, Bool,
  true, false, ◌==◌, Option, some, is_digit, is_space, all_chars, trim_left, trim_right, trim_space,
  decimal, ◌⧺◌,
}
use jobcrawler.Base.{digits_from-decimal, all_chars-decimal, count-decimal}
use jobcrawler.Processor.Normalizer.Matching.{
  is_blank, is_dash, take_run, skip_blank, leftmost, after_char,
}
use jobcrawler.Processor.Normalizer.Salary.{
  is_digit_or_dot, match_amount, match_de, drop_char, atoi, parse_amount, parse_salary,
  normalise_currency, currency_de, currency_or_eur,
}
use jobcrawler.Processor.Normalizer.Salary.Currency.{IsCurrency, eur, usd, gbp, chf}

all_chars-weaken :
    (p q : ℕ → Bool) (s : String)
    → ((c : ℕ) → p c ≡ true → q c ≡ true)
    → all_chars p s ≡ true
    → all_chars q s ≡ true
unfolding all_chars
all_chars-weaken p q [] w h = refl
all_chars-weaken p q (c ∷ s) w h =
    rw (w (code c) (ground arith), all_chars-weaken p q s w (ground arith)) refl

-- A run of characters that pass ends in front of one that does not.
take_run-append :
    (p : ℕ → Bool) (x : String) (c : Char) (s : String)
    → all_chars p x ≡ true
    → p (code c) ≡ false
    → take_run p (x ⧺ (c ∷ s)) ≡ (x, c ∷ s)
unfolding take_run all_chars
take_run-append p [] c s h k = rw (nil-append (c ∷ s), take_run, k) refl
take_run-append p (d ∷ x) c s h k =
    let passes : p (code d) ≡ true = ground arith in
    rw (cons-append d x (c ∷ s), take_run, take_run-append p x c s (ground arith) k, passes) refl

digit_or_dot : (c : ℕ) → is_digit c ≡ true → is_digit_or_dot c ≡ true
digit_or_dot c h = ground arith

match_amount-digits :
    (x : String) (c : Char) (s : String)
    → all_chars is_digit x ≡ true
    → 2 ≤ String.count x
    → is_digit_or_dot (code c) ≡ false
    → match_amount (x ⧺ (c ∷ s)) ≡ some (x, c ∷ s)
unfolding match_amount all_chars
match_amount-digits [] c s h n k = absurd (omega (arith, length-nil))
match_amount-digits (d ∷ []) c s h n k = absurd (omega (arith, length-cons d "", length-nil))
match_amount-digits (d ∷ e ∷ x) c s h n k =
    let first : is_digit (code d) ≡ true = ground arith in
    let run =
      take_run-append is_digit_or_dot (e ∷ x) c s
        (all_chars-weaken is_digit is_digit_or_dot (e ∷ x) digit_or_dot (ground arith)) k in
    rw (cons-append d (e ∷ x) (c ∷ s), first, run, cons_differs e x) refl

other_code : (c x : ℕ) → is_digit c ≡ true → is_digit x ≡ false → (c == x) ≡ false
other_code c x h k = ground arith

first_passes :
    (p : ℕ → Bool) (c : Char) (s : String) → all_chars p (c ∷ s) ≡ true → p (code c) ≡ true
unfolding all_chars
first_passes p c s h = ground arith

no_blank : (c : ℕ) → is_digit c ≡ true → is_blank c ≡ false
no_blank c h = ground arith

drop_char-digits :
    (x : ℕ) (s : String) → is_digit x ≡ false → all_chars is_digit s ≡ true → drop_char x s ≡ s
unfolding drop_char all_chars
drop_char-digits x [] h k = refl
drop_char-digits x (c ∷ s) h k =
    let other = other_code (code c) x (first_passes is_digit c s k) h in
    rw (other, drop_char-digits x s h (ground arith)) refl

no_space : (c : ℕ) → is_digit c ≡ true → is_space c ≡ false
unfolding is_space
no_space c h = ground arith

trim_right-digits : (s : String) → all_chars is_digit s ≡ true → trim_right is_space s ≡ s
unfolding trim_right all_chars
trim_right-digits [] h = refl
trim_right-digits (c ∷ s) h =
    rw (trim_right-digits s (ground arith), no_space (code c) (ground arith)) refl

trim_space-digits : (s : String) → all_chars is_digit s ≡ true → trim_space s ≡ s
unfolding trim_space trim_left all_chars
trim_space-digits [] h = refl
trim_space-digits (c ∷ s) h = rw (no_space (code c) (ground arith)) (trim_right-digits (c ∷ s) h)

-- parseAmount gives a printed number back.
pub parse_amount-decimal : (n : ℕ) → 10 ≤ n → n < 2 ^ 63 → parse_amount (decimal n) ≡ n
unfolding parse_amount atoi
parse_amount-decimal n h k =
    let digits = all_chars-decimal n in
    let filled = longer_differs (decimal n) (omega (arith, count-decimal n h)) in
    let fits : min n (2 ^ 63 - 1) ≡ n = omega arith in
    rw
      (
        drop_char-digits b'.' (decimal n) refl digits,
        drop_char-digits b',' (decimal n) refl digits,
        trim_space-digits (decimal n) digits,
        digits,
        digits_from-decimal n,
        filled,
        fits,
      )
      refl

-- The text of a range, with its currency.
abbrev pub range_text : ℕ → ℕ → String → String
range_text low high cur = decimal low ⧺ (" - " ⧺ (decimal high ⧺ (" " ⧺ cur)))

take_run_none :
    (p : ℕ → Bool) (c : Char) (s : String) → p (code c) ≡ false → take_run p (c ∷ s) ≡ ("", c ∷ s)
unfolding take_run
take_run_none p c s h = rw (take_run, h) refl

skip_blank-digits :
    (x t : String)
    → all_chars is_digit x ≡ true
    → 1 ≤ String.count x
    → skip_blank (" " ⧺ (x ⧺ t)) ≡ x ⧺ t
unfolding take_run
skip_blank-digits [] t h k = absurd (omega (arith, length-nil))
skip_blank-digits (c ∷ x) t h k =
    let digit = no_blank (code c) (first_passes is_digit c x h) in
    rw
      (
        cons-append " " "" ((c ∷ x) ⧺ t),
        nil-append ((c ∷ x) ⧺ t),
        cons-append c x t,
        ap (λ r. r.1) (take_run_none is_blank c (x ⧺ t) digit),
      )
      refl

skip_dash : (s : String) → after_char is_dash (skip_blank (" - " ⧺ s)) ≡ some (" " ⧺ s)
unfolding take_run
skip_dash s = rw (cons-append " " "- " s, cons-append "-" " " s) refl

-- The currency behind the blank.
read_currency :
    (cur : String) → IsCurrency cur → currency_or_eur (currency_de (skip_blank (" " ⧺ cur))) ≡ cur
unfolding take_run normalise_currency trim_space
read_currency _ eur = refl
read_currency _ usd = refl
read_currency _ gbp = refl
read_currency _ chf = refl

leftmost_here :
    {A : Type 0} (m : String → Option A) (s : String) (a : A) → m s ≡ some a → leftmost m s ≡ some a
unfolding leftmost
leftmost_here m [] a h = h
leftmost_here m (c ∷ s) a h = rw (leftmost, h) refl

match_amount-decimal :
    (n : ℕ) (s : String) → 10 ≤ n → match_amount (decimal n ⧺ (" " ⧺ s)) ≡ some (decimal n, " " ⧺ s)
match_amount-decimal n s h =
    rw (cons-append " " "" s)
      (match_amount-digits (decimal n) " " _ (all_chars-decimal n) (count-decimal n h) refl)

match_amount_dash :
    (n : ℕ) (s : String)
    → 10 ≤ n
    → match_amount (decimal n ⧺ (" - " ⧺ s)) ≡ some (decimal n, " - " ⧺ s)
match_amount_dash n s h =
    rw (cons-append " " "- " s)
      (match_amount-digits (decimal n) " " _ (all_chars-decimal n) (count-decimal n h) refl)

match_de-range :
    (low high : ℕ) (cur : String)
    → 10 ≤ low
    → 10 ≤ high
    → match_de (range_text low high cur)
      ≡ some (decimal low, decimal high, currency_de (skip_blank (" " ⧺ cur)))
unfolding match_de
match_de-range low high cur h k =
    rw
      (
        match_de,
        match_amount_dash low (decimal high ⧺ (" " ⧺ cur)) h,
        skip_dash (decimal high ⧺ (" " ⧺ cur)),
        skip_blank-digits (decimal high) (" " ⧺ cur) (all_chars-decimal high)
            (omega (arith, count-decimal high k)),
        match_amount-decimal high cur k,
      )
      refl

-- A range of two numbers of two digits or more that fit an int, printed with a dash between them and
-- one of the four codes behind them, is read back as these numbers and this code.
pub parse_salary-range_text :
    (low high : ℕ) (cur : String)
    → 10 ≤ low
    → low < 2 ^ 63
    → 10 ≤ high
    → high < 2 ^ 63
    → IsCurrency cur
    → parse_salary (range_text low high cur) ≡ (some (pos low), some (pos high), cur)
unfolding parse_salary
parse_salary-range_text low high cur l l' h h' c =
    let found =
      leftmost_here match_de (range_text low high cur) _ (match_de-range low high cur l h) in
    let filled = longer_differs (range_text low high cur) (
      omega (
        arith,
        length-append (decimal low) (" - " ⧺ (decimal high ⧺ (" " ⧺ cur))),
        count-decimal low l,
      )) in
    rw
      (
        parse_salary,
        filled,
        found,
        parse_amount-decimal low l l',
        parse_amount-decimal high h h',
        read_currency cur c,
      )
      refl
