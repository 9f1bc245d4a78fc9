-- ===== src/Base/Text/Digits.antt =====
-- The decimal digits that %d prints, read back.
use Prim.Native.Nat.{ℕ, zero, suc, ◌+◌, ◌*◌, ◌-◌, ◌/◌, ◌%◌, ◌<◌, ◌≤◌}
use Prim.Native.Char.{Char, code}
use Prim.Native.String
use Prim.Native.String.{String, [], ◌∷◌}
use mathlib.Core.Path.{◌≡◌, refl, ap, ◌∙◌}
use mathlib.Core.Logic.{inl, inr}
use mathlib.Core.Bool.{true}
use native.Mathlib.Omega.{arith}
use text.Mathlib.TextLemmas.{cons-append, nil-append, length-append, length-cons, length-nil}
use jobcrawler.Base.Tests.{Bool-cases, ==_iff, ◌==◌}
use jobcrawler.Base.Text.{◌⧺◌, digit_text, decimal_from, decimal, digits_from, all_chars, is_digit}

-- A digit, in the table and as a character.
record Digit (d : ℕ) : Type 0 where
  char : Char
  printed : digit_text d ≡ char ∷ []
  valued : code char ≡ 48 + d

digit : (d : ℕ) → d < 10 → Digit d
unfolding digit_text
digit zero h = record { char = "0"; printed = refl; valued = refl }
digit (suc zero) h = record { char = "1"; printed = refl; valued = refl }
digit (suc (suc zero)) h = record { char = "2"; printed = refl; valued = refl }
digit (suc (suc (suc zero))) h = record { char = "3"; printed = refl; valued = refl }
digit (suc (suc (suc (suc zero)))) h = record { char = "4"; printed = refl; valued = refl }
digit (suc (suc (suc (suc (suc zero))))) h = record { char = "5"; printed = refl; valued = refl }
digit (suc (suc (suc (suc (suc (suc zero)))))) h = record {
  char = "6";
  printed = refl;
  valued = refl;
}
digit (suc (suc (suc (suc (suc (suc (suc zero))))))) h = record {
  char = "7";
  printed = refl;
  valued = refl;
}
digit (suc (suc (suc (suc (suc (suc (suc (suc zero)))))))) h = record {
  char = "8";
  printed = refl;
  valued = refl;
}
digit (suc (suc (suc (suc (suc (suc (suc (suc (suc zero))))))))) h = record {
  char = "9";
  printed = refl;
  valued = refl;
}
digit (suc (suc (suc (suc (suc (suc (suc (suc (suc (suc n)))))))))) h = absurd (omega arith)

digits_from-digit_text :
    (m d : ℕ) (done : String)
    → d < 10
    → digits_from m (digit_text d ⧺ done) ≡ digits_from (m * 10 + d) done
unfolding digits_from
digits_from-digit_text m d done h =
    let g = digit d h in
    let minus : 48 + d - 48 ≡ d = omega arith in
    rw (g.printed, cons-append g.char "" done, nil-append done, digits_from, g.valued, minus) refl

-- The digits in front of `done` stand for the number.
digits_from-decimal_from :
    (fuel n : ℕ) (done : String)
    → n ≤ fuel
    → digits_from 0 (decimal_from fuel n done) ≡ digits_from n done
unfolding decimal_from
digits_from-decimal_from zero n done h =
    let last : 0 * 10 + n % 10 ≡ n = omega arith in
    digits_from-digit_text 0 (n % 10) done (omega arith) ∙ ap (λ k. digits_from k done) last
digits_from-decimal_from (suc fuel) n done h = elim (Bool-cases (n / 10 == 0)) [
  | inl small ↦
      let zero_div = (==_iff (n / 10) 0).0 small in
      let last : 0 * 10 + n % 10 ≡ n = omega arith in
      rw small
        (digits_from-digit_text 0 (n % 10) done (omega arith) ∙ ap (λ k. digits_from k done) last)
  | inr large ↦
      let whole : n / 10 * 10 + n % 10 ≡ n = omega arith in
      rw large (
        digits_from-decimal_from fuel (n / 10) (digit_text (n % 10) ⧺ done) (ground arith)
        ∙ (digits_from-digit_text (n / 10) (n % 10) done (omega arith)
            ∙ ap (λ k. digits_from k done) whole))
]

pub digits_from-decimal : (n : ℕ) → digits_from 0 (decimal n) ≡ n
unfolding decimal digits_from
digits_from-decimal n = digits_from-decimal_from n n "" (omega arith)

all_chars-digit_text :
    (d : ℕ) (done : String)
    → d < 10
    → all_chars is_digit done ≡ true
    → all_chars is_digit (digit_text d ⧺ done) ≡ true
unfolding all_chars
all_chars-digit_text d done h k =
    let g = digit d h in
    let passes : is_digit (code g.char) ≡ true = rw g.valued (ground (arith)) in
    rw (g.printed, cons-append g.char "" done, nil-append done, all_chars, passes, k) refl

all_chars-decimal_from :
    (fuel n : ℕ) (done : String)
    → all_chars is_digit done ≡ true
    → all_chars is_digit (decimal_from fuel n done) ≡ true
unfolding decimal_from
all_chars-decimal_from zero n done k = all_chars-digit_text (n % 10) done (omega arith) k
all_chars-decimal_from (suc fuel) n done k = elim (Bool-cases (n / 10 == 0)) [
  | inl small ↦ rw small (all_chars-digit_text (n % 10) done (omega arith) k)
  | inr large ↦ rw large (
      all_chars-decimal_from fuel (n / 10) (digit_text (n % 10) ⧺ done)
        (all_chars-digit_text (n % 10) done (omega arith) k))
]

pub all_chars-decimal : (n : ℕ) → all_chars is_digit (decimal n) ≡ true
unfolding decimal all_chars
all_chars-decimal n = all_chars-decimal_from n n "" refl

count-digit_text : (d : ℕ) → d < 10 → String.count (digit_text d) ≡ 1
count-digit_text d h =
    let g = digit d h in rw g.printed (omega (arith, length-cons g.char "", length-nil))

count-decimal_from :
    (fuel n : ℕ) (done : String)
    → n ≤ fuel
    → 1 ≤ n
    → 1 + String.count done ≤ String.count (decimal_from fuel n done)
unfolding decimal_from
count-decimal_from zero n done h k = omega arith
count-decimal_from (suc fuel) n done h k = elim (Bool-cases (n / 10 == 0)) [
  | inl small ↦ rw small (
      omega
        (arith, length-append (digit_text (n % 10)) done, count-digit_text (n % 10) (omega arith)))
  | inr large ↦ rw large (
      omega (
        arith,
        length-append (digit_text (n % 10)) done,
        count-decimal_from fuel (n / 10) (digit_text (n % 10) ⧺ done) (ground arith) (ground arith),
      ))
]

-- A number of two digits or more prints at least two characters.
pub count-decimal : (n : ℕ) → 10 ≤ n → 2 ≤ String.count (decimal n)
unfolding decimal decimal_from
count-decimal zero h = absurd (omega arith)
count-decimal (suc n) h = elim (Bool-cases (suc n / 10 == 0)) [
  | inl small ↦ absurd (ground arith)
  | inr large ↦
      rw (large, decimal_from)
        (omega (
          arith,
          length-append (digit_text (suc n % 10)) "",
          count-digit_text (suc n % 10) (omega arith),
          count-decimal_from n (suc n / 10) (digit_text (suc n % 10) ⧺ "") (omega arith)
              (omega arith),
        ))
]
