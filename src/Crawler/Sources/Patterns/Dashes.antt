-- ===== src/Crawler/Sources/Patterns/Dashes.antt =====
-- The texts that end in a dash and digits, which internal/crawler/xing.go reads an id from.
use Prim.Native.Char.{Char, code}
use Prim.Native.String.{[], ◌∷◌}
use text.Mathlib.TextEquality.{Char-path}
use text.Mathlib.TextLemmas.{
  cons≢nil, nil-append, cons-append, tail-eq_of_cons-eq, head-eq_of_cons-eq,
}
use text.Mathlib.TextPositions.{eq_refl}
use jobcrawler.Base.{
  cons_differs, all_chars, is_digit, String, ◌≡◌, ◌⊎◌, inl, subst, inr, true, false, ◌==◌, some,
  arith, refl, sym, ap, Bool-cases, Option-cases, ==_iff, eq_iff, str_eq, ◌⧺◌,
}
use jobcrawler.Crawler.Sources.Patterns.{strip_prefix, trim_suffix, is_number, last_dash}

-- What strip_prefix leaves is the text without the prefix.
pub strip_prefix-append : (p s t : String) → strip_prefix p s ≡ some t → s ≡ p ⧺ t
unfolding strip_prefix
strip_prefix-append [] s t h = ground (arith, nil-append t)
strip_prefix-append (c ∷ p) [] t h = ground arith
strip_prefix-append (c ∷ p) (d ∷ s) t h = elim (Bool-cases (code c == code d)) [
  | inr differ ↦ absurd (ground arith)
  | inl same ↦
      let e = strip_prefix-append p s t (ground arith) in
      rw (Char-path c d ((==_iff (code c) (code d)).0 same), cons-append d p t, ← e) refl
]

pub strip_prefix_self : (p s : String) → strip_prefix p (p ⧺ s) ≡ some s
unfolding strip_prefix
strip_prefix_self [] s = ap some (nil-append s)
strip_prefix_self (c ∷ p) s =
    rw (cons-append c p s, (==_iff (code c) (code c)).1 refl) (strip_prefix_self p s)

-- The last dash of a text stays the last one behind another text.
pub last_dash-append :
    (p s body tail : String)
    → last_dash s ≡ some (body, tail)
    → last_dash (p ⧺ s) ≡ some (p ⧺ body, tail)
unfolding last_dash
last_dash-append [] s body tail h = rw (nil-append s, nil-append body) h
last_dash-append (c ∷ p) s body tail h =
    rw (cons-append c p s, cons-append c p body, last_dash, last_dash-append p s body tail h) refl

-- A character in front of a text that is not empty is not "/".
longer_than_slash : (c : Char) (s : String) → str_eq s "" ≡ false → str_eq (c ∷ s) "/" ≡ false
longer_than_slash c [] h = absurd (cc)
longer_than_slash c (d ∷ s) h = elim (Bool-cases (str_eq (c ∷ d ∷ s) "/")) [
  | inr differ ↦ differ
  | inl same ↦ absurd (cons≢nil (tail-eq_of_cons-eq ((eq_iff (c ∷ d ∷ s) "/").0 same)))
]

slash_is_no_digit : (c : Char) → is_digit (code c) ≡ true → str_eq (c ∷ []) "/" ≡ false
slash_is_no_digit c h = elim (Bool-cases (str_eq (c ∷ []) "/")) [
  | inr differ ↦ differ
  | inl same ↦
      let e = ap code (head-eq_of_cons-eq ((eq_iff (c ∷ []) "/").0 same)) in absurd (ground arith)
]

-- A text of digits has no slash to trim.
trim_suffix-digits : (s : String) → all_chars is_digit s ≡ true → trim_suffix "/" s ≡ s
unfolding trim_suffix all_chars
trim_suffix-digits [] h = refl
trim_suffix-digits (c ∷ []) h = rw (slash_is_no_digit c (ground arith)) refl
trim_suffix-digits (c ∷ d ∷ s) h =
    rw (longer_than_slash c (d ∷ s) (cons_differs d s), trim_suffix-digits (d ∷ s) (ground arith))
      refl

-- The last dash stands behind the first character, or is it.
last_dash-cons :
    (c : Char) (s body tail : String)
    → last_dash (c ∷ s) ≡ some (body, tail)
    → ((b : String) × (last_dash s ≡ some (b, tail))) ⊎ (s ≡ tail)
unfolding last_dash
last_dash-cons c s body tail h = elim (Option-cases (last_dash s)) [
  | inr ((b, t), e) ↦ inl (b, ground arith)
  | inl e ↦ inr (ground (arith, Bool-cases (code c == b'-')))
]

-- Nor has one that ends in a dash and a number.
pub trim_suffix-last_dash :
    (s body tail : String)
    → last_dash s ≡ some (body, tail)
    → is_number tail ≡ true
    → trim_suffix "/" s ≡ s
unfolding trim_suffix last_dash is_number
trim_suffix-last_dash [] body tail h k = refl
trim_suffix-last_dash (c ∷ []) body tail h k = elim (last_dash-cons c "" body tail h) [
  | inl (b, e) ↦ absurd (ground arith)
  | inr e ↦ absurd (ground (arith, eq_refl "", subst (λ t. is_number t ≡ true) (sym e) k))
]
trim_suffix-last_dash (c ∷ d ∷ s) body tail h k =
    let rest : trim_suffix "/" (d ∷ s) ≡ d ∷ s = elim (last_dash-cons c (d ∷ s) body tail h) [
      | inl (b, e) ↦ trim_suffix-last_dash (d ∷ s) b tail e k
      | inr e ↦
          trim_suffix-digits (d ∷ s)
            (subst (λ t. all_chars is_digit t ≡ true) (sym e) (ground arith))
    ] in
    rw (longer_than_slash c (d ∷ s) (cons_differs d s), rest) refl
