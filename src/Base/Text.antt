-- ===== src/Base/Text.antt =====
-- What the source uses of Go's `strings` and `strconv`, over native texts: a text is its sequence
-- of code points, which is how Go reads a string that is valid UTF-8.
pub mod Digits
use Prim.Native.Nat.{ℕ, zero, suc, ◌+◌, ◌-◌, ◌*◌, ◌/◌, ◌%◌}
use Prim.Native.Char.{Char, code}
use Prim.Native.String
use Prim.Native.String.{String, [], ◌∷◌}
use mathlib.Core.Path.{◌≡◌, ap}
use mathlib.Core.Logic.{inl, inr}
use native.Mathlib.Omega.{arith}
use text.Mathlib.TextEquality.{eq_iff}
use text.Mathlib.TextLemmas.{length-nil, length-cons, cons≢nil}
use mathlib.Core.Bool.{Bool, true, false, ◌&&◌, ◌||◌}
use mathlib.Core.List.{List}
use text.Mathlib.Text.{◌==◌ as str_eq}
use jobcrawler.Base.Tests.{Bool-cases, leb, ◌==◌, if◌then◌else◌}

-- Concatenation of two strings.
infixr 66 ◌⧺◌
abbrev pub ◌⧺◌ : String → String → String
s ⧺ t = String.◌++◌ s t

-- strings.Contains
abbrev pub contains : String → String → Bool
contains [] sub = str_eq sub ""
contains (c ∷ s) sub =
    let rest = contains s sub in text.Mathlib.Text.starts_with (c ∷ s) sub || rest

-- unicode.IsSpace
unfoldable pub is_space : ℕ → Bool
is_space c =
    (leb 9 c && leb c 13)
    || c == 32
    || c == 0x85
    || c == 0xA0
    || c == 0x1680
    || (leb 0x2000 c && leb c 0x200a)
    || c == 0x2028
    || c == 0x2029
    || c == 0x202f
    || c == 0x205f
    || c == 0x3000

-- strings.TrimLeftFunc
unfoldable pub trim_left : (ℕ → Bool) → String → String
trim_left p [] = []
trim_left p (c ∷ s) = if p (code c) then trim_left p s else c ∷ s

-- strings.TrimRightFunc
unfoldable pub trim_right : (ℕ → Bool) → String → String
trim_right p [] = []
trim_right p (c ∷ s) =
    let rest = trim_right p s in if p (code c) && str_eq rest "" then [] else c ∷ rest

-- strings.TrimSpace
unfoldable pub trim_space : String → String
unfolding is_space trim_left trim_right
trim_space s = trim_right is_space (trim_left is_space s)

unfoldable pub all_chars : (ℕ → Bool) → String → Bool
all_chars p [] = true
all_chars p (c ∷ s) = p (code c) && all_chars p s

abbrev pub is_digit : ℕ → Bool
is_digit c = leb b'0' c && leb c b'9'

-- strings.Join
unfoldable pub join : String → List String → String
join sep List.[] = ""
join sep (List.◌∷◌ s List.[]) = s
join sep (List.◌∷◌ s (List.◌∷◌ t ts)) = s ⧺ (sep ⧺ join sep (List.◌∷◌ t ts))

-- strings.Split by one character: the parts between the separators, at least one.
unfoldable pub split_from : ℕ → String → String → List String
split_from sep part [] = List.◌∷◌ part List.[]
split_from sep part (c ∷ s) =
    let closed = List.◌∷◌ part (split_from sep "" s) in
    let longer = split_from sep (part ⧺ (c ∷ [])) s in if code c == sep then closed else longer

unfoldable pub split : String → ℕ → List String
unfolding split_from
split s sep = split_from sep "" s

digit_text : ℕ → String
digit_text d =
    if d == 0
    then "0"
    else if d == 1
    then "1"
    else if d == 2
    then "2"
    else if d == 3
    then "3"
    else if d == 4
    then "4"
    else if d == 5
    then "5"
    else if d == 6
    then "6"
    else if d == 7
    then "7"
    else if d == 8
    then "8"
    else "9"

-- The digits of `n` in front of `done`; the fuel `n` is enough, since each round divides by ten.
decimal_from : ℕ → ℕ → String → String
decimal_from zero n done = digit_text (n % 10) ⧺ done
decimal_from (suc fuel) n done =
    let longer = decimal_from fuel (n / 10) (digit_text (n % 10) ⧺ done) in
    if n / 10 == 0 then digit_text (n % 10) ⧺ done else longer

-- strconv.Itoa and %d of a number that is not negative.
unfoldable pub decimal : ℕ → String
unfolding digit_text decimal_from
decimal n = decimal_from n n ""

-- The number that is written with `n` and the digits behind it.
unfoldable pub digits_from : ℕ → String → ℕ
digits_from n [] = n
digits_from n (c ∷ s) = digits_from (n * 10 + (code c - b'0')) s

-- %q, of a text that needs no escapes.
unfoldable pub quote : String → String
quote s = "\"" ⧺ (s ⧺ "\"")

-- strings.Map over the characters, one for one.
unfoldable pub map_chars : (Char → Char) → String → String
map_chars f [] = []
map_chars f (c ∷ s) = f c ∷ map_chars f s

-- A text that is not empty stays so.
pub str_eq-map_chars :
    (f : Char → Char) (s : String) → str_eq s "" ≡ false → str_eq (map_chars f s) "" ≡ false
unfolding map_chars
str_eq-map_chars f [] h = absurd (cc)
str_eq-map_chars f (c ∷ s) h = elim (Bool-cases (str_eq (f c ∷ map_chars f s) "")) [
  | inl same ↦ absurd (
      omega (
        arith,
        length-nil,
        length-cons (f c) (map_chars f s),
        ap String.count ((eq_iff (f c ∷ map_chars f s) "").0 same),
      ))
  | inr differ ↦ differ
]

pub cons_differs : (c : Char) (s : String) → str_eq (c ∷ s) "" ≡ false
cons_differs c s = elim (Bool-cases (str_eq (c ∷ s) "")) [
  | inr differ ↦ differ
  | inl same ↦ absurd (cons≢nil ((eq_iff (c ∷ s) "").0 same))
]

pub longer_differs : (s : String) → Prim.Native.Nat.◌≤◌ 1 (String.count s) → str_eq s "" ≡ false
longer_differs [] h = absurd (omega (arith, length-nil))
longer_differs (c ∷ s) h = cons_differs c s
