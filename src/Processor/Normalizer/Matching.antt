-- ===== src/Processor/Normalizer/Matching.antt =====
-- The pieces that the expressions of internal/processor/normalizer.go are made of.
use Prim.Native.Char.{Char, code}
use Prim.Native.String
use Prim.Native.String.{[], ◌∷◌}
use jobcrawler.Base.{ℕ, zero, suc, ◌-◌, String, Bool, ◌||◌, ◌==◌, Option, none, some, if◌then◌else◌}

-- \s
abbrev pub is_blank : ℕ → Bool
is_blank c = c == 32 || c == 9 || c == 10 || c == 12 || c == 13

-- [-–]
abbrev pub is_dash : ℕ → Bool
is_dash c = c == b'-' || c == 0x2013

-- The longest run of characters that pass, and the rest.
unfoldable pub take_run : (ℕ → Bool) → String → String × String
take_run p [] = ([], [])
take_run p (c ∷ s) =
    let (run, rest) = take_run p s in if p (code c) then (c ∷ run, rest) else ([], c ∷ s)

-- \s*
abbrev pub skip_blank : String → String
skip_blank s = (take_run is_blank s).1

-- One character that passes.
abbrev pub one_char : (ℕ → Bool) → String → Option (Char × String)
one_char p [] = none
one_char p (c ∷ s) = if p (code c) then some (c, s) else none

-- What is left after a character that passes.
abbrev pub after_char : (ℕ → Bool) → String → Option String
after_char p [] = none
after_char p (c ∷ s) = if p (code c) then some s else none

-- An optional character.
abbrev pub skip_optional : (ℕ → Bool) → String → String
skip_optional p [] = []
skip_optional p (c ∷ s) = if p (code c) then s else c ∷ s

-- The leftmost match.
unfoldable pub leftmost : {A : Type 0} → (String → Option A) → String → Option A
leftmost m [] = m []
leftmost m (c ∷ s) = let rest = leftmost m s in elim (m (c ∷ s)) [ some a ↦ some a | none ↦ rest ]

-- ReplaceAll with the empty text: the first `skip` characters belong to a match that began before, and
-- `m` gives what is left after a match, which is never empty.
unfoldable pub remove_all : (String → Option String) → ℕ → String → String
remove_all m skip [] = []
remove_all m (suc skip) (c ∷ s) = remove_all m skip s
remove_all m zero (c ∷ s) = elim (m (c ∷ s)) [
  | none ↦ c ∷ remove_all m zero s
  | some rest ↦ remove_all m (String.count s - String.count rest) s
]

-- One matcher after another.
infixl 5 ◌>>=◌
abbrev pub ◌>>=◌ : {A B : Type 0} → Option A → (A → Option B) → Option B
none >>= k = none
some a >>= k = k a
