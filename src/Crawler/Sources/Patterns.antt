-- ===== src/Crawler/Sources/Patterns.antt =====
-- The regular expressions and the trimming of texts in internal/crawler.
pub mod Dashes
use Prim.Native.Char.{code}
use Prim.Native.String
use Prim.Native.String.{[], ◌∷◌}
use jobcrawler.Base.{
  ℕ, String, Bool, true, false, not, ◌&&◌, ◌||◌, Option, none, some, ltb, leb, ◌==◌, str_eq,
  if◌then◌else◌, all_chars, is_digit,
}

-- strings.TrimPrefix where the prefix is there.
unfoldable pub strip_prefix : String → String → Option String
strip_prefix [] s = some s
strip_prefix (c ∷ p) [] = none
strip_prefix (c ∷ p) (d ∷ s) = if code c == code d then strip_prefix p s else none

-- strings.TrimSuffix
unfoldable pub trim_suffix : String → String → String
trim_suffix suffix [] = []
trim_suffix suffix (c ∷ s) =
    let rest = trim_suffix suffix s in if str_eq (c ∷ s) suffix then [] else c ∷ rest

-- [a-z0-9-]
abbrev pub is_slug : ℕ → Bool
is_slug c = (leb b'a' c && leb c b'z') || is_digit c || c == b'-'

-- \d+
unfoldable pub is_number : String → Bool
unfolding all_chars
is_number s = not (str_eq s "") && all_chars is_digit s

-- What stands before and after the last dash.
unfoldable pub last_dash : String → Option (String × String)
last_dash [] = none
last_dash (c ∷ s) = elim (last_dash s) [
  | some (body, tail) ↦ some (c ∷ body, tail)
  | none ↦ if code c == b'-' then some ("", s) else none
]

-- [a-z0-9-]+-\d+ from end to end: the dash in front of the digits is the last one.
unfoldable pub is_numbered_slug : String → Bool
unfolding all_chars is_number last_dash
is_numbered_slug s = all_chars is_slug s && elim (last_dash s) [
  | none ↦ false
  | some (body, tail) ↦ not (str_eq body "") && is_number tail
]
