-- ===== src/Processor/Normalizer/Titles.antt =====
-- NormalizeTitle and titleCase of internal/processor/normalizer.go.
pub mod Cleaned
use Prim.Native.Char.{Char, code}
use Prim.Native.String
use Prim.Native.String.{[], ◌∷◌}
use jobcrawler.Base.{
  all_chars, is_digit, ℕ, zero, String, Bool, true, false, not, ◌&&◌, ◌||◌, leb, ◌==◌, Option, none,
  some, List, map, str_eq, join, is_space, trim_space, ◌⧺◌, if◌then◌else◌,
}
use jobcrawler.Processor.Normalizer.Matching.{
  is_blank, is_dash, take_run, skip_blank, after_char, skip_optional, remove_all, ◌>>=◌,
}

-- [\w\s]
abbrev pub is_word_or_blank : ℕ → Bool
is_word_or_blank c =
    is_digit c
    || (leb b'A' c && leb c b'Z')
    || (leb b'a' c && leb c b'z')
    || c == b'_'
    || is_blank c

-- \s*[-–|]\s*(Remote|Hybrid|[\w\s]+)$ at the first character: the two words and the blanks in front
-- of them are cases of [\w\s]+.
abbrev pub is_noise_tail : Option String → Bool
is_noise_tail none = false
is_noise_tail (some rest) = not (str_eq rest "") && all_chars is_word_or_blank rest

abbrev pub is_noise : String → Bool
is_noise s = is_noise_tail (after_char (λ c. is_dash c || c == b'|') (skip_blank s))

-- The match reaches the end, so that what stands before it is kept.
unfoldable pub remove_noise : String → String
unfolding take_run all_chars
remove_noise [] = []
remove_noise (c ∷ s) = let rest = remove_noise s in if is_noise (c ∷ s) then [] else c ∷ rest

abbrev pub is_wfd : ℕ → Bool
is_wfd c = c == b'w' || c == b'f' || c == b'd'

-- \s*\(m\s*/\s*[wfd]\s*/?\s*[d]?\)
unfoldable pub match_gender : String → Option String
unfolding take_run
match_gender s = do
  s1 ← after_char (λ c. c == b'(') (skip_blank s)
  s2 ← after_char (λ c. c == b'm') s1
  s3 ← after_char (λ c. c == b'/') (skip_blank s2)
  s4 ← after_char is_wfd (skip_blank s3)
  let s5 = skip_optional (λ c. c == b'/') (skip_blank s4)
  let s6 = skip_optional (λ c. c == b'd') (skip_blank s5)
  after_char (λ c. c == b')') s6

-- strings.Fields, with the word that is being read.
unfoldable pub fields_from : String → String → List String
fields_from word [] = if str_eq word "" then List.[] else List.◌∷◌ word List.[]
fields_from word (c ∷ s) =
    let ended = fields_from "" s in
    let longer = fields_from (word ⧺ (c ∷ [])) s in
    if is_space (code c) then (if str_eq word "" then ended else List.◌∷◌ word ended) else longer

module _ (upper : Char → Char) where
  abbrev pub capital : String → String
  capital [] = []
  capital (c ∷ s) = upper c ∷ s

  unfoldable pub title_case : String → String
  unfolding fields_from
  title_case s = join " " (map capital (fields_from "" s))

  unfoldable pub normalize_title : String → String
  unfolding remove_noise match_gender remove_all title_case
  normalize_title raw =
      title_case (trim_space (remove_all match_gender zero (remove_noise (trim_space raw))))
