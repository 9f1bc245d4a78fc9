-- ===== src/Processor/Normalizer/Locations.antt =====
-- NormalizeLocation and DetectRemote of internal/processor/normalizer.go.
pub mod Detected
use Prim.Native.Char.{Char, code}
use Prim.Native.String
use Prim.Native.String.{[], ◌∷◌}
use text.Mathlib.Text.{starts_with}
use jobcrawler.Base.{
  ℕ, zero, String, Bool, true, false, not, ◌||◌, ◌==◌, Option, none, some, List, any, contains,
  map_chars, trim_space, if◌then◌else◌,
}
use jobcrawler.Domain.{RemoteType, remote_full, remote_partial, remote_none}
use jobcrawler.Processor.Normalizer.Matching.{take_run, skip_blank, after_char, remove_all, ◌>>=◌}

-- \s*\([^)]*\)
unfoldable pub match_parens : String → Option String
unfolding take_run
match_parens s = do
  inner ← after_char (λ c. c == b'(') (skip_blank s)
  after_char (λ c. c == b')') (take_run (λ c. not (c == b')')) inner).1

-- The first of the two parts that [,/] cuts the text in.
abbrev pub first_part : String → String
first_part s = (take_run (λ c. not (c == b',' || c == b'/')) s).0

abbrev pub remote_full_keywords : List String
remote_full_keywords = List.◌∷◌ "fully remote" (
    List.◌∷◌ "100% remote" (
      List.◌∷◌ "vollständig remote" (
        List.◌∷◌ "remote only" (
          List.◌∷◌ "anywhere"
            (List.◌∷◌ "work from anywhere" (List.◌∷◌ "distributed team" List.[]))))))

abbrev pub remote_partial_keywords : List String
remote_partial_keywords = List.◌∷◌ "hybrid" (
    List.◌∷◌ "home office" (
      List.◌∷◌ "homeoffice" (
        List.◌∷◌ "teilweise remote" (
          List.◌∷◌ "remote möglich" (
            List.◌∷◌ "remote possible" (
              List.◌∷◌ "partially remote" (
                List.◌∷◌ "flexible working"
                  (List.◌∷◌ "work from home" (List.◌∷◌ "wfh" List.[])))))))))

module _ (lower : Char → Char) where
  unfoldable pub normalize_location : String → String
  unfolding take_run match_parens remove_all
  normalize_location raw =
      let loc = remove_all match_parens zero (trim_space raw) in
      if starts_with (map_chars lower loc) "remote" then "Remote" else trim_space (first_part loc)

  unfoldable pub detect_remote : String → RemoteType
  detect_remote description =
      let text = map_chars lower description in
      if any (contains text) remote_full_keywords
      then remote_full
      else if any (contains text) remote_partial_keywords
      then remote_partial
      else remote_none
