-- ===== src/Processor/Dedup.antt =====
-- internal/processor/dedup.go. The SHA-256 digest in hex and Unicode's lower case of a character are
-- parameters.
pub mod Window
use Prim.Native.Char.{Char, code}
use Prim.Native.String.{[], ◌∷◌}
use jobcrawler.Base.{
  ℕ, ◌*◌, String, Bool, false, not, Option, none, some, ◌||◌, ◌==◌, ◌⧺◌, trim_space, map_chars,
  if◌then◌else◌,
}
use jobcrawler.World.Errors.{Err, Result, ok, err}
use jobcrawler.World.{Env, Io, set_nx, perform}

-- `\s` of the regexp package.
abbrev pub is_regexp_space : ℕ → Bool
is_regexp_space c = c == 9 || c == 10 || c == 12 || c == 13 || c == 32

-- multiSpace.ReplaceAllString(s, " "); the flag says that the last character was in a run of spaces.
collapse : Bool → String → String
collapse in_run [] = []
collapse in_run (c ∷ s) =
    let space = is_regexp_space (code c) in
    let rest = collapse space s in if space then (if in_run then rest else " " ⧺ rest) else c ∷ rest

abbrev pub duplicate_answer : Result Bool → Bool × Option Err
duplicate_answer (err e) = (false, some e)
duplicate_answer (ok set) = (not set, none)

module _ (sha256_hex : String → String) (lower : Char → Char) where
  unfoldable pub normalise_field : String → String
  unfolding collapse
  normalise_field s = collapse false (map_chars lower (trim_space s))

  -- Fingerprint
  unfoldable pub fingerprint : String → String → String → String
  fingerprint title company location =
      sha256_hex (
        normalise_field title
        ⧺ ("|" ⧺ (normalise_field company ⧺ ("|" ⧺ normalise_field location))))

  abbrev pub url_key : String → String
  url_key raw_url = "dedup:url:" ⧺ sha256_hex raw_url

  -- IsDuplicate
  unfoldable pub is_duplicate : Env → String → String → String → Io (Bool × Option Err)
  is_duplicate env title company location tr =
      let key = "dedup:job:" ⧺ fingerprint title company location in
      let (r, tr') =
        perform (set_nx key (7 * 24 * 3600000)) (λ t. env.set_nx_answer t key (7 * 24 * 3600000))
          tr in
      (duplicate_answer r, tr')

  -- IsURLCrawled
  unfoldable pub is_url_crawled : Env → String → Io (Bool × Option Err)
  is_url_crawled env raw_url tr =
      let (r, tr') =
        perform (set_nx (url_key raw_url) (24 * 3600000))
          (λ t. env.set_nx_answer t (url_key raw_url) (24 * 3600000)) tr in
      (duplicate_answer r, tr')
