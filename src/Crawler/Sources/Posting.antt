-- ===== src/Crawler/Sources/Posting.antt =====
-- The JSON-LD block of a detail page, which xing.go and indeed.go of internal/crawler read alike.
use jobcrawler.Base.{
  String, Bool, Option, none, some, List, [], ◌∷◌, str_eq, ◌⧺◌, trim_space, if◌then◌else◌,
}
use jobcrawler.World.Errors.{Result, ok, err}
use jobcrawler.Crawler.Sources.Page.{Page, Html, Json, JobPosting}

abbrev pub is_posting : JobPosting → Bool
is_posting jp = str_eq jp.type "JobPosting"

unfoldable pub first_posting : List JobPosting → Option JobPosting
first_posting [] = none
first_posting (jp ∷ jps) = if is_posting jp then some jp else first_posting jps

-- One block, trimmed: a posting, or the first one of an array.
unfoldable pub posting_of_array : Result (List JobPosting) → Option JobPosting
unfolding first_posting
posting_of_array (ok jps) = first_posting jps
posting_of_array (err e) = none

unfoldable pub posting_of_block : Result JobPosting → Result (List JobPosting) → Option JobPosting
unfolding posting_of_array
posting_of_block (ok jp) array = if is_posting jp then some jp else posting_of_array array
posting_of_block (err e) array = posting_of_array array

module _ (json : Json) where
  -- The loop over the blocks stops at the first posting.
  unfoldable pub find_posting : List String → Option JobPosting
  unfolding posting_of_block
  find_posting [] = none
  find_posting (block ∷ blocks) =
      let raw = trim_space block in
      let rest = find_posting blocks in
      if str_eq raw ""
      then rest
      else elim (posting_of_block (json.posting raw) (json.postings raw)) [
        | some jp ↦ some jp
        | none ↦ rest
      ]

  -- The first locality that is not blank.
  unfoldable pub first_place : List (Option String) → String
  first_place [] = ""
  first_place (none ∷ ls) = first_place ls
  first_place (some l ∷ ls) =
      let rest = first_place ls in if str_eq (trim_space l) "" then rest else trim_space l

  abbrev many_places : Result (List (Option String)) → String
  many_places (ok ls) = first_place ls
  many_places (err e) = ""

  abbrev single_or : Result (Option String) → String → String
  single_or (ok (some l)) many = if str_eq (trim_space l) "" then many else trim_space l
  single_or (ok none) many = many
  single_or (err e) many = many

  unfoldable pub first_locality : String → String
  unfolding first_place
  first_locality raw =
      if str_eq raw "" then "" else single_or (json.place raw) (many_places (json.places raw))

unfoldable pub format_salary : Option (String × String) → String
format_salary none = ""
format_salary (some (currency, value)) =
    if str_eq value "" then "" else trim_space (currency ⧺ (" " ⧺ value))

abbrev plain : String → Result Page → String
plain s (err e) = s
plain s (ok page) = trim_space page.text

unfoldable pub strip_html_text : Html → String → String
strip_html_text html fragment =
    let s = trim_space fragment in if str_eq s "" then "" else plain s (html.parse s)
