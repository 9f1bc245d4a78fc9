-- ===== src/Crawler/Sources/Stepstone.antt =====
-- internal/crawler/stepstone.go
pub mod Fallback
use Prim.Native.Char.{code}
use Prim.Native.String.{[], ◌∷◌}
use jobcrawler.Base.{
  String, Bool, true, false, ◌&&◌, ◌==◌, Option, none, some, List, str_eq, ◌⧺◌, contains,
  trim_space, if◌then◌else◌,
}
use text.Mathlib.Text.{starts_with}
use jobcrawler.Domain.{source_stepstone}
use jobcrawler.World.Errors.{wrap, Result, ok, err}
use jobcrawler.Crawler.Registry.{RawJob, Source}
use jobcrawler.Crawler.Sources.Page.{Page, Html, or_empty, or_text}
use jobcrawler.Crawler.Sources.Patterns.{trim_suffix}
use jobcrawler.Crawler.Sources.Listing.{collect}

abbrev pub stepstone_base : String
stepstone_base = "https://www.stepstone.de"

abbrev pub absolute : String → String
absolute href = if starts_with href "/" then stepstone_base ⧺ href else href

-- A link of a job card that is kept.
unfoldable pub keep_stepstone : Option String → Option String
keep_stepstone none = none
keep_stepstone (some href) =
    if str_eq href ""
    then none
    else if contains (absolute href) "/stellenangebote--"
    then some (absolute href)
    else none

abbrev pub keep_fallback : Option String → Option String
keep_fallback href = some (absolute (or_empty href))

unfoldable pub stepstone_urls : Page → List String
unfolding collect keep_stepstone
stepstone_urls page = elim (collect keep_stepstone List.[] (page.attrs "article a[href]" "href")) [
  | List.[] ↦ collect keep_fallback List.[] (page.attrs "a[href*='/stellenangebote--']" "href")
  | List.◌∷◌ u us ↦ List.◌∷◌ u us
]

-- strings.Split(url, "--"): the last part, if there are two.
unfoldable pub last_part : String → Option String
last_part [] = none
last_part (c ∷ []) = none
last_part (c ∷ d ∷ s) = elim (code c == b'-' && code d == b'-') [
  | true ↦ elim (last_part s) [ none ↦ some s | some part ↦ some part ]
  | false ↦ last_part (d ∷ s)
]

unfoldable pub extract_stepstone_id : String → String
unfolding last_part trim_suffix
extract_stepstone_id url = elim (last_part url) [ none ↦ "" | some part ↦ trim_suffix ".html" part ]

-- The fields that the canonical link gives.
abbrev with_canonical : Option String → RawJob → RawJob
with_canonical none job = job
with_canonical (some url) job = record job { url = url; external_id = extract_stepstone_id url }

unfoldable pub stepstone_job : Page → RawJob
unfolding extract_stepstone_id
stepstone_job page = with_canonical (page.first_attr "link[rel=\"canonical\"]" "href") (record {
  title =
      or_text (trim_space (page.first_text "h1"))
        (or_empty (page.first_attr "meta[property=\"og:title\"]" "content"));
  company =
      or_text (trim_space (page.first_text "[data-at='header-company-name']"))
        (trim_space (page.first_text ".at-listing__list-icons_company-name"));
  location =
      or_text (trim_space (page.first_text "[data-at='job-ad-header-city']"))
        (trim_space (page.first_text ".at-listing__list-icons_location"));
  salary_text = trim_space (page.first_text "[data-at='salary']");
  description =
      or_text
        (trim_space
          (page.first_text ".at-section-text-description, [data-at='jobad-tasks-section']"))
        (trim_space (page.first_text "main"));
  url = "";
  external_id = "";
  published_at = or_empty (page.first_attr "meta[name=\"date\"]" "content");
})

module _ (html : Html) where
  abbrev stepstone_listed : Result Page → Result (List String)
  stepstone_listed (err e) = err (wrap "stepstone parse listing: " e)
  stepstone_listed (ok page) = ok (stepstone_urls page)

  abbrev stepstone_detailed : Result Page → Result RawJob
  stepstone_detailed (err e) = err (wrap "stepstone parse detail: " e)
  stepstone_detailed (ok page) = ok (stepstone_job (html.without page "style, script"))

  -- StepstoneCrawler
  unfoldable pub stepstone : Source
  unfolding stepstone_urls stepstone_job
  stepstone = record {
    name = source_stepstone;
    parse_listing = λ text. stepstone_listed (html.parse text);
    parse_detail = λ text. stepstone_detailed (html.parse text);
  }
