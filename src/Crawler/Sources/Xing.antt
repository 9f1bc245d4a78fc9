-- ===== src/Crawler/Sources/Xing.antt =====
-- internal/crawler/xing.go
pub mod Identified
use jobcrawler.Base.{
  String, Bool, Option, none, some, List, [], ◌∷◌, str_eq, ◌⧺◌, trim_space, if◌then◌else◌,
}
use jobcrawler.Domain.{source_xing}
use jobcrawler.World.Errors.{wrap, Result, ok, err}
use jobcrawler.Crawler.Registry.{RawJob, Source}
use jobcrawler.Crawler.Sources.Page.{Page, Html, Json, JobPosting, or_empty, or_text}
use jobcrawler.Crawler.Sources.Patterns.{
  strip_prefix, trim_suffix, is_number, last_dash, is_numbered_slug,
}
use jobcrawler.Crawler.Sources.Listing.{collect}
use jobcrawler.Crawler.Sources.Posting.{
  find_posting, first_locality, format_salary, strip_html_text,
}

abbrev pub xing_base : String
xing_base = "https://www.xing.com"

abbrev pub path_of : String → String
path_of href = elim (strip_prefix xing_base href) [ some path ↦ path | none ↦ href ]

-- ^/jobs/[a-z0-9-]+-\d+$
abbrev pub is_detail_path : String → Bool
is_detail_path path = elim (strip_prefix "/jobs/" path) [
  | some slug ↦ is_numbered_slug slug
  | none ↦ Bool.false
]

unfoldable pub keep_xing : Option String → Option String
keep_xing none = none
keep_xing (some href) =
    if str_eq href ""
    then none
    else if is_detail_path (path_of href)
    then some (xing_base ⧺ path_of href)
    else none

unfoldable pub xing_urls : Page → List String
unfolding collect keep_xing
xing_urls page = collect keep_xing [] (page.attrs "a[href]" "href")

-- The digits after the last dash, if these end the URL.
abbrev number_after : Option (String × String) → String
number_after none = ""
number_after (some (_, tail)) = if is_number tail then tail else ""

unfoldable pub extract_xing_id : String → String
extract_xing_id raw_url = number_after (last_dash (trim_suffix "/" raw_url))

abbrev with_canonical : Option String → RawJob → RawJob
with_canonical none job = job
with_canonical (some url) job = record job { url = url; external_id = extract_xing_id url }

module _ (html : Html) (json : Json) where
  -- What the posting gives, and "" for every field without one.
  unfoldable pub from_xing_posting : Option JobPosting → RawJob
  from_xing_posting none = record {
    title = "";
    company = "";
    location = "";
    salary_text = "";
    description = "";
    url = "";
    external_id = "";
    published_at = "";
  }
  from_xing_posting (some jp) = record {
    title = trim_space jp.title;
    company = trim_space (or_empty jp.hiring_organization);
    location = first_locality json jp.job_location;
    salary_text = format_salary jp.base_salary;
    description = strip_html_text html jp.description;
    url = "";
    external_id = "";
    published_at = jp.date_posted;
  }

  -- The fallbacks, each for a field that is still empty.
  unfoldable pub fill_xing : Page → RawJob → RawJob
  fill_xing page job = record job {
    title =
        or_text
          (or_text
            (or_text job.title (trim_space (page.first_text "[data-testid=\"job-details-title\"]")))
            (trim_space (page.first_text "h1")))
          (or_empty (page.first_attr "meta[property=\"og:title\"]" "content"));
    company =
        or_text job.company
          (trim_space (page.first_text "[data-testid=\"job-details-company-info-name\"]"));
    location =
        or_text job.location
          (trim_space (page.first_text "[data-testid=\"company-card-location\"]"));
    salary_text =
        or_text job.salary_text
          (trim_space (page.first_text "[data-testid=\"job-details-salary-card\"]"));
    description =
        or_text job.description
          (trim_space (page.first_text "[data-testid=\"expandable-content\"]"));
    published_at =
        or_text job.published_at (or_empty (page.first_attr "meta[name=\"date\"]" "content"));
  }

  unfoldable pub xing_job : Page → RawJob
  unfolding from_xing_posting fill_xing find_posting extract_xing_id
  xing_job page = with_canonical (page.first_attr "link[rel=\"canonical\"]" "href") (
      fill_xing page
        (from_xing_posting (find_posting json (page.texts "script[type=\"application/ld+json\"]"))))

  abbrev xing_listed : Result Page → Result (List String)
  xing_listed (err e) = err (wrap "xing parse listing: " e)
  xing_listed (ok page) = ok (xing_urls page)

  abbrev xing_detailed : Result Page → Result RawJob
  xing_detailed (err e) = err (wrap "xing parse detail: " e)
  xing_detailed (ok page) = ok (xing_job page)

  -- XingCrawler
  unfoldable pub xing : Source
  unfolding xing_urls xing_job
  xing = record {
    name = source_xing;
    parse_listing = λ text. xing_listed (html.parse text);
    parse_detail = λ text. xing_detailed (html.parse text);
  }
