-- ===== src/Crawler/Sources/Indeed.antt =====
-- internal/crawler/indeed.go. The value of a URL's query parameter is an argument.
pub mod Placeholder
use Prim.Native.Char.{Char, code}
use Prim.Native.String
use Prim.Native.String.{[], ◌∷◌}
use jobcrawler.Base.{
  all_chars, is_digit, ℕ, suc, String, Bool, true, false, not, ◌&&◌, ◌||◌, ltb, leb, ◌==◌, Option,
  none, some, List, any, length, str_eq, ◌⧺◌, trim_space, if◌then◌else◌,
}
use jobcrawler.Domain.{source_indeed}
use jobcrawler.World.Errors.{wrap, Result, ok, err}
use jobcrawler.Crawler.Registry.{RawJob, Source}
use jobcrawler.Crawler.Sources.Page.{Page, Html, Json, JobPosting, or_empty, or_text}
use jobcrawler.Crawler.Sources.Listing.{collect}
use jobcrawler.Crawler.Sources.Posting.{
  find_posting, first_locality, format_salary, strip_html_text,
}

abbrev pub indeed_base : String
indeed_base = "https://de.indeed.com"

abbrev pub is_hex : ℕ → Bool
is_hex c = (leb b'a' c && leb c b'f') || is_digit c

-- The characters as numbers; an id that passes `is_jk` has one byte for each.
unfoldable pub codes : String → List ℕ
codes [] = List.[]
codes (c ∷ s) = List.◌∷◌ (code c) (codes s)

-- ^[a-f0-9]{8,32}$
abbrev pub is_jk : String → Bool
is_jk jk = all_chars is_hex jk && leb 8 (length (codes jk)) && leb (length (codes jk)) 32

-- The keys of the map `seen`.
unfoldable pub insert_all : List ℕ → List ℕ → List ℕ
insert_all seen List.[] = seen
insert_all seen (List.◌∷◌ c cs) =
    insert_all (if any (λ d. d == c) seen then seen else List.◌∷◌ c seen) cs

unfoldable pub is_placeholder : String → Bool
unfolding codes insert_all
is_placeholder jk =
    if not (length (codes jk) == 16) then false else length (insert_all List.[] (codes jk)) == 16

unfoldable pub keep_indeed : Option String → Option String
unfolding is_placeholder
keep_indeed none = none
keep_indeed (some attr) =
    let jk = trim_space attr in
    if not (is_jk jk)
    then none
    else if is_placeholder jk
    then none
    else some (indeed_base ⧺ ("/viewjob?jk=" ⧺ jk))

unfoldable pub indeed_urls : Page → List String
unfolding collect keep_indeed
indeed_urls page = collect keep_indeed List.[] (page.attrs "[data-jk]" "data-jk")

module _ (query_value : String → String → Result String) where
  abbrev value_or_empty : Result String → String
  value_or_empty (ok v) = v
  value_or_empty (err e) = ""

  unfoldable pub extract_indeed_jk : String → String
  extract_indeed_jk raw_url =
      if str_eq raw_url "" then "" else value_or_empty (query_value raw_url "jk")

  module _ (html : Html) (json : Json) where
    unfoldable pub from_indeed_posting : Option JobPosting → RawJob
    from_indeed_posting none = record {
      title = "";
      company = "";
      location = "";
      salary_text = "";
      description = "";
      url = "";
      external_id = "";
      published_at = "";
    }
    from_indeed_posting (some jp) = record {
      title = trim_space jp.title;
      company = trim_space (or_empty jp.hiring_organization);
      location = first_locality json jp.job_location;
      salary_text = format_salary jp.base_salary;
      description = strip_html_text html jp.description;
      url = "";
      external_id = "";
      published_at = jp.date_posted;
    }

    unfoldable pub fill_indeed : Page → RawJob → RawJob
    fill_indeed page job = record job {
      title =
          or_text
            (or_text
              (or_text job.title
                (trim_space (page.first_text "[data-testid=\"jobsearch-JobInfoHeader-title\"]")))
              (trim_space (page.first_text "h1")))
            (or_empty (page.first_attr "meta[property=\"og:title\"]" "content"));
      company =
          or_text job.company
            (trim_space (page.first_text "[data-testid=\"inlineHeader-companyName\"]"));
      location =
          or_text
            (or_text job.location
              (trim_space (page.first_text "[data-testid=\"inlineHeader-companyLocation\"]")))
            (trim_space
              (page.first_text "[data-testid=\"jobsearch-JobInfoHeader-companyLocation\"]"));
    }

    -- The canonical link, or the one for Open Graph.
    abbrev canonical : Page → String
    canonical page =
        or_text (or_empty (page.first_attr "link[rel=\"canonical\"]" "href"))
          (or_empty (page.first_attr "meta[property=\"og:url\"]" "content"))

    unfoldable pub indeed_job : Page → RawJob
    unfolding from_indeed_posting fill_indeed find_posting extract_indeed_jk
    indeed_job page =
        record (fill_indeed page (
          from_indeed_posting
            (find_posting json (page.texts "script[type=\"application/ld+json\"]")))) {
              url = canonical page;
              external_id = extract_indeed_jk (canonical page);
            }

    abbrev indeed_listed : Result Page → Result (List String)
    indeed_listed (err e) = err (wrap "indeed parse listing: " e)
    indeed_listed (ok page) = ok (indeed_urls page)

    abbrev indeed_detailed : Result Page → Result RawJob
    indeed_detailed (err e) = err (wrap "indeed parse detail: " e)
    indeed_detailed (ok page) = ok (indeed_job page)

    -- IndeedCrawler
    unfoldable pub indeed : Source
    unfolding indeed_urls indeed_job
    indeed = record {
      name = source_indeed;
      parse_listing = λ text. indeed_listed (html.parse text);
      parse_detail = λ text. indeed_detailed (html.parse text);
    }
