-- ===== src/Tests/Parsing.antt =====
-- The theorems of the source parsers and of the normaliser at sample pages and texts.
use jobcrawler.Base.{
  ℕ, pos, ◌^◌, ◌≤◌, ◌<◌, String, ◌≡◌, Option, none, some, List, [], ◌∷◌, arith, refl, str_eq,
  if◌then◌else◌,
}
use jobcrawler.Crawler.Sources.Page.{Page}
use jobcrawler.Crawler.Sources.Xing.{xing_urls}
use jobcrawler.Crawler.Sources.Indeed.{indeed_urls}
use jobcrawler.Processor.Normalizer.Salary.{parse_salary}
use jobcrawler.Processor.Normalizer.Salary.Currency.{IsSalary, parse_salary-IsSalary, eur}
use jobcrawler.Processor.Normalizer.Salary.Ranges.{range_text, parse_salary-range_text}

-- A page whose elements have one attribute each.
abbrev page_of : List (Option String) → Page
page_of links = record {
  first_text = λ s. "";
  first_attr = λ s a. none;
  attrs = λ s a. links;
  texts = λ s. [];
  text = "";
}

abbrev xing_page : Page
xing_page = page_of (
    some "/jobs/berlin-go-developer-152619439"
    ∷ some "/jobs/search"
    ∷ some "https://www.xing.com/jobs/berlin-go-developer-152619439"
    ∷ none
    ∷ [])

xing_urls_example :
    xing_urls xing_page ≡ "https://www.xing.com/jobs/berlin-go-developer-152619439" ∷ []
unfolding xing_urls jobcrawler.Crawler.Sources.Patterns.strip_prefix
    jobcrawler.Crawler.Sources.Patterns.is_numbered_slug
xing_urls_example = refl

abbrev indeed_page : Page
indeed_page = page_of (some " daf248c83b67f9bd " ∷ some "789abcdef0123456" ∷ some "xyz" ∷ none ∷ [])

indeed_urls_example :
    indeed_urls indeed_page ≡ "https://de.indeed.com/viewjob?jk=daf248c83b67f9bd" ∷ []
unfolding indeed_urls jobcrawler.Base.all_chars jobcrawler.Base.trim_space
indeed_urls_example = refl

abbrev stepstone_page : Page
stepstone_page = page_of (some "/stellenangebote--go--12.html" ∷ some "/login" ∷ [])

short_example : parse_salary "€60000 - €80000" ≡ (some (pos 60000000), some (pos 80000000), "EUR")
unfolding parse_salary jobcrawler.Base.Words.wrap64 jobcrawler.Base.trim_space
short_example = refl

up_to_example : parse_salary "Up to 90.000 usd" ≡ (none, some (pos 90000), "EUR")
unfolding parse_salary jobcrawler.Base.trim_space
up_to_example = refl

parse_salary-IsSalary_example : IsSalary (parse_salary "bis 60.000 – 80.000 € pro Jahr")
parse_salary-IsSalary_example = parse_salary-IsSalary "bis 60.000 – 80.000 € pro Jahr"

parse_salary-range_text_example :
    parse_salary (range_text 60000 80000 "EUR") ≡ (some (pos 60000), some (pos 80000), "EUR")
parse_salary-range_text_example =
    parse_salary-range_text 60000 80000 "EUR" (omega arith) (omega arith) (omega arith)
      (omega arith) eur
