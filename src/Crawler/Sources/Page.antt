-- ===== src/Crawler/Sources/Page.antt =====
-- What internal/crawler uses of goquery and of encoding/json.
use jobcrawler.Base.{String, Option, none, some, List, str_eq, if◌then◌else◌}
use jobcrawler.World.Errors.{Result}

-- A document. `first_text s` is Find(s).First().Text(), `first_attr s a` is Find(s).Attr(a),
-- `attrs s a` and `texts s` are what Each sees of Attr(a) and Text(), and `text` is Text().
pub record Page : Type 0 where
  pub first_text : String → String
  pub first_attr : String → String → Option String
  pub attrs : String → String → List (Option String)
  pub texts : String → List String
  pub text : String

-- goquery.NewDocumentFromReader, and Find(s).Remove().
pub record Html : Type 0 where
  pub parse : String → Result Page
  pub without : Page → String → Page

-- schema.org's JobPosting, as far as it is read; the location stays raw JSON, which is "" when it is
-- missing, and a salary is its currency and the raw JSON of its value.
pub record JobPosting : Type 0 where
  pub type : String
  pub title : String
  pub description : String
  pub date_posted : String
  pub hiring_organization : Option String
  pub job_location : String
  pub base_salary : Option (String × String)

-- json.Unmarshal into one posting and into a slice of them, and into one location and into a slice of
-- them; a location is its address's locality, if it has an address.
pub record Json : Type 0 where
  pub posting : String → Result JobPosting
  pub postings : String → Result (List JobPosting)
  pub place : String → Result (Option String)
  pub places : String → Result (List (Option String))

-- The value of an attribute, with "" for a missing one.
abbrev pub or_empty : Option String → String
or_empty none = ""
or_empty (some s) = s

-- `if job.X == "" { job.X = … }`
abbrev pub or_text : String → String → String
or_text s t = if str_eq s "" then t else s
