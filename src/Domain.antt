-- ===== src/Domain.antt =====
-- internal/domain: the data that the binaries exchange. `JobSource`, `RemoteType` and the crawl type
-- are Go string types, which may hold any text; a `time.Time` is a number of milliseconds, and 0 is
-- its zero value; a nil pointer is `none`.
use jobcrawler.Base.{ℕ, ℤ, String, Bool, Option, List}

abbrev pub JobSource : Type 0
JobSource = String

abbrev pub source_stepstone : JobSource
source_stepstone = "STEPSTONE"

abbrev pub source_indeed : JobSource
source_indeed = "INDEED"

abbrev pub source_xing : JobSource
source_xing = "XING"

abbrev pub RemoteType : Type 0
RemoteType = String

abbrev pub remote_full : RemoteType
remote_full = "FULL"

abbrev pub remote_partial : RemoteType
remote_partial = "PARTIAL"

abbrev pub remote_none : RemoteType
remote_none = "NONE"

abbrev pub crawl_type_listing : String
crawl_type_listing = "LISTING"

abbrev pub crawl_type_detail : String
crawl_type_detail = "DETAIL"

pub record CrawlTask : Type 0 where
  pub source : JobSource
  pub url : String
  pub crawl_type : String
  pub enqueued_at : ℕ

pub record RawCrawlResult : Type 0 where
  pub source : JobSource
  pub url : String
  pub html : String
  pub crawled_at : ℕ

pub record Company : Type 0 where
  pub id : String
  pub name : String
  pub website : String
  pub logo_url : String

-- The coordinates are never set by the program and are left out.
pub record Location : Type 0 where
  pub city : String
  pub state : String
  pub country : String
  pub postal_code : String

pub record Job : Type 0 where
  pub id : String
  pub external_id : String
  pub source : JobSource
  pub title : String
  pub company : Company
  pub location : Location
  pub remote : RemoteType
  pub salary_min : Option ℤ
  pub salary_max : Option ℤ
  pub salary_currency : String
  pub description : String
  pub tags : List String
  pub published_at : ℕ
  pub expires_at : Option ℕ
  pub url : String
  pub fingerprint : String
  pub created_at : ℕ
  pub updated_at : ℕ

pub record SearchFilter : Type 0 where
  pub query : String
  pub location : String
  pub remote : RemoteType
  pub tags : List String
  pub salary_min : ℕ
  pub sources : List JobSource
  pub page : ℕ
  pub per_page : ℕ
  pub sort : String

pub record SearchResult : Type 0 where
  pub jobs : List Job
  pub total : ℕ
  pub page : ℕ
  pub per_page : ℕ
  pub total_pages : ℕ

pub record TagCount : Type 0 where
  pub tag : String
  pub count : ℕ

-- The two Go maps are association lists; the average is in cents of the source's number.
pub record JobStats : Type 0 where
  pub total_jobs : ℕ
  pub by_source : List (String × ℕ)
  pub by_remote : List (String × ℕ)
  pub top_tags : List TagCount
  pub avg_salary : Option ℕ

abbrev pub alert_freq_immediate : String
alert_freq_immediate = "IMMEDIATE"

pub record JobAlert : Type 0 where
  pub id : String
  pub user_email : String
  pub filter : SearchFilter
  pub frequency : String
  pub active : Bool
  pub created_at : ℕ

pub record JobAlertMatch : Type 0 where
  pub alert_id : String
  pub user_email : String
  pub job_id : String
  pub job_title : String
  pub job_url : String
  pub frequency : String
  pub matched_at : String
