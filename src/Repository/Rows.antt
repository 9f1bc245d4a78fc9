-- ===== src/Repository/Rows.antt =====
-- internal/repository/postgres/job_repo.go: how a row is read back, and the SQL null helpers. A NULL that
-- was scanned is `none`. The salary columns are INTEGER, so a salary that was stored fits the 32 bits
-- that scanJob reads.
pub mod Upsert
pub mod RoundTrip
use Prim.Native.String.{[], ◌∷◌}
use jobcrawler.Base.{
  ℕ, ℤ, zero, suc, String, Option, none, some, List, ◌==◌, str_eq, if◌then◌else◌, ◌⧺◌,
}
use jobcrawler.Domain.{Job, Company, Location}
use jobcrawler.World.{Stored}

-- truncate: the first `n` characters.
unfoldable pub truncate : String → ℕ → String
truncate s zero = ""
truncate [] (suc n) = []
truncate (c ∷ s) (suc n) = c ∷ truncate s n

abbrev pub null_string : String → Option String
null_string s = if str_eq s "" then none else some s

-- nullTime: the zero time is NULL.
abbrev pub null_time : ℕ → Option ℕ
null_time t = if t == 0 then none else some t

-- sql.NullString.String
abbrev pub string_or_empty : Option String → String
string_or_empty none = ""
string_or_empty (some s) = s

abbrev pub time_or_zero : Option ℕ → ℕ
time_or_zero none = 0
time_or_zero (some t) = t

-- The variables that scanJobFromScanner scans into, beside those of Stored.
pub record Columns : Type 0 where
  pub external_id : Option String
  pub source : String
  pub title : String
  pub company_name : Option String
  pub company_website : Option String
  pub location_city : Option String
  pub location_country : Option String
  pub remote_type : String
  pub salary_min : Option ℤ
  pub salary_max : Option ℤ
  pub salary_currency : Option String
  pub description : Option String
  pub tags : List String
  pub url : String
  pub fingerprint : String
  pub published_at : Option ℕ
  pub expires_at : Option ℕ

-- The rest of scanJobFromScanner, of what was scanned.
unfoldable pub scan_job : Columns → Stored → Job
scan_job r s = record {
  id = s.id;
  external_id = string_or_empty r.external_id;
  source = r.source;
  title = r.title;
  company = record {
    id = "";
    name = string_or_empty r.company_name;
    website = string_or_empty r.company_website;
    logo_url = "";
  };
  location = record {
    city = string_or_empty r.location_city;
    state = "";
    country = string_or_empty r.location_country;
    postal_code = "";
  };
  remote = r.remote_type;
  salary_min = r.salary_min;
  salary_max = r.salary_max;
  salary_currency = string_or_empty r.salary_currency;
  description = string_or_empty r.description;
  tags = r.tags;
  published_at = time_or_zero r.published_at;
  expires_at = r.expires_at;
  url = r.url;
  fingerprint = r.fingerprint;
  created_at = s.created_at;
  updated_at = s.updated_at;
}
