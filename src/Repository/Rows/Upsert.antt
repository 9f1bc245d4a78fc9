-- ===== src/Repository/Rows/Upsert.antt =====
-- Upsert and GetByID of internal/repository/postgres/job_repo.go over a table: the arguments of the
-- INSERT by their positions, what its ON CONFLICT clause does, and the scan of the columns of a SELECT
-- by theirs. The table has one row for a fingerprint at most; a row that its checks refuse is not
-- looked at.
pub mod Written
use jobcrawler.Base.{
  ℕ, ℤ, String, Bool, false, Option, none, some, List, [], ◌∷◌, map, str_eq, if◌then◌else◌,
}
use jobcrawler.Domain.{Job}
use jobcrawler.World.{Stored}
use jobcrawler.Repository.Rows.{Columns, truncate, null_string, null_time, scan_job}

-- What a column holds.
pub data Value : Type 0 where
  null : Value
  varchar : String → Value
  integer : ℤ → Value
  texts : List String → Value
  time : ℕ → Value

unfoldable pub text_or_null : Option String → Value
text_or_null none = null
text_or_null (some s) = varchar s

unfoldable pub integer_or_null : Option ℤ → Value
integer_or_null none = null
integer_or_null (some n) = integer n

unfoldable pub time_or_null : Option ℕ → Value
time_or_null none = null
time_or_null (some t) = time t

-- The columns of the INSERT, in the order of its placeholders.
abbrev pub insert_columns : List String
insert_columns =
    "external_id" ∷ "source" ∷ "title" ∷ "company_name" ∷ "company_website" ∷ "location_city"
    ∷ "location_country" ∷ "remote_type" ∷ "salary_min" ∷ "salary_max" ∷ "salary_currency"
    ∷ "description" ∷ "tags" ∷ "url" ∷ "fingerprint" ∷ "published_at" ∷ "expires_at" ∷ []

-- $1 to $17
unfoldable pub upsert_args : Job → List Value
upsert_args job =
    text_or_null (null_string (truncate job.external_id 255))
    ∷ varchar job.source
    ∷ varchar (truncate job.title 500)
    ∷ text_or_null (null_string (truncate job.company.name 255))
    ∷ text_or_null (null_string (truncate job.company.website 500))
    ∷ text_or_null (null_string (truncate job.location.city 255))
    ∷ text_or_null (null_string (truncate job.location.country 100))
    ∷ varchar job.remote
    ∷ integer_or_null job.salary_min
    ∷ integer_or_null job.salary_max
    ∷ text_or_null (null_string job.salary_currency)
    ∷ text_or_null (null_string job.description)
    ∷ texts job.tags
    ∷ varchar (truncate job.url 1000)
    ∷ varchar job.fingerprint
    ∷ time_or_null (null_time job.published_at)
    ∷ time_or_null job.expires_at
    ∷ []

-- A row gives each column its value.
abbrev pub Row : Type 0
Row = String → Value

abbrev pub set : String → Value → Row → Row
set name v row n = if str_eq name n then v else row n

abbrev pub set_all : List String → List Value → Row → Row
set_all (name ∷ names) (v ∷ vs) row = set name v (set_all names vs row)
set_all _ _ row = row

-- A new row, with the id and the time that Postgres gives it.
unfoldable pub inserted : Job → Stored → Row
unfolding upsert_args
inserted job fresh = set_all insert_columns (upsert_args job) (
    set "id" (varchar fresh.id) (
      set "created_at" (time fresh.created_at)
        (set "updated_at" (time fresh.updated_at) (λ n. null))))

-- ON CONFLICT (fingerprint) DO UPDATE: the url is that of the arguments, the time is now.
unfoldable pub updated : Job → Stored → Row → Row
unfolding inserted
updated job fresh row =
    set "url" (inserted job fresh "url") (set "updated_at" (time fresh.updated_at) row)

abbrev pub is_text : String → Value → Bool
is_text s (varchar t) = str_eq t s
is_text s _ = false

-- Upsert on the rows of the table.
unfoldable pub upsert : Job → Stored → List Row → List Row
unfolding inserted updated
upsert job fresh [] = inserted job fresh ∷ []
upsert job fresh (row ∷ rows) =
    let rest = upsert job fresh rows in
    if is_text job.fingerprint (row "fingerprint") then updated job fresh row ∷ rows else row ∷ rest

-- The columns of the SELECT, in its order.
abbrev pub select_columns : List String
select_columns =
    "id" ∷ "external_id" ∷ "source" ∷ "title" ∷ "company_name" ∷ "company_website" ∷ "location_city"
    ∷ "location_country" ∷ "remote_type" ∷ "salary_min" ∷ "salary_max" ∷ "salary_currency"
    ∷ "description" ∷ "tags" ∷ "url" ∷ "fingerprint" ∷ "published_at" ∷ "expires_at" ∷ "created_at"
    ∷ "updated_at" ∷ []

-- Scan: a variable takes the next value, or the row is refused.
abbrev pub Scan : Type 0 → Type 0
Scan A = List Value → Option (A × List Value)

infixl 5 ◌>>=◌
abbrev pub ◌>>=◌ : {A B : Type 0} → Scan A → (A → Scan B) → Scan B
◌>>=◌ m f vs = elim (m vs) [ none ↦ none | some (a, rest) ↦ f a rest ]

abbrev done : {A : Type 0} → A → Scan A
done a vs = some (a, vs)

abbrev a_text : Scan String
a_text (varchar s ∷ vs) = some (s, vs)
a_text _ = none

unfoldable pub null_text : Scan (Option String)
null_text (null ∷ vs) = some (none, vs)
null_text (varchar s ∷ vs) = some (some s, vs)
null_text _ = none

unfoldable pub null_integer : Scan (Option ℤ)
null_integer (null ∷ vs) = some (none, vs)
null_integer (integer n ∷ vs) = some (some n, vs)
null_integer _ = none

abbrev an_array : Scan (List String)
an_array (texts ts ∷ vs) = some (ts, vs)
an_array _ = none

abbrev a_time : Scan ℕ
a_time (time t ∷ vs) = some (t, vs)
a_time _ = none

unfoldable pub null_or_time : Scan (Option ℕ)
null_or_time (null ∷ vs) = some (none, vs)
null_or_time (time t ∷ vs) = some (some t, vs)
null_or_time _ = none

-- The targets of s.Scan, in their order.
unfoldable pub scan_row : Scan (Columns × Stored)
scan_row = do
  id ← a_text
  external_id ← null_text
  source ← a_text
  title ← a_text
  company_name ← null_text
  company_website ← null_text
  location_city ← null_text
  location_country ← null_text
  remote_type ← a_text
  salary_min ← null_integer
  salary_max ← null_integer
  salary_currency ← null_text
  description ← null_text
  tags ← an_array
  url ← a_text
  fingerprint ← a_text
  published_at ← null_or_time
  expires_at ← null_or_time
  created_at ← a_time
  updated_at ← a_time
  done (
    record {
      external_id = external_id;
      source = source;
      title = title;
      company_name = company_name;
      company_website = company_website;
      location_city = location_city;
      location_country = location_country;
      remote_type = remote_type;
      salary_min = salary_min;
      salary_max = salary_max;
      salary_currency = salary_currency;
      description = description;
      tags = tags;
      url = url;
      fingerprint = fingerprint;
      published_at = published_at;
      expires_at = expires_at;
    },
    record { id = id; created_at = created_at; updated_at = updated_at },
  )

abbrev scanned_job : Option ((Columns × Stored) × List Value) → Option Job
scanned_job none = none
scanned_job (some ((columns, stored), rest)) = some (scan_job columns stored)

-- The job of a row that was selected.
unfoldable pub read_job : Row → Option Job
unfolding scan_row
read_job row = scanned_job (scan_row (map row select_columns))
