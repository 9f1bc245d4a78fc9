-- ===== src/Repository/Queries.antt =====
-- The reads of internal/repository/postgres/job_repo.go and its deletion. What the database answers is
-- an argument: for a query that runs over rows, the result of each Scan in order and what rows.Err()
-- says behind the last one.
pub mod Complete
use jobcrawler.Base.{ℕ, String, Bool, Option, none, some, List, [], ◌∷◌, map, str_eq, if◌then◌else◌}
use Prim.Native.Char.{Char}
use jobcrawler.Domain.{Job, JobStats, TagCount, SearchFilter}
use jobcrawler.World.{Stored}
use jobcrawler.World.Errors.{Err, sentinel, no_rows, not_found, wrap, Result, ok, err}
use jobcrawler.Repository.Rows.{Columns, scan_job}
use jobcrawler.Repository.Search.{Arg, count_query, data_query}

abbrev pub Row : Type 0
Row = Columns × Stored

abbrev pub Rows : Type 0 → Type 0
Rows A = Result (List (Result A) × Option Err)

pub record Database : Type 0 where
  pub job_row : String → Result Row
  pub count : String × List Arg → Result ℕ
  pub job_rows : String × List Arg → Rows Row
  pub groups : String → Rows (String × ℕ)
  pub average : String → Result (Option ℕ)
  pub delete_before : ℕ → Result (Result ℕ)

abbrev pub job_of : Row → Job
job_of (columns, stored) = scan_job columns stored

-- `err == sql.ErrNoRows`
abbrev pub row_error : Err → Err
row_error (sentinel no_rows) = sentinel not_found
row_error e = e

abbrev pub job_or_error : Result Row → Result Job
job_or_error (ok r) = ok (job_of r)
job_or_error (err e) = err (row_error e)

-- The loop over the rows of a query, which ends at the first Scan that fails.
unfoldable pub scan_all : {A : Type 0} → List (Result A) → Result (List A)
scan_all [] = ok []
scan_all (err e ∷ rs) = err e
scan_all (ok a ∷ rs) = elim (scan_all rs) [ ok rest ↦ ok (a ∷ rest) | err e ↦ err e ]

-- m[k] = n
unfoldable pub put : List (String × ℕ) → String → ℕ → List (String × ℕ)
put [] k n = (k, n) ∷ []
put ((j, i) ∷ m) k n = if str_eq j k then (k, n) ∷ m else (j, i) ∷ put m k n

unfoldable pub put_all : List (String × ℕ) → List (String × ℕ) → List (String × ℕ)
put_all m [] = m
put_all m ((k, n) ∷ ks) = put_all (put m k n) ks

abbrev pub tag_counts : List (String × ℕ) → List TagCount
tag_counts [] = []
tag_counts ((t, n) ∷ ts) = record { tag = t; count = n } ∷ tag_counts ts

abbrev pub wrapped : {A : Type 0} → String → Result A → Result A
wrapped prefix (ok a) = ok a
wrapped prefix (err e) = err (wrap prefix e)

abbrev pub bind : {A B : Type 0} → Result A → (A → Result B) → Result B
bind (ok a) k = k a
bind (err e) k = err e

-- What GetStats reads from a query that runs over rows; rows.Err() is not asked.
unfoldable pub scan_groups : String → Rows (String × ℕ) → Result (List (String × ℕ))
scan_groups prefix (ok (rs, after)) = scan_all rs
scan_groups prefix (err e) = err (wrap prefix e)

abbrev pub sources_query : String
sources_query = "SELECT source, COUNT(*) FROM jobs GROUP BY source"

abbrev pub remotes_query : String
remotes_query = "SELECT remote_type, COUNT(*) FROM jobs GROUP BY remote_type"

abbrev pub tags_query : String
tags_query =
    "SELECT tag, COUNT(*) AS cnt FROM jobs, unnest(tags) AS tag GROUP BY tag ORDER BY cnt DESC LIMIT 10"

abbrev pub count_all : String × List Arg
count_all = ("SELECT COUNT(*) FROM jobs", [])

abbrev pub average_query : String
average_query =
    "SELECT AVG((salary_min + salary_max) / 2.0) FROM jobs WHERE salary_min IS NOT NULL AND salary_max IS NOT NULL"

-- The jobs, the total and the error of Search.
abbrev pub SearchResult : Type 0
SearchResult = List Job × ℕ × Option Err

abbrev pub found_jobs : ℕ → Option Err → Result (List Row) → SearchResult
found_jobs total after (ok rs) = (map job_of rs, total, after)
found_jobs total after (err e) = ([], 0, some (wrap "search scan: " e))

module _ (db : Database) where
  -- GetByID
  unfoldable pub get_by_id : String → Result Job
  get_by_id id = job_or_error (db.job_row id)

  -- Count
  unfoldable pub count_jobs_query : Result ℕ
  count_jobs_query = wrapped "count jobs: " (db.count count_all)

  abbrev deleted : Result (Result ℕ) → Result ℕ
  deleted (ok n) = wrapped "delete old jobs rows affected: " n
  deleted (err e) = err (wrap "delete old jobs: " e)

  -- DeleteOlderThan
  unfoldable pub delete_older : ℕ → Result ℕ
  delete_older cutoff = deleted (db.delete_before cutoff)

  -- GetStats: the five queries one after another, until one of them fails.
  unfoldable pub get_stats : Result JobStats
  unfolding scan_groups put_all
  get_stats = bind (wrapped "stats total: " (db.count count_all)) (λ total.
      bind (scan_groups "stats by source: " (db.groups sources_query)) (λ by_source.
        bind (scan_groups "stats by remote: " (db.groups remotes_query)) (λ by_remote.
          bind (wrapped "stats avg salary: " (db.average average_query)) (λ avg.
            bind (scan_groups "stats top tags: " (db.groups tags_query)) (λ tags. ok (record {
              total_jobs = total;
              by_source = put_all [] by_source;
              by_remote = put_all [] by_remote;
              top_tags = tag_counts tags;
              avg_salary = avg;
            }))))))

  module _ (upper : Char → Char) where
    abbrev found_rows : ℕ → Rows Row → SearchResult
    found_rows total (ok (rs, after)) = found_jobs total after (scan_all rs)
    found_rows total (err e) = ([], 0, some (wrap "search query: " e))

    abbrev counted : SearchFilter → Result ℕ → SearchResult
    counted filter (ok total) = found_rows total (db.job_rows (data_query upper filter))
    counted filter (err e) = ([], 0, some (wrap "search count: " e))

    -- Search, after its two queries are built.
    unfoldable pub search : SearchFilter → SearchResult
    unfolding scan_all
    search filter = counted filter (db.count (count_query upper filter))
