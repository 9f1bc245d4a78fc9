-- ===== src/Service/Postgres.antt =====
-- internal/service/postgres_job_service.go. The repository's search is an argument.
use Prim.Native.Nat.{◌/◌}
use jobcrawler.Base.{ℕ, ◌+◌, ◌-◌, ◌*◌, ◌≤◌, ◌<◌, ltb, if◌then◌else◌, List, arith}
use jobcrawler.Domain.{Job, SearchFilter, SearchResult}
use jobcrawler.World.Errors.{Result, ok, err}
use jobcrawler.World.{Io}

unfoldable pub total_pages : ℕ → ℕ → ℕ
total_pages total per_page = if ltb 0 per_page then (total + per_page - 1) / per_page else 0

abbrev pub search_result : SearchFilter → Result (List Job × ℕ) → Result SearchResult
search_result f (err e) = err e
search_result f (ok (jobs, total)) = ok (record {
  jobs = jobs;
  total = total;
  page = f.page;
  per_page = f.per_page;
  total_pages = total_pages total f.per_page;
})

-- PostgresJobService.Search
unfoldable pub search :
    (SearchFilter → Io (Result (List Job × ℕ))) → SearchFilter → Io (Result SearchResult)
search repo_search f tr = let (r, tr') = repo_search f tr in (search_result f r, tr')

-- With a page size above 0, the pages hold all jobs, and the last of them begins below the total.
pub total_pages_bounds :
    (total per_page : ℕ)
    → 0 < per_page
    → (total ≤ total_pages total per_page * per_page)
      × (total_pages total per_page * per_page < total + per_page)
unfolding total_pages
total_pages_bounds total per_page h = grind arith
