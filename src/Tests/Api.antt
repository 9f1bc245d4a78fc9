-- ===== src/Tests/Api.antt =====
-- The theorems of the handlers and of the cache's invalidation at sample data.
use jobcrawler.Base.{
  ℕ, ◌≤◌, ◌<◌, String, ◌≡◌, ◌⊎◌, inl, true, some, List, [], ◌∷◌, arith, refl, All, any, str_eq,
  if◌then◌else◌,
}
use jobcrawler.World.Errors.{Err, failure, Result, ok}
use jobcrawler.World.{Env, Trace}
use jobcrawler.Redis.Cache.Scanning.{ScanEnds}
use jobcrawler.Redis.Keys.{key_cache_job, key_cache_stats}
use jobcrawler.Repository.Search.{clamp_page, clamp_per_page}
use jobcrawler.Service.Invalidation.{invalidate, is_delete_of, invalidate_deletes}
use jobcrawler.Handler.Router.{
  Request, Handler, Foreign, write, write_header, status_code, rate_limit, new_router,
}
use jobcrawler.Handler.Router.Rejected.{IsFull, new_router_limited}
use jobcrawler.Handler.Jobs.{parse_filter}
use jobcrawler.Handler.Jobs.Filter.{NotEmpty, parse_filter_bounds}
use jobcrawler.Tests.Samples.{sample_env, same_char}

abbrev down : Err
down = failure "down"

-- ?tags=Go,SQL&page=0&per_page=500
abbrev request : String → String
request name =
    if str_eq name "tags"
    then "Go,SQL"
    else if str_eq name "page"
    then "0"
    else if str_eq name "per_page"
    then "500"
    else ""

parse_filter_bounds_example :
    let f = parse_filter same_char same_char request in
    (1 ≤ f.page)
    × (1 ≤ f.per_page)
    × (f.per_page ≤ 100)
    × (clamp_page f.page ≡ f.page)
    × (clamp_per_page f.per_page ≡ f.per_page)
    × All NotEmpty f.tags
    × All NotEmpty f.sources
parse_filter_bounds_example = parse_filter_bounds same_char same_char request

abbrev last_round : Result (List String × ℕ)
last_round = ok ([], 0)

one_round :
    (cursor : ℕ) (keys : List String) (next : ℕ)
    → last_round ≡ ok (keys, next)
    → (next ≡ 0) ⊎ (next < cursor)
one_round cursor keys next h = inl (ground arith)

abbrev sample-ScanEnds : ScanEnds sample_env
sample-ScanEnds = record {
  distance = λ cursor. cursor;
  nearer = λ tr cursor pattern keys next h. one_round cursor keys next h;
}

invalidate_deletes_example :
    let done = invalidate sample_env 1 "j1" [] in
    (done.0 ≡ some tt)
    × (any (is_delete_of (key_cache_job "j1")) done.1 ≡ true)
    × (any (is_delete_of key_cache_stats) done.1 ≡ true)
invalidate_deletes_example = invalidate_deletes sample_env sample-ScanEnds "j1" []

abbrev no_nanos : Trace → ℕ
no_nanos tr = 0

-- A Redis that has counted a hundred requests of everybody.
abbrev full_env : Env
full_env = record sample_env { pipeline_answer = λ tr cs. ok (0 ∷ 100 ∷ 1 ∷ 1 ∷ []) }

full_env-IsFull : IsFull full_env 100
full_env-IsFull tr cs = (0 ∷ 100 ∷ 1 ∷ 1 ∷ [], refl, omega arith)

abbrev pass_on : Foreign
pass_on = record { real_ip = λ h. h; recoverer = λ h. h; cors = λ h. h; timeout = λ h. h }

abbrev health_only : Handler
health_only r tr = (if str_eq r.path "/health" then write "ok" ∷ [] else write_header 404 ∷ [], tr)

abbrev jobs_only : Handler
jobs_only r tr = (write "[]" ∷ [], tr)

abbrev limiter : Handler → Handler
limiter = rate_limit full_env (λ tr. 0) (λ r. r.remote_addr) 100 60000

new_router_limited_example :
    (new_router (λ tr. "id") (λ r tr. "") pass_on (some limiter) health_only
      ≡ new_router (λ tr. "id") (λ r tr. "") pass_on (some limiter) jobs_only)
    × ((r : Request) (tr : Trace) → status_code 200 (limiter health_only r tr).0 ≡ 429)
new_router_limited_example =
    new_router_limited full_env (λ tr. 0) (λ r. r.remote_addr) 100 60000 full_env-IsFull
      (λ tr. "id") (λ r tr. "") pass_on health_only jobs_only
