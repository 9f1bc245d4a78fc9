-- ===== src/Service/Cached.antt =====
-- internal/service/cached_job_service.go: cache-aside. The inner service and the digest of a filter
-- are arguments; log lines are left out.
pub mod Transparency
use jobcrawler.Base.{ℕ, String, Option, none, some, List, [], ◌∷◌}
use jobcrawler.Domain.{Job, JobStats, SearchFilter, SearchResult}
use jobcrawler.World.Errors.{Err, Result, ok, err}
use jobcrawler.World.{Env, Io, Trace}
use jobcrawler.Redis.Keys.{
  key_cache_search, key_cache_job, key_cache_stats, ttl_cache_search, ttl_cache_job,
  ttl_cache_stats,
}
use jobcrawler.Redis.Cache.{Codec, cache_get, cache_set}

module _ {A : Type 0} (codec : Codec A) (env : Env) where
  store : String → ℕ → Result A → Io (Result A)
  store key ttl (err e) tr = (err e, tr)
  store key ttl (ok a) tr = let (_, tr') = cache_set codec env key a ttl tr in (ok a, tr')

  after_get : String → ℕ → Io (Result A) → Result A → Io (Result A)
  unfolding store
  after_get key ttl inner (ok a) tr = (ok a, tr)
  after_get key ttl inner (err e) tr = let (r, tr') = inner tr in store key ttl r tr'

  -- What Search, GetByID and GetStats do at their key: a cached value, or the inner service's answer,
  -- which is stored unless it is an error. A failing cache is logged and passed over.
  unfoldable pub cached : String → ℕ → Io (Result A) → Io (Result A)
  unfolding after_get
  cached key ttl inner tr =
      let (r, tr') = cache_get codec env key tr in after_get key ttl inner r tr'

-- searchCacheKey, of the digest of the filter's JSON.
abbrev pub search_key : (SearchFilter → Result String) → SearchFilter → Result String
search_key digest f = elim (digest f) [ ok h ↦ ok (key_cache_search h) | err e ↦ err e ]

module _ (env : Env) where
  search_at :
      Codec SearchResult → Io (Result SearchResult) → Result String → Io (Result SearchResult)
  search_at codec inner (err e) tr = inner tr
  search_at codec inner (ok key) tr = cached codec env key ttl_cache_search inner tr

  -- CachedJobService.Search
  unfoldable pub search :
      Codec SearchResult
      → (SearchFilter → Result String)
      → (SearchFilter → Io (Result SearchResult))
      → SearchFilter
      → Io (Result SearchResult)
  unfolding search_at cached
  search codec digest inner f = search_at codec (inner f) (search_key digest f)

  -- CachedJobService.GetByID
  unfoldable pub get_by_id : Codec Job → (String → Io (Result Job)) → String → Io (Result Job)
  unfolding cached
  get_by_id codec inner id = cached codec env (key_cache_job id) ttl_cache_job (inner id)

  -- CachedJobService.GetStats
  unfoldable pub get_stats : Codec JobStats → Io (Result JobStats) → Io (Result JobStats)
  unfolding cached
  get_stats codec inner = cached codec env key_cache_stats ttl_cache_stats inner
