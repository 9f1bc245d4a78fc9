-- ===== src/Service/Invalidation.antt =====
-- CachedJobService.Invalidate of internal/service/cached_job_service.go: errors are only logged, and
-- the answer is always nil. `none`: the scan of the search keys is not at its end.
use jobcrawler.Base.{
  ℕ, suc, String, ◌≡◌, Bool, true, false, Option, none, some, [], ◌∷◌, arith, refl, any, str_eq,
}
use text.Mathlib.TextPositions.{eq_refl}
use jobcrawler.World.Errors.{Err}
use jobcrawler.World.{Env, Io, Trace, Call, redis_del}
use jobcrawler.Redis.Keys.{key_cache_job, key_cache_stats}
use jobcrawler.Redis.Cache.{delete, scan_and_delete}
use jobcrawler.Redis.Cache.Scanning.{ScanEnds, scan_and_delete_ends, scan_and_delete_keeps}

-- The call asks for the key to be deleted.
abbrev pub is_delete_of : String → Call → Bool
is_delete_of key (redis_del keys) = any (λ k. str_eq k key) keys
is_delete_of key _ = false

module _ (env : Env) where
  delete_stats : Option (Option Err) → Io (Option (Unit {0}))
  unfolding delete
  delete_stats none tr = (none, tr)
  delete_stats (some e) tr = let (_, tr') = delete env (key_cache_stats ∷ []) tr in (some tt, tr')

  unfoldable pub invalidate : ℕ → String → Io (Option (Unit {0}))
  unfolding delete_stats
  invalidate rounds id tr =
      let (_, tr1) = delete env (key_cache_job id ∷ []) tr in
      let (scan, tr2) = scan_and_delete env rounds "cache:search:*" tr1 in delete_stats scan tr2

  -- Whatever fails on the way, Invalidate comes to its end and has asked Redis to delete the keys
  -- of the job and of the statistics, given a SCAN whose cursor comes to 0.
  pub invalidate_deletes :
      (ends : ScanEnds env) (id : String) (tr : Trace)
      → let done = invalidate (suc (ends.distance 0)) id tr in
        (done.0 ≡ some tt)
        × (any (is_delete_of (key_cache_job id)) done.1 ≡ true)
        × (any (is_delete_of key_cache_stats) done.1 ≡ true)
  unfolding invalidate delete_stats delete
  invalidate_deletes ends id tr =
      let job_key = key_cache_job id in
      let deleted = redis_del (job_key ∷ []) ∷ tr in
      let (e, ended) = scan_and_delete_ends env ends "cache:search:*" deleted in
      let kept =
        scan_and_delete_keeps env (is_delete_of job_key) (suc (ends.distance 0)) "cache:search:*"
          deleted (ground (arith, eq_refl job_key)) in
      rw ended (refl, ground arith, ground (arith, eq_refl key_cache_stats))
