-- ===== src/Httputil/Robots/Decisions.antt =====
-- What the robots.txt check of pkg/httputil/robots.go decides, and what it leaves alone.
use jobcrawler.Base.{ℕ, String, ◌≡◌, Bool, false, none, some, arith, count, ◌⧺◌, inl, inr}
use jobcrawler.World.Errors.{ok, Result-cases}
use jobcrawler.World.{Env, Trace, Call, http_do, wait}
use jobcrawler.Httputil.Client.Silence.{count-get}
use jobcrawler.Httputil.Robots.{Cache, Group, find, test, is_allowed}

module _ (p : Call → Bool) (no_request : (url : String) → p (http_do url) ≡ false)
    (no_wait : (d : ℕ) → p (wait d) ≡ false) (env : Env) where
  pub count-is_allowed :
      (cache : Cache) (url path : String) (tr : Trace)
      → count p (is_allowed env cache url path tr).1 ≡ count p tr
  unfolding is_allowed
  count-is_allowed cache url path tr = elim (Result-cases (env.url_origin url)) [
    | inr (e, bad) ↦ ground arith
    | inl (origin, parsed) ↦
        ground (arith, count-get p no_request no_wait env (origin ⧺ "/robots.txt") tr)
  ]

-- Two URLs of one origin get the same answer for a path that the caller hands over, whatever their
-- own paths.
pub is_allowed_by_origin :
    (env : Env) (cache : Cache) (url url' path : String) (tr : Trace)
    → (origin : String) → env.url_origin url ≡ ok origin
    → env.url_origin url' ≡ ok origin
    → is_allowed env cache url path tr ≡ is_allowed env cache url' path tr
unfolding is_allowed
is_allowed_by_origin env cache url url' path tr origin h h' = rw (h, h')

-- Once a site's robots.txt is cached, the cached rules answer, no call is made and the cache
-- stays.
pub is_allowed_cached :
    (env : Env) (cache : Cache) (url path origin : String) (g : Group) (tr : Trace)
    → env.url_origin url ≡ ok origin
    → find cache origin ≡ some g
    → is_allowed env cache url path tr ≡ (((test g path, none), cache), tr)
unfolding is_allowed
is_allowed_cached env cache url path origin g tr h c = ground arith
