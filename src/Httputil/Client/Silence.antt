-- ===== src/Httputil/Client/Silence.antt =====
-- Counts of calls other than requests and waits do not change by fetching a page or robots.txt.
use jobcrawler.Base.{ℕ, ◌+◌, ◌/◌, String, ◌≡◌, Bool, false, List, [], ◌∷◌, arith, count}
use jobcrawler.World.Errors.{Result}
use jobcrawler.World.{Env, Trace, Io, Call, http_do, wait}
use jobcrawler.Httputil.Client.{do_get, get_loop, get, judge, delays}

module _ (p : Call → Bool) (no_request : (url : String) → p (http_do url) ≡ false)
    (no_wait : (d : ℕ) → p (wait d) ≡ false) (env : Env) (url : String) where
  count-do_get : (tr : Trace) → count p (do_get env url tr).1 ≡ count p tr
  unfolding do_get
  count-do_get tr = ground (arith, no_request url)

  count-judge :
      (d : ℕ) (ds : List ℕ) (rest : Io (Result String)) (r : Result String) (tr : Trace)
      → ((t : Trace) → count p (rest t).1 ≡ count p t)
      → count p (judge env url d ds rest r tr).1 ≡ count p tr
  unfolding judge
  count-judge d [] rest r tr h = ground arith
  count-judge d (_ ∷ ds) rest r tr h =
      let delay = d + env.rand tr (d / 5) in ground (arith, no_wait delay, h (wait delay ∷ tr))

  count-get_loop : (ds : List ℕ) (tr : Trace) → count p (get_loop env url ds tr).1 ≡ count p tr
  unfolding get_loop
  count-get_loop [] tr = omega arith
  count-get_loop (d ∷ ds) tr = ground (
    arith,
    count-do_get tr,
    count-judge d ds (get_loop env url ds) (do_get env url tr).0 (do_get env url tr).1
        (count-get_loop ds),
  )

  pub count-get : (tr : Trace) → count p (get env url tr).1 ≡ count p tr
  unfolding get
  count-get tr = count-get_loop delays tr
