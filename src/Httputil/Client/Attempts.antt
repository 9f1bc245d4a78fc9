-- ===== src/Httputil/Client/Attempts.antt =====
-- How often the client of pkg/httputil/crawler_client.go asks a site.
use jobcrawler.Base.{ℕ, ◌+◌, ◌/◌, ◌⊎◌, ◌≤◌, String, ◌≡◌, none, List, [], ◌∷◌, arith, count, length}
use jobcrawler.World.Errors.{Result, ok, err, sentinel, rate_limited, forbidden}
use jobcrawler.World.{Env, Trace, Io, wait, Response}
use jobcrawler.World.Counting.{is_fetch_of_page}
use jobcrawler.Httputil.Client.{do_get, get_loop, get, judge, delays}

abbrev pub requests : Trace → ℕ
requests tr = count is_fetch_of_page tr

module _ (env : Env) (url : String) where
  requests-do_get : (tr : Trace) → requests (do_get env url tr).1 ≤ requests tr + 1
  unfolding do_get
  requests-do_get tr = ground arith

  requests-judge :
      (d n : ℕ) (ds : List ℕ) (rest : Io (Result String)) (r : Result String) (tr : Trace)
      → ((t : Trace) → requests (rest t).1 ≤ requests t + n)
      → requests (judge env url d ds rest r tr).1 ≤ requests tr + n
  unfolding judge
  requests-judge d n [] rest r tr h = ground arith
  requests-judge d n (_ ∷ ds) rest r tr h =
      let delay = d + env.rand tr (d / 5) in ground (arith, h (wait delay ∷ tr))

  requests-get_loop :
      (ds : List ℕ) (tr : Trace) → requests (get_loop env url ds tr).1 ≤ requests tr + length ds
  unfolding get_loop
  requests-get_loop [] tr = omega arith
  requests-get_loop (d ∷ ds) tr = ground (
    arith,
    requests-do_get tr,
    requests-judge d (length ds) ds (get_loop env url ds) (do_get env url tr).0
        (do_get env url tr).1 (requests-get_loop ds),
  )

  -- One call of Get sends at most three requests.
  pub requests-get : (tr : Trace) → requests (get env url tr).1 ≤ requests tr + 3
  unfolding get
  requests-get tr = requests-get_loop delays tr

  -- Where the request can be built and the site answers 429 or 403, it is asked once, and the
  -- caller gets the sentinel error itself.
  pub get_refused :
      (tr : Trace) (r : Response)
      → env.build_request url ≡ none
      → env.http_answer tr url ≡ ok r
      → (r.status ≡ 429) ⊎ (r.status ≡ 403)
      → (requests (get env url tr).1 ≡ requests tr + 1)
        × (((r.status ≡ 429) × ((get env url tr).0 ≡ err (sentinel rate_limited)))
            ⊎ ((r.status ≡ 403) × ((get env url tr).0 ≡ err (sentinel forbidden))))
  unfolding get
  get_refused tr r built answered refused = ground arith
