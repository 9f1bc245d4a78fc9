-- ===== src/Httputil/Client.antt =====
-- pkg/httputil/crawler_client.go. The transport (TLS, cookies, redirects) is one call of the
-- environment; its answer's body is what ReadAll yields of the limited reader. Times are in
-- milliseconds.
pub mod Attempts
pub mod Silence
use jobcrawler.Base.{
  ℕ, ◌+◌, ◌/◌, ◌<◌, String, Bool, true, false, Option, none, some, List, [], ◌∷◌, ◌==◌, ltb, leb,
  ◌||◌, ◌&&◌, not, ◌⧺◌, decimal, contains, if◌then◌else◌,
}
use jobcrawler.World.Errors.{
  Err, sentinel, failure, wrap, rank, Sentinel, rate_limited, forbidden, Result, ok, err,
}
use jobcrawler.World.{Env, Io, Response, Trace, http_do, wait, perform}

-- err == target, which does not look into wrapped errors.
abbrev pub is_exactly : Err → Sentinel → Bool
is_exactly (sentinel s) t = rank s == rank t
is_exactly (failure _) t = false
is_exactly (wrap _ _) t = false

-- The body as read.
abbrev pub read_body : Result String → Result String
read_body (ok body) = ok body
read_body (err e) = err (wrap "read body: " e)

-- The status checks of doGet.
abbrev pub check_response : String → Result Response → Result String
check_response url (err e) = err (wrap "http do: " e)
check_response url (ok r) =
    if r.status == 429
    then err (sentinel rate_limited)
    else if r.status == 403
    then err (sentinel forbidden)
    else if ltb r.status 200 || leb 300 r.status
    then err (failure ("unexpected status " ⧺ (decimal r.status ⧺ (" for " ⧺ url))))
    else read_body r.body

abbrev pub is_final : Err → Bool
is_final e = is_exactly e rate_limited || is_exactly e forbidden

abbrev pub delays : List ℕ
delays = 1000 ∷ 2000 ∷ 4000 ∷ []

abbrev pub exhausted : String → Err → Err
exhausted url e = wrap ("get " ⧺ (url ⧺ ": all retries exhausted: ")) e

module _ (env : Env) where
  send : String → Option Err → Io (Result String)
  send url (some e) tr = (err (wrap "build request: " e), tr)
  send url none tr =
      let (r, tr') = perform (http_do url) (λ t. env.http_answer t url) tr in
      (check_response url r, tr')

  -- CrawlerClient.doGet: one request.
  pub do_get : String → Io (Result String)
  unfolding send
  do_get url = send url (env.build_request url)

  pause : ℕ → Io (Option Err)
  pause delay tr =
      let jitter = env.rand tr (delay / 5) in
      perform (wait (delay + jitter)) (λ t. env.wait_answer t (delay + jitter)) tr

  resume : Option Err → Io (Result String) → Io (Result String)
  resume (some e) rest tr = (err e, tr)
  resume none rest tr = rest tr

  -- After an attempt that may be retried: the last one ends the loop, the others wait first.
  retry_after : String → ℕ → List ℕ → Err → Io (Result String) → Io (Result String)
  unfolding resume pause
  retry_after url delay [] e rest tr = (err (exhausted url e), tr)
  retry_after url delay (_ ∷ _) e rest tr =
      let (cancelled, tr') = pause delay tr in resume cancelled rest tr'

  -- The result of one attempt: a body, a final refusal, or an error that may be retried.
  judge : String → ℕ → List ℕ → Io (Result String) → Result String → Io (Result String)
  unfolding retry_after
  judge url delay more rest (ok body) tr = (ok body, tr)
  judge url delay more rest (err e) tr =
      if is_final e then (err e, tr) else retry_after url delay more e rest tr

  -- The loop of Get over the delays that are left.
  get_loop : String → List ℕ → Io (Result String)
  unfolding judge do_get
  get_loop url [] tr = (err (failure ""), tr)
  get_loop url (delay ∷ more) tr =
      let rest = λ (t : Trace). get_loop url more t in
      let (r, tr') = do_get url tr in judge url delay more rest r tr'

  -- CrawlerClient.Get
  unfoldable pub get : String → Io (Result String)
  unfolding get_loop
  get url = get_loop url delays

-- isChromiumUA, of a user agent in lower case
unfoldable pub is_chromium_ua : String → Bool
is_chromium_ua low =
    if contains low "firefox"
    then false
    else if contains low "safari" && (not (contains low "chrome") && not (contains low "edg"))
    then false
    else contains low "chrome"
      || (contains low "chromium" || (contains low "edg" || contains low "opr"))
