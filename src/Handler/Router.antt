-- ===== src/Handler/Router.antt =====
-- internal/handler/router.go, and of internal/handler/middleware: request_id.go, logger.go, tracing.go
-- and metrics.go. A handler makes calls and leaves what it did to the response, with what the
-- middlewares record; chi runs the middlewares of a router in front of its routes, the first that was
-- used outermost. The middlewares of chi and cors, the routes, the ids of requests and of traces are
-- arguments.
pub mod Rejected
use jobcrawler.Base.{
  ℕ, ◌+◌, String, Bool, true, false, Option, none, some, List, [], ◌∷◌, ◌++◌, str_eq, leb, decimal,
  if◌then◌else◌,
}
use jobcrawler.World.Errors.{Err}
use jobcrawler.World.{Env, Io, Trace}
use jobcrawler.Redis.Keys.{key_rate_limit_api}
use jobcrawler.Handler.Middleware.{Limited, served, rejected, rate_limited_handler}

pub record Request : Type 0 where
  pub method : String
  pub path : String
  pub header : String → String
  pub remote_addr : String
  pub request_id : String

-- What is done to the response, where a rejection is the JSON text with its seconds, and what the log, the span and the histogram get of it.
pub data Event : Type 0 where
  set_header : String → String → Event
  write_header : ℕ → Event
  write : String → Event
  write_rejection : ℕ → Event
  logged : String → ℕ → Event
  span_ended : ℕ → Bool → Event
  observed : String → String → ℕ → Event

abbrev pub Handler : Type 0
Handler = Request → Io (List Event)

-- responseWriter.statusCode, from what it was.
unfoldable pub status_code : ℕ → List Event → ℕ
status_code code [] = code
status_code code (e ∷ es) = elim e [ write_header n ↦ status_code n es | _ ↦ status_code code es ]

-- RequestID
unfoldable pub request_id : (Trace → String) → Handler → Handler
request_id uuid next r tr =
    let sent = r.header "X-Request-ID" in
    let id = if str_eq sent "" then uuid tr else sent in
    let (es, tr') = next (record r { request_id = id }) tr in
    (set_header "X-Request-ID" id ∷ es, tr')

-- TracingMiddleware, of the trace id of the span that it starts, which is "" without a valid one.
unfoldable pub tracing : (Request → Trace → String) → Handler → Handler
tracing trace_id next r tr =
    let id = trace_id r tr in
    let (es, tr') = next r tr in
    let code = status_code 200 es in
    (
      (if str_eq id "" then [] else set_header "X-Trace-ID" id ∷ [])
          ++ (es ++ (span_ended code (leb 500 code) ∷ [])),
      tr',
    )

-- Logger
unfoldable pub logger : Handler → Handler
logger next r tr =
    let (es, tr') = next r tr in (es ++ (logged r.request_id (status_code 200 es) ∷ []), tr')

-- MetricsMiddleware
unfoldable pub metrics : Handler → Handler
metrics next r tr =
    let (es, tr') = next r tr in (es ++ (observed r.method r.path (status_code 200 es) ∷ []), tr')

-- What RateLimitMiddleware answers to a request over the limit.
abbrev pub limited_events : ℕ → Limited (List Event) → List Event
limited_events limit (served es) = es
limited_events limit (rejected seconds) =
    set_header "Content-Type" "application/json; charset=utf-8"
    ∷ set_header "Retry-After" (decimal seconds)
    ∷ set_header "X-RateLimit-Limit" (decimal limit)
    ∷ write_header 429
    ∷ write_rejection seconds
    ∷ []

module _ (env : Env) (nanos : Trace → ℕ) (address : Request → String) (limit window : ℕ) where
  -- RateLimitMiddleware as a middleware, of the client's address.
  unfoldable pub rate_limit : Handler → Handler
  rate_limit next r tr =
      let (answer, tr') = rate_limited_handler env nanos (next r) limit window (address r) tr in
      (limited_events limit answer, tr')

-- The middlewares of chi and cors.
pub record Foreign : Type 0 where
  pub real_ip : Handler → Handler
  pub recoverer : Handler → Handler
  pub cors : Handler → Handler
  pub timeout : Handler → Handler

-- Use, for each in turn: the first is the outermost.
unfoldable pub use_all : List (Handler → Handler) → Handler → Handler
use_all [] h = h
use_all (mw ∷ mws) h = mw (use_all mws h)

abbrev pub limiter_of : Option (Handler → Handler) → List (Handler → Handler)
limiter_of none = []
limiter_of (some mw) = mw ∷ []

-- NewRouter: `routes` answers all that is registered, the observability endpoints included.
unfoldable pub new_router :
    (Trace → String)
    → (Request → Trace → String)
    → Foreign
    → Option (Handler → Handler)
    → Handler
    → Handler
unfolding use_all
new_router uuid trace_id foreign limiter routes =
    use_all
      (request_id uuid
        ∷ foreign.real_ip
        ∷ tracing trace_id
        ∷ logger
        ∷ metrics
        ∷ foreign.recoverer
        ∷ foreign.cors
        ∷ foreign.timeout
        ∷ limiter_of limiter)
      routes
