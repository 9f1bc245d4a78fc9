-- ===== src/Handler/Router/Rejected.antt =====
-- What the rate limit does behind the router of internal/handler/router.go.
use mathlib.Core.Path.{fun_ext}
use jobcrawler.Base.{
  ℕ, ◌/◌, ◌≤◌, ◌<◌, String, ◌≡◌, inl, inr, some, List, [], ◌∷◌, arith, refl, ap, sym, ◌∙◌,
}
use jobcrawler.World.Errors.{Err, ok, err}
use jobcrawler.World.{Env, Trace, Command}
use jobcrawler.Redis.RateLimiter.{card_reply, request_commands}
use jobcrawler.Redis.Keys.{key_rate_limit_api}
use jobcrawler.Handler.Middleware.{rejected}
use jobcrawler.Handler.Middleware.Limiting.{asked, rate_limited_handler_decides}
use jobcrawler.Handler.Router.{
  Request, Handler, Foreign, status_code, limited_events, rate_limit, use_all, new_router,
  request_id, tracing, logger, metrics,
}

-- Redis answers, and counts as many requests as the limit allows or more.
abbrev pub IsFull : Env → ℕ → Type 0
IsFull env limit =
    (tr : Trace) (cs : List Command)
    → (rs : List ℕ) × (env.pipeline_answer tr cs ≡ ok rs) × (limit ≤ card_reply rs)

module _ (env : Env) (nanos : Trace → ℕ) (address : Request → String) (limit window : ℕ)
    (full : IsFull env limit) where
  abbrev asks : String → Trace → List Command
  asks ip tr = request_commands env (key_rate_limit_api ip) window (nanos tr) tr

  never_fails :
      (ip : String) (tr : Trace) (e : Err) → env.pipeline_answer tr (asks ip tr) ≡ err e → ⊥
  never_fails ip tr e failed = let (rs, counted, above) = full tr (asks ip tr) in ground arith

  never_below :
      (ip : String) (tr : Trace) (rs : List ℕ)
      → env.pipeline_answer tr (asks ip tr) ≡ ok rs
      → card_reply rs < limit
      → ⊥
  never_below ip tr rs counted below =
      let (qs, found, above) = full tr (asks ip tr) in
      let same : qs ≡ rs = ap (λ r. elim r [ ok x ↦ x | err e ↦ qs ]) (sym found ∙ counted) in
      ground (arith, ap card_reply same)

  rate_limit-rejected :
      (next : Handler) (r : Request) (tr : Trace)
      → rate_limit env nanos address limit window next r tr ≡ (
        limited_events limit (rejected (window / 1000)),
        asked env nanos (next r) limit window (address r) tr,
      )
  unfolding rate_limit
  rate_limit-rejected next r tr =
      elim (rate_limited_handler_decides env nanos (next r) limit window (address r) tr) [
        | inl s ↦ absurd (elim s.reason [
          | inl (e, failed) ↦ never_fails (address r) tr e failed
          | inr (rs, counted, below) ↦ never_below (address r) tr rs counted below
        ])
        | inr rej ↦ rw (rate_limit, rej.answer) refl
      ]

  same_rejection :
      (a b : Handler)
      → rate_limit env nanos address limit window a ≡ rate_limit env nanos address limit window b
  same_rejection a b =
      fun_ext (λ r. fun_ext (λ tr. rate_limit-rejected a r tr ∙ sym (rate_limit-rejected b r tr)))

  -- While Redis counts as many requests as the limit allows, the router answers every request alike,
  -- whatever its routes are, those for /health, /ready and /metrics among them: the rate limit stands
  -- in front of all routes, and what it leaves to the other middlewares is the status 429.
  pub new_router_limited :
      (uuid : Trace → String) (trace_id : Request → Trace → String) (foreign : Foreign)
      (routes others : Handler)
      → (new_router uuid trace_id foreign (some (rate_limit env nanos address limit window)) routes
          ≡ new_router uuid trace_id foreign
              (some (rate_limit env nanos address limit window))
              others)
        × ((r : Request) (tr : Trace)
            → status_code 200 (rate_limit env nanos address limit window routes r tr).0 ≡ 429)
  unfolding new_router use_all status_code
  new_router_limited uuid trace_id foreign routes others = (
    ap
        (λ h.
          use_all
            (request_id uuid
              ∷ foreign.real_ip
              ∷ tracing trace_id
              ∷ logger
              ∷ metrics
              ∷ foreign.recoverer
              ∷ foreign.cors
              ∷ foreign.timeout
              ∷ (λ _. h)
              ∷ [])
            routes)
        (same_rejection routes others),
    λ r tr. rw (rate_limit-rejected routes r tr) refl,
  )
