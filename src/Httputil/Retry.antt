-- ===== src/Httputil/Retry.antt =====
-- pkg/httputil/retry.go: RetryDo over any action that may fail. Times are in milliseconds; the back-off
-- is doubled with each round, and the source's 64-bit durations are taken as unbounded numbers.
use jobcrawler.Base.{ℕ, zero, suc, ◌+◌, ◌*◌, ◌/◌, ◌≤◌, Option, none, some, ◌∷◌, arith}
use jobcrawler.World.Errors.{Err}
use jobcrawler.World.{Env, Io, Trace, wait, perform}

module _ (env : Env) (ctx_err : Trace → Option Err) (fn : Io (Option Err)) where
  sleep : ℕ → Io (Option Err)
  sleep backoff tr =
      let jitter = env.rand tr (backoff / 5) in
      perform (wait (backoff + jitter)) (λ t. env.wait_answer t (backoff + jitter)) tr

  proceed : Option Err → Io (Option Err) → Io (Option Err)
  proceed (some e) rest tr = (some e, tr)
  proceed none rest tr = rest tr

  -- What follows a call of `fn`; `left` counts the attempts after it.
  after_call : Option Err → ℕ → ℕ → Io (Option Err) → Io (Option Err)
  unfolding sleep proceed
  after_call none left backoff rest tr = (none, tr)
  after_call (some e) zero backoff rest tr = (some e, tr)
  after_call (some e) (suc left) backoff rest tr =
      let (stopped, tr') = sleep backoff tr in proceed stopped rest tr'

  attempt : Option Err → ℕ → ℕ → Io (Option Err) → Io (Option Err)
  unfolding after_call
  attempt (some e) left backoff rest tr = (some e, tr)
  attempt none left backoff rest tr = let (r, tr') = fn tr in after_call r left backoff rest tr'

  retry_loop : ℕ → ℕ → Io (Option Err)
  unfolding attempt
  retry_loop zero backoff tr = (none, tr)
  retry_loop (suc left) backoff tr =
      let rest = λ (t : Trace). retry_loop left (backoff * 2) t in
      attempt (ctx_err tr) left backoff rest tr

  -- RetryDo
  unfoldable pub retry_do : ℕ → ℕ → Io (Option Err)
  unfolding retry_loop
  retry_do attempts delay = retry_loop attempts delay

  -- A measure of the trace that `fn` raises by at most one and that waiting does not raise.
  module _ (measure : Trace → ℕ) (step : (tr : Trace) → measure (fn tr).1 ≤ measure tr + 1)
      (idle : (d : ℕ) (tr : Trace) → measure (wait d ∷ tr) ≤ measure tr) where
    measure-after_call :
        (r : Option Err) (left n backoff : ℕ) (rest : Io (Option Err)) (tr : Trace)
        → ((t : Trace) → measure (rest t).1 ≤ measure t + n)
        → measure (after_call r left backoff rest tr).1 ≤ measure tr + n
    unfolding after_call
    measure-after_call none left n backoff rest tr h = omega arith
    measure-after_call (some e) zero n backoff rest tr h = omega arith
    measure-after_call (some e) (suc left) n backoff rest tr h =
        let d = backoff + env.rand tr (backoff / 5) in ground (arith, idle d tr, h (wait d ∷ tr))

    retry_loop_bound :
        (attempts backoff : ℕ) (tr : Trace)
        → measure (retry_loop attempts backoff tr).1 ≤ measure tr + attempts
    unfolding retry_loop
    retry_loop_bound zero backoff tr = omega arith
    retry_loop_bound (suc left) backoff tr = ground (
      arith,
      step tr,
      measure-after_call (fn tr).0 left left backoff (retry_loop left (backoff * 2)) (fn tr).1
          (retry_loop_bound left (backoff * 2)),
    )

    -- What `fn` does at most once, RetryDo does at most `attempts` times: a measure that `fn` raises
    -- by at most one and that waiting does not raise grows by at most the number of attempts.
    pub retry_do_bound :
        (attempts delay : ℕ) (tr : Trace)
        → measure (retry_do attempts delay tr).1 ≤ measure tr + attempts
    unfolding retry_do
    retry_do_bound attempts delay tr = retry_loop_bound attempts delay tr
