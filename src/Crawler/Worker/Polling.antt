-- ===== src/Crawler/Worker/Polling.antt =====
-- What becomes of a worker that the limiter has turned away (internal/crawler/worker.go,
-- respectRateLimit, with pkg/redis/rate_limiter.go below it).
use jobcrawler.Base.{ℕ, zero, suc, ◌+◌, ◌-◌, ◌≤◌, ◌≡◌, none, List, ◌∷◌, arith, refl, ◌∙◌}
use text.Mathlib.TextPositions.{eq_refl}
use jobcrawler.World.Errors.{ok}
use jobcrawler.World.{Env, Trace, Command, pipeline, wait}
use jobcrawler.Domain.{JobSource}
use jobcrawler.Redis.Keys.{key_rate_limit_crawler}
use jobcrawler.Redis.RateLimiter.{allow, request_commands, card_reply, member_of}
use jobcrawler.Redis.RateLimiter.Window.{
  recorded, NotRemoved, NotRemoved-mono, KeepsEntries, ClockForward,
}
use jobcrawler.Crawler.Interfaces.{redis_limiter}
use jobcrawler.Crawler.Worker.{CrawlerWorker, respect_rate_limit, poll_outcome}

-- The worker with the limiter of pkg/redis.
abbrev pub limited_by_redis : Env → (Trace → ℕ) → CrawlerWorker → CrawlerWorker
limited_by_redis env nanos w = record w { limiter = redis_limiter env nanos }

-- Redis answers every pipeline, the context is never cancelled, and a worker that waits 500 ms asks
-- again within the two seconds of the window.
pub record KeepsPolling (env : Env) : Type 0 where
  pub replies : Trace → List Command → List ℕ
  pub answers : (tr : Trace) (cs : List Command) → env.pipeline_answer tr cs ≡ ok (replies tr cs)
  pub running : (tr : Trace) → env.wait_answer tr 500 ≡ none
  pub prompt :
      (tr : Trace) (cs : List Command)
      → env.clock (wait 500 ∷ pipeline cs ∷ tr) ≤ env.clock tr + 2000

-- A request of the last two seconds is on record, and nothing of them was removed.
pub record IsBusy (env : Env) (source : JobSource) (tr : Trace) : Type 0 where
  pub kept : NotRemoved (key_rate_limit_crawler source) (env.clock tr - 2000) tr
  pub recent : 1 ≤ recorded env (key_rate_limit_crawler source) (env.clock tr - 2000) tr

module _ (env : Env) (nanos : Trace → ℕ) (w : CrawlerWorker) (forward : ClockForward env)
    (keeps : KeepsEntries env) (polling : KeepsPolling env) (source : JobSource) where
  abbrev asked : Trace → List Command
  asked tr = request_commands env (key_rate_limit_crawler source) 2000 (nanos tr) tr

  abbrev next : Trace → Trace
  next tr = wait 500 ∷ pipeline (asked tr) ∷ tr

  IsBusy-turned_away :
      (tr : Trace) → IsBusy env source tr → 1 ≤ card_reply (polling.replies tr (asked tr))
  IsBusy-turned_away tr b =
      let key = key_rate_limit_crawler source in
      let at = env.clock tr in
      omega (
        arith,
        b.recent,
        keeps.counted tr key (at - 2000) at 3000 (member_of at (nanos tr))
            (polling.replies tr (asked tr)) b.kept (polling.answers tr (asked tr)),
      )

  -- The request that was turned away is itself on record at the next question.
  IsBusy-next : (tr : Trace) → IsBusy env source tr → IsBusy env source (next tr)
  IsBusy-next tr b =
      let key = key_rate_limit_crawler source in
      let asking = forward.later (pipeline (asked tr)) tr in
      let waiting = forward.later (wait 500) (pipeline (asked tr) ∷ tr) in
      record {
        kept = (
          ground (arith, eq_refl key),
          NotRemoved-mono key (env.clock tr - 2000) (env.clock (next tr) - 2000) tr (omega arith)
              b.kept,
        );
        recent =
            ground
              (arith, eq_refl key, polling.answers tr (asked tr), polling.prompt tr (asked tr));
      }

  -- A question that is answered by a count of at least one is followed by a wait and the next one.
  respect_rate_limit_again :
      (polls : ℕ) (tr : Trace)
      → 1 ≤ card_reply (polling.replies tr (asked tr))
      → (respect_rate_limit env (limited_by_redis env nanos w) (suc polls) source tr).0
        ≡ (respect_rate_limit env (limited_by_redis env nanos w) polls source (next tr)).0
  unfolding respect_rate_limit allow poll_outcome
  respect_rate_limit_again polls tr h =
      ground (arith, polling.answers tr (asked tr), polling.running (pipeline (asked tr) ∷ tr))

  -- Once a request of the last two seconds is on record, the limiter never lets the worker
  -- through, for any number of polls: given a clock that does not run back, a Redis that answers
  -- and keeps its entries, a context that is not cancelled and polls less than two seconds apart.
  pub respect_rate_limit_starves :
      (polls : ℕ) (tr : Trace)
      → IsBusy env source tr
      → (respect_rate_limit env (limited_by_redis env nanos w) polls source tr).0 ≡ none
  unfolding respect_rate_limit
  respect_rate_limit_starves zero tr b = refl
  respect_rate_limit_starves (suc polls) tr b =
      respect_rate_limit_again polls tr (IsBusy-turned_away tr b)
      ∙ respect_rate_limit_starves polls (next tr) (IsBusy-next tr b)
