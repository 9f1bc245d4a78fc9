-- ===== src/Cmd/Api/Leaks.antt =====
-- The pools and clients that cmd/api/main.go opens, and those that its hooks close.
use mathlib.Core.List.{Permᴰ}
use jobcrawler.Base.{
  ℕ, zero, suc, ◌+◌, ◌≡◌, String, Bool, true, false, Option, none, some, List, [], ◌∷◌, ◌++◌, count,
  refl, subst, ◌⧺◌, arith, inl, inr, Option-cases, ◌∙◌,
}
use jobcrawler.World.Errors.{Err}
use jobcrawler.World.{Trace}
use jobcrawler.Config.{Viper, load}
use jobcrawler.Startup.{Event, attempts_from, with_pause, connect_with_retry}
use jobcrawler.Startup.Attempts.{tried_once, tried_on}
use jobcrawler.Shutdown.{Hook, State, new, returned, Steps}
use jobcrawler.Shutdown.Reached.{done_hooks, shutdown_accounted}
use jobcrawler.Cmd.{
  Resource, postgres, redis, Act, slept, opens, closes, push_all, Process, ended, listening, begun,
  or_exit, act, done_or_exit, readiness_set, run_main,
}
use jobcrawler.Cmd.Accounts.{count-push_all}
use jobcrawler.Cmd.Gains.{
  Gains, Gains-bind, Gains-done_or_exit, Gains-balanced, Gains-or_exit, Gains-act,
}
use jobcrawler.Cmd.Connections.{new_db, new_client, run_migrations}
use jobcrawler.Cmd.Connections.Released.{
  held, Leaves, new_db-Leaves, new_client-Leaves, run_migrations-IsReleased,
}
use jobcrawler.Cmd.Api.{
  event_acts, connected, Services, api_hooks, hook_acts, all_hook_acts, print_int, main,
}

count-append : (t : Act → Bool) (xs ys : List Act) → count t (xs ++ ys) ≡ count t xs + count t ys
count-append t [] ys = omega arith
count-append t (x ∷ xs) ys = ground (arith, count-append t xs ys)

module _ (r : Resource) (call : ℕ → Option Err × List Act)
    (leaves : (k : ℕ) → Leaves (held r (call k).0) (call k).1) (name : String)
    (max_attempts : ℕ) where
  abbrev run_from : ℕ → ℕ → Option Err × List Event
  run_from = attempts_from (λ k. (call k).0) name max_attempts

  after_pause :
      (t : Act → Bool) (attempt : ℕ) (events : List Event)
      → t (slept 2000) ≡ false
      → count t (event_acts call (with_pause attempt max_attempts events))
        ≡ count t (event_acts call events)
  unfolding event_acts
  after_pause t attempt events h = ground arith

  -- One resource is left by a run of attempts that succeeds, and none by one that fails.
  attempts-Leaves :
      (attempt left : ℕ)
      → Leaves (held r (run_from attempt left).0) (event_acts call (run_from attempt left).1)
  unfolding attempts_from event_acts
  attempts-Leaves attempt zero s = refl
  attempts-Leaves attempt (suc left) s = elim (Option-cases (call attempt).0) [
    | inl fine ↦ rw (tried_once (λ k. (call k).0) name max_attempts attempt left fine) (
        omega (
          arith,
          rw fine at (leaves attempt s),
          count-append (opens s) (call attempt).1 [],
          count-append (closes s) (call attempt).1 [],
        ))
    | inr (e, failed) ↦
        let rest = run_from (attempt + 1) left in
        let later = event_acts call (with_pause attempt max_attempts rest.1) in
        rw (tried_on (λ k. (call k).0) name max_attempts attempt left e failed) (
          omega (
            arith,
            rw failed at (leaves attempt s),
            count-append (opens s) (call attempt).1 later,
            count-append (closes s) (call attempt).1 later,
            after_pause (opens s) attempt rest.1 refl,
            after_pause (closes s) attempt rest.1 refl,
            attempts-Leaves (attempt + 1) left s,
          ))
  ]

pub connected-Leaves :
    (r : Resource) (name : String) (call : ℕ → Option Err × List Act)
    → ((k : ℕ) → Leaves (held r (call k).0) (call k).1)
    → Leaves (held r (connected name call).0) (connected name call).1
unfolding connected connect_with_retry
connected-Leaves r name call leaves = attempts-Leaves r call leaves name 10 1 10

count-all_hook_acts :
    (t : Act → Bool) (hs gs : List Hook)
    → Permᴰ hs gs
    → count t (all_hook_acts hs) ≡ count t (all_hook_acts gs)
unfolding all_hook_acts
count-all_hook_acts t _ _ Permᴰ.nil = refl
count-all_hook_acts t _ _ (Permᴰ.cons {a = h} {b = g} {l₁ = hs} {l₂ = gs} e p) = rw e (
    omega (
      arith,
      count-append t (hook_acts g) (all_hook_acts hs),
      count-append t (hook_acts g) (all_hook_acts gs),
      count-all_hook_acts t hs gs p,
    ))
count-all_hook_acts t _ _ (Permᴰ.swap {a = h} {b = g} {a' = g'} {b' = h'} {l = hs} e f) =
    rw (e, f)
      (omega (
        arith,
        count-append t (hook_acts h') (hook_acts g' ++ all_hook_acts hs),
        count-append t (hook_acts g') (hook_acts h' ++ all_hook_acts hs),
        count-append t (hook_acts g') (all_hook_acts hs),
        count-append t (hook_acts h') (all_hook_acts hs),
      ))
count-all_hook_acts t hs ks (Permᴰ.trans {l₂ = gs} p q) =
    count-all_hook_acts t hs gs p ∙ count-all_hook_acts t gs ks q

-- What main has open when it waits for the signal.
abbrev pub held_twice : Resource → ℕ
held_twice r =
    0
    + (held postgres none r
        + (held postgres none r + (0 + (held redis none r + (held redis none r + (0 + 0))))))

module _ (viper : Viper) (services : Services) where
  main-Gains : Gains held_twice (main viper services)
  unfolding main
  main-Gains = Gains-bind _ _ (or_exit (load viper)) _ (Gains-or_exit (load viper)) (λ cfg.
      let db = connected "postgres" (λ k. new_db cfg.database (services.db_at k)) in
      let db2 = new_db cfg.database services.db_again in
      let schema = run_migrations services.migrate cfg.database.dsn "./migrations" in
      let client = connected "redis" (λ k. new_client cfg.redis (services.redis_at k)) in
      let client2 = new_client cfg.redis services.redis_again in
      Gains-bind _ _ (done_or_exit db) _
        (Gains-done_or_exit postgres db (
          connected-Leaves postgres "postgres" _
            (λ k. new_db-Leaves cfg.database (services.db_at k))))
        (λ _.
          Gains-bind _ _ (done_or_exit db2) _
            (Gains-done_or_exit postgres db2 (new_db-Leaves cfg.database services.db_again))
            (λ _.
              Gains-bind _ _ (done_or_exit schema) _
                (Gains-balanced schema
                  (run_migrations-IsReleased services.migrate cfg.database.dsn "./migrations"))
                (λ _.
                  Gains-bind _ _ (done_or_exit client) _
                    (Gains-done_or_exit redis client (
                      connected-Leaves redis "redis" _
                        (λ k. new_client-Leaves cfg.redis (services.redis_at k))))
                    (λ _.
                      Gains-bind _ _ (done_or_exit client2) _
                        (Gains-done_or_exit redis client2
                          (new_client-Leaves cfg.redis services.redis_again))
                        (λ _.
                          Gains-bind _ _ (act (readiness_set true)) _
                            (Gains-act _ (λ r. (refl, refl)))
                            (λ _.
                              Gains-act
                                (listening (cfg.server.host ⧺ (":" ⧺ print_int cfg.server.port)))
                                (λ r. (refl, refl)))))))))

  goes_on :
      (tr : Trace)
      → (run_main (main viper services) tr).0 ≡ 0
      → (a : Unit {0}) × ((main viper services (begun tr)).0 ≡ some a)
  goes_on tr up = elim (Option-cases (main viper services (begun tr)).0) [
    | inl exits ↦ absurd (ground arith)
    | inr (a, goes) ↦ (a, goes)
  ]

  -- Two of the resource are open, and the hooks close one.
  left_by_hooks :
      (s : State) (p : Process) (r : Resource)
      → held_twice r + count (opens r) (all_hook_acts api_hooks)
        ≡ count (closes r) (all_hook_acts api_hooks) + 1
      → Permᴰ (done_hooks s) api_hooks
      → count (opens r) p.acts + 0 ≡ count (closes r) p.acts + 0 + held_twice r
      → count (opens r) (push_all (all_hook_acts (done_hooks s)) p.acts)
        ≡ count (closes r) (push_all (all_hook_acts (done_hooks s)) p.acts) + 1
  left_by_hooks s p r two done left = omega (
    arith,
    two,
    left,
    count-push_all (opens r) (all_hook_acts (done_hooks s)) p.acts,
    count-push_all (closes r) (all_hook_acts (done_hooks s)) p.acts,
    count-all_hook_acts (opens r) (done_hooks s) api_hooks done,
    count-all_hook_acts (closes r) (done_hooks s) api_hooks done,
  )

  -- The acts of a process whose main has waited for the signal, and whose hooks have returned.
  abbrev pub acts_after : State → Trace → List Act
  acts_after s tr =
      push_all (all_hook_acts (done_hooks s)) (run_main (main viper services) tr).1.acts

  -- Where the API comes up, and all its hooks have returned in whatever order, one pool of Postgres and
  -- one client of Redis are still open: those of the attempts of connectWithRetry that succeeded.
  pub main_leaks :
      (tr : Trace) (s : State)
      → (run_main (main viper services) tr).0 ≡ 0
      → Steps new s
      → s.copied ≡ api_hooks
      → s.phase ≡ returned true
      → (count (opens postgres) (acts_after s tr) ≡ count (closes postgres) (acts_after s tr) + 1)
        × (count (opens redis) (acts_after s tr) ≡ count (closes redis) (acts_after s tr) + 1)
  main_leaks tr s up steps copied clean =
      let p = (main viper services (begun tr)).1 in
      let done =
        subst (λ hs. Permᴰ (done_hooks s) hs) copied ((shutdown_accounted s steps).1 clean) in
      let (a, goes) = goes_on tr up in
      let same : (run_main (main viper services) tr).1.acts ≡ p.acts =
        rw (goes, ended, main-Gains.undeferred (begun tr)) refl in
      rw same (
        left_by_hooks s p postgres (unfold all_hook_acts in refl) done
            (main-Gains.gained (begun tr) a postgres goes),
        left_by_hooks s p redis (unfold all_hook_acts in refl) done
            (main-Gains.gained (begun tr) a redis goes),
      )
