-- ===== src/Shutdown/Reached.antt =====
-- What holds in every state that pkg/shutdown/shutdown.go reaches.
use mathlib.Core.List.{Permᴰ, Memᴰ}
use mathlib.Core.List.Permᴰ as Perm
use jobcrawler.Base.{
  ◌≡◌, ◌≢◌, true, Option, List, [], ◌∷◌, ◌++◌, map, refl, sym, ap, ◌∙◌, subst, arith,
}
use jobcrawler.World.Errors.{Err}
use jobcrawler.Shutdown.{
  Hook, listening, draining, returned, State, new, complete, return_with, Step, registered,
  signalled, completed, all_done, timed_out, Steps, stop, step,
}

abbrev pub done_hooks : State → List Hook
done_hooks s = map (λ r. r.0) s.finished

-- Each copied hook either runs or has its result, and none does twice.
pub record IsConsistent (s : State) : Type 0 where
  pub accounted : Permᴰ (s.running ++ done_hooks s) s.copied
  pub idle : s.phase ≡ listening → (s.running ≡ []) × (s.finished ≡ [])
  pub clean : s.phase ≡ returned true → s.running ≡ []

moved :
    (xs ys done : List Hook) (h : Hook)
    → Permᴰ ((xs ++ ys) ++ (h ∷ done)) ((xs ++ (h ∷ ys)) ++ done)
moved xs ys done h =
    Permᴰ.trans (Perm.middle h (xs ++ ys) done)
      (Perm.symm (Perm.append_right done (Perm.middle h xs ys)))

append-cons≢nil : (xs ys : List Hook) (h : Hook) → xs ++ (h ∷ ys) ≢ []
append-cons≢nil [] ys h e = ground arith
append-cons≢nil (x ∷ xs) ys h e = ground arith

pub Step-IsConsistent : (s t : State) → Step s t → IsConsistent s → IsConsistent t
Step-IsConsistent _ _ (registered s h) c = record {
  accounted = c.accounted;
  idle = c.idle;
  clean = c.clean;
}
Step-IsConsistent _ _ (signalled s e) c = record {
  accounted = rw ((c.idle e).1) (Perm.append-nil s.hooks);
  idle = λ h. ground arith;
  clean = λ h. ground arith;
}
Step-IsConsistent _ _ (completed s xs ys h result e) c = record {
  accounted =
      Permᴰ.trans (moved xs ys (done_hooks s) h)
        (subst (λ r. Permᴰ (r ++ done_hooks s) s.copied) e c.accounted);
  idle = λ k. absurd (append-cons≢nil xs ys h (sym e ∙ (c.idle k).0));
  clean = λ k. absurd (append-cons≢nil xs ys h (sym e ∙ c.clean k));
}
Step-IsConsistent _ _ (all_done s e k) c = record {
  accounted = c.accounted;
  idle = λ h. ground arith;
  clean = λ h. k;
}
Step-IsConsistent _ _ (timed_out s e) c = record {
  accounted = c.accounted;
  idle = λ h. ground arith;
  clean = λ h. ground arith;
}

pub Steps-IsConsistent : (s t : State) → Steps s t → IsConsistent s → IsConsistent t
Steps-IsConsistent _ _ (stop s) c = c
Steps-IsConsistent s u (step {t = t} first rest) c =
    Steps-IsConsistent t u rest (Step-IsConsistent s t first c)

new-IsConsistent : IsConsistent new
new-IsConsistent = record { accounted = Permᴰ.nil; idle = λ _. (refl, refl); clean = λ _. refl }

-- In every state that a run from the empty registry reaches, in whatever order hooks are registered,
-- return and time out, each hook that was copied at the signal either still runs or has one result;
-- and where ListenAndShutdown has returned without the timeout, each has its result.
pub shutdown_accounted :
    (s : State)
    → Steps new s
    → Permᴰ (s.running ++ done_hooks s) s.copied
      × (s.phase ≡ returned true → Permᴰ (done_hooks s) s.copied)
shutdown_accounted s run =
    let c = Steps-IsConsistent new s run new-IsConsistent in
    (c.accounted, λ k. subst (λ r. Permᴰ (r ++ done_hooks s) s.copied) (c.clean k) c.accounted)

-- The state once the hooks of a list have returned.
abbrev pub after_all : (Hook → Option Err) → List Hook → State → State
after_all result [] s = s
after_all result (h ∷ hs) s = after_all result hs (complete h (result h) hs s)

Steps-all :
    (result : Hook → Option Err) (hs : List Hook) (s : State)
    → s.running ≡ hs
    → Steps s (after_all result hs s)
Steps-all result [] s e = stop s
Steps-all result (h ∷ hs) s e =
    step (completed s [] hs h (result h) e) (Steps-all result hs (complete h (result h) hs s) refl)

Steps-join : (s t u : State) → Steps s t → Steps t u → Steps s u
Steps-join _ _ u (stop s) r = r
Steps-join s t u (step {t = m} first rest) r = step first (Steps-join m t u rest r)

after_all-phase :
    (result : Hook → Option Err) (hs : List Hook) (s : State)
    → (after_all result hs s).phase ≡ s.phase
after_all-phase result [] s = refl
after_all-phase result (h ∷ hs) s = after_all-phase result hs (complete h (result h) hs s)

after_all-running :
    (result : Hook → Option Err) (hs : List Hook) (s : State)
    → s.running ≡ hs
    → (after_all result hs s).running ≡ []
after_all-running result [] s e = e
after_all-running result (h ∷ hs) s e =
    after_all-running result hs (complete h (result h) hs s) refl

after_all-older :
    (result : Hook → Option Err) (hs : List Hook) (s : State) (r : Hook × Option Err)
    → Memᴰ r s.finished
    → Memᴰ r (after_all result hs s).finished
after_all-older result [] s r m = m
after_all-older result (h ∷ hs) s r m =
    after_all-older result hs (complete h (result h) hs s) r (Memᴰ.tail m)

after_all-finished :
    (result : Hook → Option Err) (hs : List Hook) (s : State) (h : Hook)
    → Memᴰ h hs
    → Memᴰ (h, result h) (after_all result hs s).finished
after_all-finished result [] s h m = elim m [ ]
after_all-finished result (g ∷ hs) s h (Memᴰ.head e) =
    after_all-older result hs (complete g (result g) hs s) (h, result h)
      (Memᴰ.head (ap (λ k. (k, result k)) e))
after_all-finished result (g ∷ hs) s h (Memᴰ.tail m) =
    after_all-finished result hs (complete g (result g) hs s) h m

-- Once the hooks are started, whatever error each of them reports, a run leads to a clean return in
-- which each of them has its own result: no error of a hook keeps another one from its end.
pub shutdown_completes :
    (result : Hook → Option Err) (s : State)
    → s.phase ≡ draining
    → (t : State) × Steps s t
      × (t.phase ≡ returned true)
      × ((h : Hook) → Memᴰ h s.running → Memᴰ (h, result h) t.finished)
shutdown_completes result s e =
    let last = after_all result s.running s in
    (
      return_with true last,
      Steps-join s last (return_with true last) (Steps-all result s.running s refl) (
          step
            (all_done last (after_all-phase result s.running s ∙ e)
              (after_all-running result s.running s refl))
            (stop (return_with true last))),
      refl,
      after_all-finished result s.running s,
    )
