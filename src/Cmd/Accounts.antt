-- ===== src/Cmd/Accounts.antt =====
-- The resources that a main function of cmd/ has open, step by step: all that is open has its close
-- deferred.
use jobcrawler.Base.{
  ◌+◌, ◌≡◌, Option, none, some, List, [], ◌∷◌, ◌==◌, count, refl, arith, Bool, false, inl, inr,
  Option-cases, Bool-cases,
}
use jobcrawler.World.Errors.{Err, Result, ok, err}
use jobcrawler.World.{Trace, Io}
use jobcrawler.Cmd.{
  Resource, index, Act, closed, opens, closes, Process, Main, ◌>>=◌, or_exit, exit_if, act,
  push_all, go_on, acquire, done_or_exit, obtain, perform_io, close_all, begun, run_main, run_loop,
  IsReleased,
}
use jobcrawler.Cmd.Connections.Released.{held, Leaves}

abbrev pub is_of : Resource → Resource → Bool
is_of r s = index r == index s

pub record IsAccounted (p : Process) : Type 0 where
  pub open_ones :
      (r : Resource) → count (opens r) p.acts ≡ count (closes r) p.acts + count (is_of r) p.deferred

pub record Keeps {A : Type 0} (m : Main A) : Type 0 where
  pub after : (p : Process) → IsAccounted p → IsAccounted (m p).1

Keeps-go_on :
    {A B : Type 0} (f : A → Main B) (r : Option A) → ((a : A) → Keeps (f a)) → Keeps (go_on f r)
Keeps-go_on f none k = record { after = λ p h. h }
Keeps-go_on f (some a) k = k a

pub Keeps-bind :
    {A B : Type 0} (m : Main A) (f : A → Main B)
    → Keeps m
    → ((a : A) → Keeps (f a))
    → Keeps (m >>= f)
Keeps-bind m f first rest = record {
  after = λ p h. (Keeps-go_on f (m p).0 rest).after (m p).1 (first.after p h);
}

pub Keeps-or_exit : {A : Type 0} (r : Result A) → Keeps (or_exit r)
Keeps-or_exit (ok a) = record { after = λ p h. h }
Keeps-or_exit (err e) = record { after = λ p h. h }

pub Keeps-exit_if : (e : Option Err) → Keeps (exit_if e)
Keeps-exit_if none = record { after = λ p h. h }
Keeps-exit_if (some e) = record { after = λ p h. h }

pub Keeps-perform_io : {A : Type 0} (io : Io A) → Keeps (perform_io io)
Keeps-perform_io io = record { after = λ p h. record { open_ones = h.open_ones } }

-- An act that opens and closes nothing.
pub Keeps-act :
    (a : Act) → ((r : Resource) → (opens r a ≡ false) × (closes r a ≡ false)) → Keeps (act a)
Keeps-act a other = record {
  after = λ p h. record { open_ones = λ r. let (o, c) = other r in rw (o, c) (h.open_ones r) };
}

pub Keeps-acquire : (r : Resource) → Keeps (acquire r)
Keeps-acquire r = record {
  after = λ p h. record { open_ones = λ s. ground (arith, h.open_ones s) };
}

pub count-push_all :
    (t : Act → Bool) (more acts : List Act)
    → count t (push_all more acts) ≡ count t acts + count t more
count-push_all t [] acts = omega arith
count-push_all t (a ∷ more) acts = ground (arith, count-push_all t more (a ∷ acts))

-- What a function has opened and not returned, it has closed.
pub Keeps-done_or_exit :
    (done : Option Err × List Act) → IsReleased done.1 → Keeps (done_or_exit done)
Keeps-done_or_exit done balanced = record {
  after = λ p h. (Keeps-exit_if done.0).after _ (record {
    open_ones = λ r. omega (
      arith,
      h.open_ones r,
      balanced r,
      count-push_all (opens r) done.1 p.acts,
      count-push_all (closes r) done.1 p.acts,
    );
  });
}

obtained :
    (r : Resource) (e : Option Err) (acts : List Act) (p : Process)
    → Leaves (held r e) acts
    → IsAccounted p
    → IsAccounted (obtain r (e, acts) p).1
obtained r none acts p left h = record {
  open_ones = λ s. ground (
    arith,
    h.open_ones s,
    left s,
    count-push_all (opens s) acts p.acts,
    count-push_all (closes s) acts p.acts,
  );
}
obtained r (some e) acts p left h = record {
  open_ones = λ s. omega (
    arith,
    h.open_ones s,
    left s,
    count-push_all (opens s) acts p.acts,
    count-push_all (closes s) acts p.acts,
  );
}

-- A resource that a function returns, and whose close is then deferred.
pub Keeps-obtain :
    (r : Resource) (done : Option Err × List Act)
    → Leaves (held r done.0) done.1
    → Keeps (obtain r done)
Keeps-obtain r done left = record { after = λ p h. obtained r done.0 done.1 p left h }

pub ruleset keeps = (
  Keeps-bind, Keeps-or_exit, Keeps-exit_if, Keeps-acquire, Keeps-obtain, Keeps-done_or_exit,
  Keeps-perform_io,
)

close_all-IsReleased :
    (rs : List Resource) (acts : List Act)
    → ((r : Resource) → count (opens r) acts ≡ count (closes r) acts + count (is_of r) rs)
    → IsReleased (close_all rs acts)
close_all-IsReleased [] acts h r = omega (arith, h r)
close_all-IsReleased (s ∷ rs) acts h r =
    close_all-IsReleased rs (closed s ∷ acts) (λ t. ground (arith, h t)) r

-- A main function that returns has closed everything; one that exits leaves open what it had deferred.
pub run_main-IsReleased :
    {A : Type 0} (main : Main A) (tr : Trace)
    → Keeps main
    → (run_main main tr).0 ≡ 0
    → IsReleased (run_main main tr).1.acts
run_main-IsReleased main tr keeps returned =
    let after = keeps.after (begun tr) (record { open_ones = λ r. refl }) in
    elim (Option-cases (main (begun tr)).0) [
      | inl exits ↦ ground arith
      | inr (a, returns) ↦ rw returns (
          close_all-IsReleased (main (begun tr)).1.deferred (main (begun tr)).1.acts
            after.open_ones)
    ]

pub run_main-IsAccounted :
    {A : Type 0} (main : Main A) (tr : Trace) → Keeps main → IsAccounted (run_main main tr).1
run_main-IsAccounted main tr keeps =
    let after = keeps.after (begun tr) (record { open_ones = λ r. refl }) in
    elim (Option-cases (main (begun tr)).0) [
      | inl exits ↦ rw exits after
      | inr (a, returns) ↦ rw returns (record {
        open_ones = λ r. omega (
          arith,
          close_all-IsReleased (main (begun tr)).1.deferred (main (begun tr)).1.acts after.open_ones
              r,
        );
      })
    ]

-- The same of a main function that ends in a loop; while that is not over, what is open has its close
-- deferred.
pub run_loop-IsReleased :
    {A : Type 0} (is_over : A → Bool) (main : Main A) (tr : Trace)
    → Keeps main
    → (run_loop is_over main tr).0 ≡ some 0
    → IsReleased (run_loop is_over main tr).1.acts
run_loop-IsReleased is_over main tr keeps returned =
    let after = keeps.after (begun tr) (record { open_ones = λ r. refl }) in
    elim (Option-cases (main (begun tr)).0) [
      | inl exits ↦ ground arith
      | inr (a, returns) ↦ elim (Bool-cases (is_over a)) [
        | inr going ↦ ground arith
        | inl over ↦
            rw (returns, over)
              (close_all-IsReleased (main (begun tr)).1.deferred (main (begun tr)).1.acts
                after.open_ones)
      ]
    ]

pub run_loop-IsAccounted :
    {A : Type 0} (is_over : A → Bool) (main : Main A) (tr : Trace)
    → Keeps main
    → IsAccounted (run_loop is_over main tr).1
run_loop-IsAccounted is_over main tr keeps =
    let after = keeps.after (begun tr) (record { open_ones = λ r. refl }) in
    elim (Option-cases (main (begun tr)).0) [
      | inl exits ↦ rw exits after
      | inr (a, returns) ↦ elim (Bool-cases (is_over a)) [
        | inr going ↦ rw (returns, going) after
        | inl over ↦
            rw (returns, over)
              (record {
                open_ones = λ r. omega (
                  arith,
                  close_all-IsReleased (main (begun tr)).1.deferred (main (begun tr)).1.acts
                      after.open_ones r,
                );
              })
      ]
    ]
