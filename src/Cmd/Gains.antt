-- ===== src/Cmd/Gains.antt =====
-- How many of each resource a part of a main function of cmd/ leaves open where it goes on.
use jobcrawler.Base.{
  ℕ, ◌+◌, ◌≡◌, Option, none, some, count, refl, arith, inl, inr, Option-cases, ◌∙◌, false, List,
}
use jobcrawler.World.Errors.{Err, Result, ok, err}
use jobcrawler.Cmd.{
  Resource, Act, opens, closes, Process, Main, ◌>>=◌, go_on, or_exit, act, done_or_exit, IsReleased,
}
use jobcrawler.Cmd.Connections.Released.{held, Leaves}
use jobcrawler.Cmd.Accounts.{count-push_all}

-- It defers nothing, and leaves `n r` more of the resource `r` open.
pub record Gains {A : Type 0} (n : Resource → ℕ) (m : Main A) : Type 0 where
  pub undeferred : (p : Process) → (m p).1.deferred ≡ p.deferred
  pub gained :
      (p : Process) (a : A) (r : Resource)
      → (m p).0 ≡ some a
      → count (opens r) (m p).1.acts + count (closes r) p.acts
        ≡ count (closes r) (m p).1.acts + count (opens r) p.acts + n r

pub Gains-bind :
    {A B : Type 0} (k n : Resource → ℕ) (m : Main A) (f : A → Main B)
    → Gains k m
    → ((a : A) → Gains n (f a))
    → Gains (λ r. k r + n r) (m >>= f)
Gains-bind k n m f first rest = record {
  undeferred = λ p. elim (Option-cases (m p).0) [
    | inl exits ↦ rw (exits, go_on) (first.undeferred p)
    | inr (a, goes) ↦ rw (goes, go_on) ((rest a).undeferred (m p).1 ∙ first.undeferred p)
  ];
  gained = λ p b r h. elim (Option-cases (m p).0) [
    | inl exits ↦ absurd (ground arith)
    | inr (a, goes) ↦
        let ends : (f a (m p).1).0 ≡ some b = rw (goes, go_on) at h in
        rw (goes, go_on) (omega (arith, first.gained p a r goes, (rest a).gained (m p).1 b r ends))
  ];
}

pub Gains-done_or_exit :
    (r : Resource) (done : Option Err × List Act)
    → Leaves (held r done.0) done.1
    → Gains (held r none) (done_or_exit done)
Gains-done_or_exit r done left = record {
  undeferred = λ p. elim (Option-cases done.0) [
    | inl fine ↦ rw fine refl
    | inr (e, failed) ↦ rw failed refl
  ];
  gained = λ p a s h. elim (Option-cases done.0) [
    | inl fine ↦ rw fine (
        omega (
          arith,
          rw fine at (left s),
          count-push_all (opens s) done.1 p.acts,
          count-push_all (closes s) done.1 p.acts,
        ))
    | inr (e, failed) ↦ absurd (ground arith)
  ];
}

pub Gains-balanced :
    (done : Option Err × List Act) → IsReleased done.1 → Gains (λ r. 0) (done_or_exit done)
Gains-balanced done balanced = record {
  undeferred = λ p. elim (Option-cases done.0) [
    | inl fine ↦ rw fine refl
    | inr (e, failed) ↦ rw failed refl
  ];
  gained = λ p a s h. elim (Option-cases done.0) [
    | inl fine ↦ rw fine (
        omega (
          arith,
          balanced s,
          count-push_all (opens s) done.1 p.acts,
          count-push_all (closes s) done.1 p.acts,
        ))
    | inr (e, failed) ↦ absurd (ground arith)
  ];
}

pub Gains-or_exit : {A : Type 0} (r : Result A) → Gains (λ s. 0) (or_exit r)
Gains-or_exit (ok a) = record { undeferred = λ p. refl; gained = λ p b s h. omega arith }
Gains-or_exit (err e) = record { undeferred = λ p. refl; gained = λ p b s h. absurd (ground arith) }

pub Gains-act :
    (a : Act)
    → ((r : Resource) → (opens r a ≡ false) × (closes r a ≡ false))
    → Gains (λ r. 0) (act a)
Gains-act a other = record {
  undeferred = λ p. refl;
  gained = λ p b r h. let (o, c) = other r in rw (o, c) (omega arith);
}
