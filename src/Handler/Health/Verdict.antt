-- ===== src/Handler/Health/Verdict.antt =====
-- The verdict of the readiness probe (internal/handler/health_handler.go).
use jobcrawler.Base.{
  String, ◌≡◌, inl, inr, Bool, true, false, ◌||◌, none, some, List, [], ◌∷◌, arith, refl, any,
  Bool-cases, if◌then◌else◌,
}
use jobcrawler.Handler.Health.{
  Checks, Probe, initial_checks, set_unhealthy, finish, is_degraded, readiness,
}

abbrev pub has_failed : Probe → Bool
has_failed (_, none) = false
has_failed (_, some e) = true

set_unhealthy_degrades : (name : String) (c : Checks) → is_degraded (set_unhealthy name c) ≡ true
unfolding set_unhealthy is_degraded
set_unhealthy_degrades name [] = refl
set_unhealthy_degrades name ((k, v) ∷ c) = ground (arith, set_unhealthy_degrades name c)

is_degraded-finish :
    (ps : List Probe) (c : Checks)
    → is_degraded (finish ps c) ≡ (is_degraded c || any has_failed ps)
unfolding finish
is_degraded-finish [] c = ground arith
is_degraded-finish ((name, none) ∷ ps) c = ground (arith, is_degraded-finish ps c)
is_degraded-finish ((name, some e) ∷ ps) c =
    ground (arith, is_degraded-finish ps (set_unhealthy name c), set_unhealthy_degrades name c)

initially_fine : (has_es : Bool) → is_degraded (initial_checks has_es) ≡ false
unfolding is_degraded initial_checks
initially_fine true = refl
initially_fine false = refl

-- In whatever order the probes end, the answer is 503 if one of them has failed and 200 if none has.
pub readiness_verdict :
    (has_es : Bool) (probes : List Probe)
    → (readiness has_es probes).http_status ≡ (if any has_failed probes then 503 else 200)
unfolding readiness
readiness_verdict has_es probes =
    rw (is_degraded-finish probes (initial_checks has_es), initially_fine has_es)
      (elim (Bool-cases (any has_failed probes)) [
        | inl failed ↦ rw failed refl
        | inr fine ↦ rw fine refl
      ])
