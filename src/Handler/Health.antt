-- ===== src/Handler/Health.antt =====
-- internal/handler/health_handler.go: the readiness probe. The probes run side by side; the list of
-- those that have ended, in the order in which they end, is an argument.
pub mod Verdict
use jobcrawler.Base.{
  ℕ, String, Bool, true, false, ◌||◌, Option, none, some, List, [], ◌∷◌, str_eq, if◌then◌else◌,
}
use jobcrawler.World.Errors.{Err}

-- The map `checks`, as an association list.
abbrev pub Checks : Type 0
Checks = List (String × String)

-- Without a search engine its entry is deleted.
unfoldable pub initial_checks : Bool → Checks
initial_checks true = ("database", "ok") ∷ ("redis", "ok") ∷ ("elasticsearch", "ok") ∷ []
initial_checks false = ("database", "ok") ∷ ("redis", "ok") ∷ []

unfoldable pub set_unhealthy : String → Checks → Checks
set_unhealthy name [] = (name, "unhealthy") ∷ []
set_unhealthy name ((k, v) ∷ checks) =
    let rest = set_unhealthy name checks in
    if str_eq k name then (k, "unhealthy") ∷ checks else (k, v) ∷ rest

-- A probe that has ended: its name and its error.
abbrev pub Probe : Type 0
Probe = String × Option Err

unfoldable pub finish : List Probe → Checks → Checks
unfolding set_unhealthy
finish [] checks = checks
finish ((name, none) ∷ ps) checks = finish ps checks
finish ((name, some e) ∷ ps) checks = finish ps (set_unhealthy name checks)

-- The loop over the values.
unfoldable pub is_degraded : Checks → Bool
is_degraded [] = false
is_degraded ((_, v) ∷ checks) = str_eq v "unhealthy" || is_degraded checks

pub record Readiness : Type 0 where
  pub http_status : ℕ
  pub status : String
  pub checks : Checks

unfoldable pub readiness : Bool → List Probe → Readiness
unfolding initial_checks finish is_degraded
readiness has_es probes =
    let checks = finish probes (initial_checks has_es) in
    if is_degraded checks
    then record { http_status = 503; status = "degraded"; checks = checks }
    else record { http_status = 200; status = "ready"; checks = checks }
