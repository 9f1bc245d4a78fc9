-- ===== src/Handler/Response.antt =====
-- internal/handler/response.go: the status of a reply. The body of a success is the value itself.
use jobcrawler.Base.{ℕ, String, false, ◌≡◌, ◌↔◌, arith, if◌then◌else◌}
use jobcrawler.World.Errors.{
  Err, is, error_text, not_found, duplicate, rate_limited, disallowed_by_robots, Result, ok, err,
}

pub record ErrorResponse : Type 0 where
  pub error : String
  pub code : String

-- What a handler writes: a status with a value, or with an error body.
pub data Reply (A : Type 0) : Type 0 where
  json : ℕ → A → Reply A
  failed : ℕ → ErrorResponse → Reply A

abbrev pub status_of : {A : Type 0} → Reply A → ℕ
status_of (json n a) = n
status_of (failed n e) = n

-- The switch of respondError.
unfoldable pub error_status : Err → ℕ × String
error_status e =
    if is e not_found
    then (404, "NOT_FOUND")
    else if is e duplicate
    then (409, "CONFLICT")
    else if is e rate_limited
    then (429, "RATE_LIMITED")
    else if is e disallowed_by_robots
    then (403, "FORBIDDEN")
    else (500, "INTERNAL_ERROR")

unfoldable pub respond_error : {A : Type 0} → Err → Reply A
unfolding error_status
respond_error e =
    let (status, code) = error_status e in
    failed status (record { error = error_text e; code = code })

-- How each handler ends.
unfoldable pub respond : {A : Type 0} → Result A → Reply A
unfolding respond_error
respond (ok a) = json 200 a
respond (err e) = respond_error e

-- An error is answered with status 500 exactly when it wraps none of the four errors of the domain.
pub respond_error_internal :
    (A : Type 0) (e : Err)
    → (status_of (respond_error {A = A} e) ≡ 500) ↔ (
        (is e not_found ≡ false)
        × (is e duplicate ≡ false)
        × (is e rate_limited ≡ false)
        × (is e disallowed_by_robots ≡ false))
unfolding respond_error error_status
respond_error_internal A e = ground arith
