-- ===== src/World/Errors.antt =====
-- Go errors: the sentinels that the program compares with, opaque failures of the services, and
-- wrapping by fmt.Errorf("…: %w", err).
use jobcrawler.Base.{ℕ, String, Bool, ◌==◌, ◌⧺◌, ◌≡◌, ◌⊎◌, inl, inr, refl}

pub data Sentinel : Type 0 where
  not_found duplicate rate_limited disallowed_by_robots : Sentinel
  forbidden redis_nil canceled deadline_exceeded no_rows : Sentinel

abbrev pub rank : Sentinel → ℕ
rank not_found = 0
rank duplicate = 1
rank rate_limited = 2
rank disallowed_by_robots = 3
rank forbidden = 4
rank redis_nil = 5
rank canceled = 6
rank deadline_exceeded = 7
rank no_rows = 8

abbrev pub sentinel_text : Sentinel → String
sentinel_text not_found = "resource not found"
sentinel_text duplicate = "duplicate resource"
sentinel_text rate_limited = "rate limited by target server"
sentinel_text disallowed_by_robots = "path disallowed by robots.txt"
sentinel_text forbidden = "access forbidden (HTTP 403)"
sentinel_text redis_nil = "redis: nil"
sentinel_text canceled = "context canceled"
sentinel_text deadline_exceeded = "context deadline exceeded"
sentinel_text no_rows = "sql: no rows in result set"

pub data Err : Type 0 where
  sentinel : Sentinel → Err
  failure : String → Err
  wrap : String → Err → Err

-- errors.Is
unfoldable pub is : Err → Sentinel → Bool
is (sentinel s) t = rank s == rank t
is (failure _) t = Bool.false
is (wrap _ e) t = is e t

-- err.Error()
unfoldable pub error_text : Err → String
error_text (sentinel s) = sentinel_text s
error_text (failure s) = s
error_text (wrap prefix e) = prefix ⧺ error_text e

pub data Result {ℓ} (A : Type ℓ) : Type ℓ where
  ok : A → Result A
  err : Err → Result A

pub Result-cases {ℓ} :
    {A : Type ℓ} (r : Result A) → ((a : A) × (r ≡ ok a)) ⊎ ((e : Err) × (r ≡ err e))
Result-cases (ok a) = inl (a, refl)
Result-cases (err e) = inr (e, refl)
