-- ===== src/Handler/Middleware.antt =====
-- internal/handler/middleware/rate_limit.go. The headers of a request are a function from names to
-- texts, with "" for a missing one; net.ParseIP followed by IP.String, and net.SplitHostPort, are
-- arguments.
pub mod Limiting
use Prim.Native.Char.{code}
use Prim.Native.String.{[], ◌∷◌}
use jobcrawler.Base.{
  ℕ, ◌/◌, String, Bool, true, false, ◌||◌, ◌==◌, Option, none, some, List, str_eq, ◌⧺◌, trim_left,
  trim_right, if◌then◌else◌,
}
use jobcrawler.World.Errors.{Err}
use jobcrawler.World.{Env, Io, Trace}
use jobcrawler.Redis.Keys.{key_rate_limit_api}
use jobcrawler.Redis.RateLimiter.{allow}

-- Spaces and tabs.
abbrev is_blank : ℕ → Bool
is_blank c = c == 32 || c == 9

unfoldable pub trim : String → String
trim s = trim_right is_blank (trim_left is_blank s)

abbrev pub add_part : String → List String → List String
add_part part parts = if str_eq (trim part) "" then parts else List.◌∷◌ (trim part) parts

-- The loop of splitCSV: `part` is s[start:i].
unfoldable pub scan_parts : String → String → List String
unfolding trim
scan_parts part [] = add_part part List.[]
scan_parts part (c ∷ s) =
    let closed = add_part part (scan_parts "" s) in
    let longer = scan_parts (part ⧺ (c ∷ [])) s in if code c == 44 then closed else longer

unfoldable pub split_csv : String → List String
unfolding scan_parts
split_csv s = scan_parts "" s

-- The first part that is an address.
unfoldable pub first_ip : (String → Option String) → List String → Option String
first_ip parse_ip List.[] = none
first_ip parse_ip (List.◌∷◌ p ps) = elim (parse_ip p) [
  | some ip ↦ some ip
  | none ↦ first_ip parse_ip ps
]

-- `none` is an error of net.SplitHostPort.
abbrev pub remote_host : (String → Option String) → String → String
remote_host split_host_port addr = elim (split_host_port addr) [ none ↦ addr | some host ↦ host ]

abbrev pub or_else : Option String → Option String → Option String
or_else (some ip) other = some ip
or_else none other = other

abbrev pub ip_or : Option String → String → String
ip_or (some ip) d = ip
ip_or none d = d

unfoldable pub real_ip :
    (String → Option String) → (String → Option String) → (String → String) → String → String
unfolding split_csv first_ip
real_ip parse_ip split_host_port header remote_addr =
    let forwarded = header "X-Forwarded-For" in
    let real = header "X-Real-IP" in
    ip_or
      (or_else (if str_eq forwarded "" then none else first_ip parse_ip (split_csv forwarded))
        (if str_eq real "" then none else parse_ip real))
      (remote_host split_host_port remote_addr)

-- What the client gets: the handler's answer, or status 429 with the seconds to wait.
pub data Limited (A : Type 0) : Type 0 where
  served : A → Limited A
  rejected : ℕ → Limited A

module _ (env : Env) (nanos : Trace → ℕ) {A : Type 0} (next : Io A) where
  serve : Io (Limited A)
  serve tr = let (a, tr') = next tr in (served a, tr')

  decide : ℕ → Bool × Option Err → Io (Limited A)
  unfolding serve
  decide window (allowed, some e) tr = serve tr
  decide window (true, none) tr = serve tr
  decide window (false, none) tr = (rejected (window / 1000), tr)

  -- The handler of RateLimitMiddleware, for a client's address and a window in milliseconds.
  unfoldable pub rate_limited_handler : ℕ → ℕ → String → Io (Limited A)
  unfolding decide
  rate_limited_handler limit window ip tr =
      let (answer, tr') = allow env nanos (key_rate_limit_api ip) limit window tr in
      decide window answer tr'
