-- ===== src/Httputil/Robots.antt =====
-- pkg/httputil/robots.go. The cache of groups is the state; the lock is left out, since the worker
-- that owns the checker is the only one to use it.
pub mod Decisions
use jobcrawler.Base.{
  ℕ, String, Bool, true, false, Option, none, some, List, [], ◌∷◌, str_eq, ◌⧺◌, if◌then◌else◌,
  quote,
}
use jobcrawler.World.Errors.{Err, wrap, Result, ok, err}
use jobcrawler.World.{Env, Io, Trace}
use jobcrawler.Httputil.Client.{get}

-- *robotstxt.Group: nil, or what its Test says of a path.
abbrev pub Group : Type 0
Group = Option (String → Bool)

abbrev pub Cache : Type 0
Cache = List (String × Group)

unfoldable pub find : Cache → String → Option Group
find [] origin = none
find ((o, g) ∷ cache) origin = if str_eq o origin then some g else find cache origin

abbrev pub test : Group → String → Bool
test none path = true
test (some g) path = g path

module _ (env : Env) where
  parse_robots : String → Result String → Result Group
  parse_robots origin (err e) = err (wrap ("fetch robots.txt from " ⧺ (origin ⧺ ": ")) e)
  parse_robots origin (ok text) = elim (env.robots_group text) [
    | err e ↦ err (wrap ("parse robots.txt from " ⧺ (origin ⧺ ": ")) e)
    | ok g ↦ ok g
  ]

  -- RobotsChecker.fetch
  unfoldable pub fetch_robots : String → Io (Result Group)
  unfolding parse_robots
  fetch_robots origin tr =
      let (r, tr') = get env (origin ⧺ "/robots.txt") tr in (parse_robots origin r, tr')

  use_fetched :
      Cache → String → String → Result Group × Trace → ((Bool × Option Err) × Cache) × Trace
  use_fetched cache origin path (err e, tr) = (((true, none), cache), tr)
  use_fetched cache origin path (ok g, tr) = (((test g path, none), (origin, g) ∷ cache), tr)

  check_origin : Cache → Result String → String → String → Io ((Bool × Option Err) × Cache)
  check_origin cache (err e) raw_url path tr =
      (((false, some (wrap ("parse url " ⧺ (quote raw_url ⧺ ": ")) e)), cache), tr)
  check_origin cache (ok origin) raw_url path tr = elim (find cache origin) [
    | some g ↦ (((test g path, none), cache), tr)
    | none ↦ use_fetched cache origin path (fetch_robots origin tr)
  ]

  -- RobotsChecker.IsAllowed: the answer and the error, with the new cache.
  unfoldable pub is_allowed : Cache → String → String → Io ((Bool × Option Err) × Cache)
  unfolding check_origin use_fetched fetch_robots
  is_allowed cache raw_url path = check_origin cache (env.url_origin raw_url) raw_url path
