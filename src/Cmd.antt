-- ===== src/Cmd.antt =====
-- What the main functions of cmd/ have in common: the resources that they open, os.Exit(1) as a result,
-- and deferred closes. An exit runs none of the deferred calls; a return runs them, the last one first.
pub mod Connections
pub mod Accounts
pub mod Gains
pub mod Crawler
pub mod Processor
pub mod Scheduler
pub mod Api
use jobcrawler.Base.{
  if◌then◌else◌, ℕ, ℤ, String, Bool, true, false, Option, none, some, List, [], ◌∷◌, ◌==◌, ◌≡◌,
  count,
}
use jobcrawler.World.Errors.{Err, Result, ok, err}
use jobcrawler.World.{Trace, Io}
use jobcrawler.Config.{DatabaseConfig, RedisConfig, ProcessorConfig}
use jobcrawler.Kafka.Admin.{TopicSpec}

pub data Resource : Type 0 where
  postgres redis migrator kafka_reader kafka_writer : Resource

abbrev pub index : Resource → ℕ
index postgres = 0
index redis = 1
index migrator = 2
index kafka_reader = 3
index kafka_writer = 4

-- What a binary does beside the calls of the trace. A pool of Postgres is opened with the settings that
-- it is given, a client of Redis with its options.
pub data Act : Type 0 where
  opened closed : Resource → Act
  pool_limited : DatabaseConfig → ℕ → Act
  client_set : RedisConfig → ℕ → ℤ → Act
  migrations_applied : Act
  topics_asked : List TopicSpec → Act
  user_agents_set : List String → Act
  janitor_started : ProcessorConfig → Act
  readiness_set : Bool → Act
  slept : ℕ → Act
  listening : String → Act

abbrev pub opens : Resource → Act → Bool
opens r (opened s) = index r == index s
opens r _ = false

abbrev pub closes : Resource → Act → Bool
closes r (closed s) = index r == index s
closes r _ = false

-- The acts, the latest first, the resources whose close is deferred, the latest first, and the calls.
pub record Process : Type 0 where
  pub acts : List Act
  pub deferred : List Resource
  pub trace : Trace

-- `none` is os.Exit(1).
abbrev pub Main : Type 0 → Type 0
Main A = Process → Option A × Process

abbrev pub go_on : {A B : Type 0} → (A → Main B) → Option A → Main B
go_on f none p = (none, p)
go_on f (some a) p = f a p

infixl 5 ◌>>=◌ ◌>>◌
abbrev pub ◌>>=◌ : {A B : Type 0} → Main A → (A → Main B) → Main B
◌>>=◌ m f p = let (r, p') = m p in go_on f r p'

abbrev pub ◌>>◌ : {A B : Type 0} → Main A → Main B → Main B
m >> k = m >>= λ _. k

-- A value, or the exit after its error is logged.
abbrev pub or_exit : {A : Type 0} → Result A → Main A
or_exit (ok a) p = (some a, p)
or_exit (err e) p = (none, p)

abbrev pub exit_if : Option Err → Main (Unit {0})
exit_if none p = (some tt, p)
exit_if (some e) p = (none, p)

abbrev pub act : Act → Main (Unit {0})
act a p = (some tt, record p { acts = a ∷ p.acts })

abbrev pub push_all : List Act → List Act → List Act
push_all [] acts = acts
push_all (a ∷ more) acts = push_all more (a ∷ acts)

-- Acts that a function has made, in their order.
abbrev pub act_all : List Act → Main (Unit {0})
act_all more p = (some tt, record p { acts = push_all more p.acts })

abbrev pub defer_close : Resource → Main (Unit {0})
defer_close r p = (some tt, record p { deferred = r ∷ p.deferred })

-- A resource is opened, and its close deferred.
abbrev pub acquire : Resource → Main (Unit {0})
acquire r = act (opened r) >> defer_close r

-- What a function of pkg/ has done, and the exit where it reports an error.
abbrev pub done_or_exit : Option Err × List Act → Main (Unit {0})
done_or_exit (e, acts) = act_all acts >> exit_if e

-- What a function of pkg/ has opened and returned, with its close deferred.
abbrev pub obtain : Resource → Option Err × List Act → Main (Unit {0})
obtain r done = done_or_exit done >> defer_close r

abbrev pub perform_io : {A : Type 0} → Io A → Main A
perform_io io p = let (a, tr) = io p.trace in (some a, record p { trace = tr })

abbrev pub close_all : List Resource → List Act → List Act
close_all [] acts = acts
close_all (r ∷ rs) acts = close_all rs (closed r ∷ acts)

-- The exit code, and the process as it ends: of a main function whose last call has returned.
abbrev pub ended : {A : Type 0} → Option A × Process → ℕ × Process
ended (none, p) = (1, p)
ended (some a, p) = (0, record p { acts = close_all p.deferred p.acts; deferred = [] })

abbrev pub begun : Trace → Process
begun tr = record { acts = []; deferred = []; trace = tr }

abbrev pub run_main : {A : Type 0} → Main A → Trace → ℕ × Process
run_main main tr = ended (main (begun tr))

-- A main function that ends in a loop: while the loop is not over the function has not returned, so
-- that there is no exit code and nothing is closed.
abbrev pub ended_by : {A : Type 0} → (A → Bool) → Option A × Process → Option ℕ × Process
ended_by is_over (none, p) = (some 1, p)
ended_by is_over (some a, p) =
    if is_over a
    then (some 0, record p { acts = close_all p.deferred p.acts; deferred = [] })
    else (none, p)

abbrev pub run_loop : {A : Type 0} → (A → Bool) → Main A → Trace → Option ℕ × Process
run_loop is_over main tr = ended_by is_over (main (begun tr))

-- Every resource that was opened is closed.
abbrev pub IsReleased : List Act → Type 0
IsReleased acts = (r : Resource) → count (opens r) acts ≡ count (closes r) acts
