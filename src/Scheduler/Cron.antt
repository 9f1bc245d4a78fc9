-- ===== src/Scheduler/Cron.antt =====
-- Start of internal/scheduler/scheduler.go. What cron says to a schedule is an argument, and so are
-- the entries that it fires, before, between and after the enqueueing at start-up; an error of a run is
-- only logged.
pub mod Ticks
use jobcrawler.Base.{
  ℕ, String, Bool, true, false, Option, none, some, List, [], ◌∷◌, keep, get_elem?,
}
use jobcrawler.Domain.{JobSource, source_stepstone, source_indeed, source_xing}
use jobcrawler.World.Errors.{Err}
use jobcrawler.World.{Env, Trace}
use jobcrawler.Scheduler.{enqueue_source}

pub record Entry : Type 0 where
  pub schedule : String
  pub source : JobSource

-- The calls of addJob.
abbrev pub cron_entries : List Entry
cron_entries =
    record { schedule = "*/30 * * * *"; source = source_stepstone }
    ∷ record { schedule = "0 */2 * * *"; source = source_xing }
    ∷ record { schedule = "0 * * * *"; source = source_indeed }
    ∷ []

abbrev pub is_accepted : (String → Option Err) → Entry → Bool
is_accepted add_func e = elim (add_func e.schedule) [ none ↦ true | some _ ↦ false ]

-- c.Entries(): a schedule that is refused is logged and left out.
abbrev pub entries : (String → Option Err) → List Entry
entries add_func = keep (is_accepted add_func) cron_entries

module _ (env : Env) where
  abbrev pub enqueue : JobSource → Trace → Trace
  enqueue source tr = (enqueue_source env source tr).1

  abbrev pub fire : Option Entry → Trace → Trace
  fire none tr = tr
  fire (some e) tr = enqueue e.source tr

  -- The entries that fire, by their place among those that were accepted.
  unfoldable pub fire_all : List Entry → List ℕ → Trace → Trace
  fire_all es [] tr = tr
  fire_all es (i ∷ is) tr = fire_all es is (fire (get_elem? es i) tr)

  module _ (add_func : String → Option Err) where
    -- Start, with the entries that fire before each of the three sources and after the last.
    unfoldable pub start : List ℕ → List ℕ → List ℕ → List ℕ → Trace → Trace
    unfolding fire_all
    start first second third later tr =
        let es = entries add_func in
        let tr1 = enqueue source_stepstone (fire_all es first tr) in
        let tr2 = enqueue source_xing (fire_all es second tr1) in
        let tr3 = enqueue source_indeed (fire_all es third tr2) in fire_all es later tr3
