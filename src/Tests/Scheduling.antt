-- ===== src/Tests/Scheduling.antt =====
-- The theorems of the scheduler, of the janitor and of the consumer loops at sample data.
use jobcrawler.Base.{
  if◌then◌else◌, ℕ, pos, ◌-◌, ◌*◌, ◌<◌, String, ◌≡◌, ◌≢◌, true, false, Option, none, some, List, [],
  ◌∷◌, arith, str_eq, eq_iff, count,
}
use jobcrawler.World.Errors.{Err, failure}
use jobcrawler.World.{Env, delete_older_than}
use jobcrawler.Scheduler.Cron as Cron
use jobcrawler.Scheduler.Cron.{Entry, entries}
use jobcrawler.Janitor.{Settings, run_once, start}
use jobcrawler.Janitor.Retention.{
  is_delete, IsGuarded, run_once_exact, run_once_overflow, deletes-start,
}
use jobcrawler.Tests.Samples.{sample_env}

other : (source : String) → str_eq "LINKEDIN" source ≡ false → "LINKEDIN" ≢ source
other source h e = ground (arith, eq_iff "LINKEDIN" source)

-- A cron that refuses the schedule of Xing, and fires its second entry twice and no third one.
abbrev picky : String → Option Err
picky schedule = if str_eq schedule "0 */2 * * *" then some (failure "schedule") else none

abbrev fires : List Entry
fires = entries picky

-- The sample environment in November 2023.
abbrev autumn : Env
autumn = record sample_env { clock = λ tr. 1700000000000 }

run_once_exact_example :
    (run_once autumn 30 []).1 ≡ delete_older_than ((1700000000000 - 30 * 86400000) * 1000000) ∷ []
run_once_exact_example = run_once_exact autumn 30 [] (omega arith) (omega arith) (omega arith)

run_once_overflow_example :
    (at : ℕ) × ((run_once autumn 110000 []).1 ≡ delete_older_than at ∷ [])
    × (1700000000000 * 1000000 < at)
run_once_overflow_example = run_once_overflow autumn 110000 [] (omega arith) (omega arith)

abbrev monthly : Settings
monthly = record {
  cleanup_enabled = true;
  cleanup_schedule = "0 3 * * *";
  cleanup_retention_days = pos 30;
}

abbrev accepts : String → Option Err
accepts schedule = none

deletes-start_example :
    IsGuarded autumn true none (pos 30) 2 (count is_delete (start autumn accepts monthly 2 []).1)
deletes-start_example = deletes-start autumn accepts monthly 2
