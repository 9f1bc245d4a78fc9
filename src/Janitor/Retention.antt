-- ===== src/Janitor/Retention.antt =====
-- Which jobs the sweep of internal/janitor/janitor.go deletes.
use jobcrawler.Base.{
  ℕ, zero, suc, ℤ, pos, negsuc, ◌+◌, ◌-◌, ◌*◌, ◌≤◌, ◌<◌, ◌^◌, String, ◌≡◌, ◌⊎◌, inl, inr, Bool,
  true, false, Option, none, some, [], ◌∷◌, arith, count, refl, positive_part, ap,
}
use jobcrawler.Base.Words.{wrap64}
use jobcrawler.World.Errors.{Err}
use jobcrawler.World.{Env, Trace, Call, delete_older_than}
use jobcrawler.Janitor.{
  Settings, retention, add_duration, cutoff, run_once, sweeps, schedule, enabled, start,
}

-- The calls that delete jobs.
abbrev pub is_delete : Call → Bool
is_delete (delete_older_than _) = true
is_delete _ = false

retention_exact :
    (days : ℕ) → 1 ≤ days → days ≤ 106751 → retention days ≡ negsuc (days * 86400000000000 - 1)
unfolding retention wrap64
retention_exact days h k = ground arith

retention_overflow :
    (days : ℕ)
    → 106752 ≤ days
    → days ≤ 213503
    → retention days ≡ pos (2 ^ 64 - days * 86400000000000)
unfolding retention wrap64
retention_overflow days h k = ground arith

module _ (env : Env) where
  -- With a retention of 1 to 106751 days, and a clock past it, the sweep deletes what is older
  -- than exactly that many days.
  pub run_once_exact :
      (days : ℕ) (tr : Trace)
      → 1 ≤ days
      → days ≤ 106751
      → days * 86400000 ≤ env.clock tr
      → (run_once env days tr).1
        ≡ delete_older_than ((env.clock tr - days * 86400000) * 1000000) ∷ tr
  unfolding run_once cutoff retention add_duration
  run_once_exact days tr h k past =
      ap (λ at. delete_older_than at ∷ tr) (rw (retention_exact days h k) (omega arith))

  -- From 106752 days on, and up to twice that, the retention overflows, and the cut-off of the sweep
  -- lies in the future.
  pub run_once_overflow :
      (days : ℕ) (tr : Trace)
      → 106752 ≤ days
      → days ≤ 213503
      → (at : ℕ) × ((run_once env days tr).1 ≡ delete_older_than at ∷ tr)
        × (env.clock tr * 1000000 < at)
  unfolding run_once cutoff retention add_duration
  run_once_overflow days tr h k = (_, refl, rw (retention_overflow days h k) (omega arith))

  deletes-sweeps :
      (ticks days : ℕ) (tr : Trace)
      → count is_delete (sweeps env ticks days tr).1 ≡ count is_delete tr + ticks
  unfolding sweeps run_once
  deletes-sweeps zero days tr = omega arith
  deletes-sweeps (suc ticks) days tr =
      omega (arith, deletes-sweeps ticks days (run_once env days tr).1)

  -- What the guards of Start decide: no sweep, or one for each tick.
  abbrev pub IsGuarded : Bool → Option Err → ℤ → ℕ → ℕ → Type 0
  IsGuarded on bad days ticks deletes =
      ((deletes ≡ 0) × ((on ≡ false) ⊎ ((positive_part days ≡ 0) ⊎ ((e : Err) × (bad ≡ some e)))))
      ⊎ ((deletes ≡ ticks) × (on ≡ true) × (0 < positive_part days) × (bad ≡ none))

  deletes-enabled :
      (on : Bool) (bad : Option Err) (days : ℤ) (ticks : ℕ)
      → IsGuarded on bad days ticks (count is_delete (enabled env on bad days ticks []).1)
  unfolding enabled schedule
  deletes-enabled false bad days ticks = inl (refl, inl refl)
  deletes-enabled true bad (negsuc n) ticks = inl (refl, inr (inl refl))
  deletes-enabled true bad (pos zero) ticks = inl (refl, inr (inl refl))
  deletes-enabled true (some e) (pos (suc n)) ticks = inl (refl, inr (inr (e, refl)))
  deletes-enabled true none (pos (suc n)) ticks =
      inr (omega (arith, deletes-sweeps ticks (suc n) []), refl, omega arith, refl)

  -- The janitor deletes nothing while it is disabled, or has no retention above 0, or a schedule that
  -- cron refuses; otherwise it deletes once for each tick.
  pub deletes-start :
      (schedule_error : String → Option Err) (cfg : Settings) (ticks : ℕ)
      → IsGuarded cfg.cleanup_enabled
          (schedule_error cfg.cleanup_schedule)
          cfg.cleanup_retention_days
          ticks
          (count is_delete (start env schedule_error cfg ticks []).1)
  unfolding start
  deletes-start schedule_error cfg ticks = deletes-enabled _ _ cfg.cleanup_retention_days ticks
