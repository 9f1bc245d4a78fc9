-- ===== src/Tests/Processing.antt =====
-- The theorems of the processor worker and of the alert matcher at sample data.
use jobcrawler.Base.{
  false, ◌+◌, ◌⊎◌, String, not, inl, inr, Option-cases, Bool-cases, str_eq, eq_iff, count, ℕ, pos,
  ◌*◌, ◌≤◌, ◌≡◌, ◌↔◌, true, [], ◌∷◌, arith, refl,
}
use jobcrawler.World.{upsert_job, Env, Trace, commit_messages, set_nx}
use jobcrawler.World.Counting.{commits, upserts}
use jobcrawler.Processor.Dedup.{url_key}
use jobcrawler.Processor.Alerts.{matches_filter}
use jobcrawler.Processor.Alerts.Matching.{SatisfiesFour, matches_filter_iff}
use jobcrawler.Processor.Worker.{process_message, at_cap}
use jobcrawler.Processor.Worker.Commits.{process_message-commits}
use jobcrawler.Processor.Worker.Cap.{process_message_capped, process_message_full}
use jobcrawler.Processor.Worker.Normalised.{new_normaliser, is_unclean, process_message-clean}
use jobcrawler.Processor.Worker.Redelivery.{expiry, KeepsKeys, redelivery_dropped}
use jobcrawler.Processor.Dedup.Window.{gone_at, is_before, set_by}
use jobcrawler.Redis.RateLimiter.Window.{ClockForward}
use jobcrawler.Domain.{Job, source_xing}
use jobcrawler.World.Errors.{ok}
use text.Mathlib.TextPositions.{eq_refl}
use jobcrawler.Tests.Samples.{
  sample_env, sample_registry, sample_normaliser, sample_message, sample_raw, sample_job,
  sample_filter, same_text, same_char,
}

-- One message with the given live count, at a cap of three jobs.
abbrev run : ℕ → Trace → ℕ × Trace
run n tr =
    process_message sample_env same_text same_char sample_normaliser sample_registry true (pos 3) n
      sample_message tr

process_message-commits_example :
    (before : Trace) × ((run 2 []).1 ≡ commit_messages sample_message ∷ before)
    × (commits before ≡ 0)
process_message-commits_example =
    process_message-commits sample_env same_text same_char sample_normaliser sample_registry true
      (pos 3) 2 sample_message []

process_message_capped_example :
    ((run 2 []).0 ≤ 3)
    ⊎ ((job : Job) × (t : Trace) × (m : ℕ) × (sample_env.refresher_ticks (upsert_job job ∷ t)
          ≡ true)
        × (sample_env.count_answer (upsert_job job ∷ t) ≡ ok m)
        × ((run 2 []).0 ≡ m + 1))
process_message_capped_example =
    process_message_capped sample_env same_text same_char sample_normaliser sample_registry true
      (pos 3) 2 sample_message [] (omega arith) (omega arith)

process_message_full_example : ((run 3 []).0 ≡ 3) × (upserts (run 3 []).1 ≡ 0)
unfolding at_cap
process_message_full_example =
    process_message_full sample_env same_text same_char sample_normaliser sample_registry true
      (pos 3) 3 sample_message [] refl

-- A Redis whose keys expire, on the clock of the sample.
abbrev timed_env : Env
timed_env = record sample_env {
  set_nx_answer =
      λ tr key ttl. ok (not (is_before (sample_env.clock tr) (gone_at sample_env.clock tr key)));
}

expiry-gone_at :
    (tr : Trace) (key : String) → expiry timed_env tr key ≡ gone_at sample_env.clock tr key
unfolding expiry gone_at
expiry-gone_at [] key = refl
expiry-gone_at (c ∷ tr) key = rw (expiry-gone_at tr key) (elim (Option-cases (set_by c)) [
  | inl other ↦ rw other refl
  | inr ((k, ttl), claims) ↦ rw claims (elim (Bool-cases (str_eq k key)) [
    | inr differ ↦ rw differ refl
    | inl same ↦ rw ((eq_iff k key).0 same) (ground (arith, eq_refl key))
  ])
])

timed-KeepsKeys : KeepsKeys timed_env
timed-KeepsKeys = record { answers = λ tr key ttl set h. rw (expiry-gone_at tr key) (ground arith) }

timed-ClockForward : ClockForward timed_env
timed-ClockForward = record { later = λ c tr. omega arith }

abbrev run_timed : ℕ → Trace → ℕ × Trace
run_timed n tr =
    process_message timed_env same_text same_char sample_normaliser sample_registry true (pos 3) n
      sample_message tr

redelivery_dropped_example : run_timed 2 (run_timed 2 []).1 ≡ (
  2,
  commit_messages sample_message
      ∷ set_nx (url_key same_text same_char "https://s.de/jobs") (24 * 3600000)
      ∷ (run_timed 2 []).1,
)
unfolding process_message gone_at jobcrawler.Processor.Worker.commit jobcrawler.Kafka.commit_message
    jobcrawler.Processor.Dedup.is_url_crawled jobcrawler.Crawler.Registry.get_source
    jobcrawler.Processor.Dedup.is_duplicate jobcrawler.Processor.Dedup.fingerprint
    jobcrawler.Processor.Dedup.normalise_field jobcrawler.Base.map_chars jobcrawler.Base.trim_space
    at_cap jobcrawler.Processor.Alerts.find_matching_alerts
    jobcrawler.Processor.Alerts.notify_matches jobcrawler.Processor.Alerts.select_alerts
    jobcrawler.Kafka.publish jobcrawler.Processor.Worker.refresh_beside
redelivery_dropped_example =
    redelivery_dropped timed_env same_text same_char sample_normaliser sample_registry true (pos 3)
      2 sample_message (sample_raw "https://s.de/jobs") refl timed-ClockForward timed-KeepsKeys 2 []
      false refl refl (omega arith)

matches_filter_iff_example :
    ((matches_filter same_char sample_job sample_filter ≡ true)
      ↔ SatisfiesFour same_char sample_job sample_filter)
    × (matches_filter same_char sample_job
          (record sample_filter { location = "Bonn"; sources = source_xing ∷ [] })
        ≡ matches_filter same_char sample_job sample_filter)
matches_filter_iff_example =
    matches_filter_iff same_char sample_job sample_filter "Bonn" (source_xing ∷ [])

-- The worker with the normaliser of the repository.
abbrev run_normalised : ℕ → Trace → ℕ × Trace
run_normalised n tr =
    process_message sample_env same_text same_char (new_normaliser same_char same_char (λ xs. xs))
      sample_registry true (pos 3) n sample_message tr

process_message-clean_example : count is_unclean (run_normalised 2 []).1 ≡ 0
process_message-clean_example =
    process_message-clean sample_env same_text same_char same_char (λ xs. xs) sample_registry true
      (pos 3) 2 sample_message []
