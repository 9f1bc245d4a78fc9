-- ===== src/Processor/Worker/Redelivery.antt =====
-- What the processor worker (internal/processor/worker.go) does with a message that it has seen: the
-- keys of internal/processor/dedup.go are set before the outcome is known.
use Prim.Native.Char.{Char}
use text.Mathlib.TextPositions.{eq_refl}
use jobcrawler.Base.{
  ℕ, ℤ, ◌+◌, ◌*◌, ◌<◌, String, not, Option, none, some, ltb, positive_part, ◌&&◌, refl, ◌∙◌,
  Option-cases, if◌then◌else◌, ◌≡◌, Bool, true, false, List, [], ◌∷◌, arith, str_eq, inl, inr,
  Bool-cases,
}
use jobcrawler.Domain.{Job, JobAlert, RawCrawlResult}
use jobcrawler.World.Errors.{Err, wrap, Result, ok, err, Result-cases}
use jobcrawler.World.{
  KafkaMessage, Payload, Stored, Env, Trace, Call, set_nx, commit_messages, upsert_job, list_alerts,
}
use jobcrawler.Kafka.{publish, commit_message}
use jobcrawler.Crawler.Registry.{RawJob, SourceRegistry, get_source}
use jobcrawler.Processor.Dlq.{publish_to_dlq}
use jobcrawler.Redis.RateLimiter.Window.{ClockForward}
use jobcrawler.Processor.Dedup.Window.{is_before, set_by}
use jobcrawler.Processor.Dedup.{url_key, is_duplicate, is_url_crawled}
use jobcrawler.Processor.Alerts.{find_matching_alerts, notify_matches, select_alerts}
use jobcrawler.Processor.Worker.{
  Normaliser, at_cap, commit, build_job, refresh_beside, match_alerts, announce, stored_job,
  after_upsert, persist, handle_parsed, parse_page, handle_raw, process_message,
}

-- An answer of SETNX that the key was set.
abbrev pub was_set : Result Bool → Bool
was_set (ok set) = set
was_set (err e) = false

module _ (env : Env) where
  -- The expiry of a key as a call leaves it: a SETNX that finds the key gone, and that is answered, sets
  -- it; one that fails sets nothing.
  abbrev set_again : Trace → String → Option ℕ → Option (String × ℕ) → Option ℕ
  set_again tr key before none = before
  set_again tr key before (some (k, ttl)) =
      if str_eq k key
      then (if is_before (env.clock tr) before
          then before
          else if was_set (env.set_nx_answer tr k ttl)
          then some (env.clock tr + ttl)
          else before)
      else before

  unfoldable pub expiry : Trace → String → Option ℕ
  expiry [] key = none
  expiry (c ∷ tr) key = set_again tr key (expiry tr key) (set_by c)

-- SETNX fails, or answers as Redis documents it: true where the key is not there or has expired.
pub record KeepsKeys (env : Env) : Type 0 where
  pub answers :
      (tr : Trace) (key : String) (ttl : ℕ) (set : Bool)
      → env.set_nx_answer tr key ttl ≡ ok set
      → set ≡ not (is_before (env.clock tr) (expiry env tr key))

-- The trace after some more calls.
data Extends (tr : Trace) : Trace → Type 0 where
  same : Extends tr tr
  more : {tr' : Trace} (c : Call) → Extends tr tr' → Extends tr (c ∷ tr')

Extends-trans : {t1 t2 t3 : Trace} → Extends t1 t2 → Extends t2 t3 → Extends t1 t3
Extends-trans h same = h
Extends-trans h (more c k) = more c (Extends-trans h k)

module _ (env : Env) where
  publish_keeps :
      (trace_id topic key : String) (payload : Payload) (tr : Trace)
      → Extends tr (publish env trace_id topic key payload tr).1
  unfolding publish
  publish_keeps trace_id topic key payload tr = elim (Result-cases (env.marshal payload)) [
    | inr (e, failed) ↦ rw failed same
    | inl (value, coded) ↦ rw coded (more _ same)
  ]

  notify_matches_keeps :
      (job : Job) (alerts : List JobAlert) (tr : Trace)
      → Extends tr (notify_matches env job alerts tr).1
  unfolding notify_matches
  notify_matches_keeps job [] tr = same
  notify_matches_keeps job (a ∷ alerts) tr =
      Extends-trans (publish_keeps job.id "jobs.processed" a.id _ tr)
        (notify_matches_keeps job alerts _)

  dlq_keeps :
      (msg : KafkaMessage) (e : Err) (tr : Trace) → Extends tr (publish_to_dlq env msg e tr).1
  unfolding publish_to_dlq
  dlq_keeps msg e tr = publish_keeps "" "jobs.failed" _ _ tr

module _ (env : Env) (sha256_hex : String → String) (lower : Char → Char) (norm : Normaliser)
    (registry : SourceRegistry) (alerts_wired : Bool) (max_total_jobs : ℤ) where
  match_alerts_keeps :
      (wired : Bool) (job : Job) (tr : Trace)
      → Extends tr
          (match_alerts env sha256_hex lower norm registry alerts_wired max_total_jobs wired job
            tr).1
  unfolding match_alerts find_matching_alerts
  match_alerts_keeps false job tr = same
  match_alerts_keeps true job tr = elim (Result-cases (env.alerts_answer tr "IMMEDIATE")) [
    | inr (e, failed) ↦ rw failed (more _ same)
    | inl (found, listed) ↦ rw listed (
        Extends-trans (more _ same) (
          notify_matches_keeps env job (select_alerts lower job found)
            (list_alerts "IMMEDIATE" ∷ tr)))
  ]

  refresh_keeps :
      (n : ℕ) (tr : Trace)
      → Extends tr
          (refresh_beside env sha256_hex lower norm registry alerts_wired max_total_jobs n tr).1
  unfolding refresh_beside
  refresh_keeps n tr =
      elim (Bool-cases (ltb 0 (positive_part max_total_jobs) && env.refresher_ticks tr)) [
        | inl ticks ↦ rw ticks (more _ same)
        | inr quiet ↦ rw quiet same
      ]

  after_upsert_keeps :
      (n : ℕ) (msg : KafkaMessage) (job : Job) (r : Result Stored) (tr : Trace)
      → Extends tr
          (after_upsert env sha256_hex lower norm registry alerts_wired max_total_jobs n msg job r
            tr).1
  unfolding after_upsert announce
  after_upsert_keeps n msg job (err e) tr = dlq_keeps env msg (wrap "upsert: " e) tr
  after_upsert_keeps n msg job (ok st) tr =
      Extends-trans
        (Extends-trans (refresh_keeps n tr) (publish_keeps env "" "jobs.processed" _ _ _))
        (match_alerts_keeps alerts_wired
          (stored_job env sha256_hex lower norm registry alerts_wired max_total_jobs job st) _)

  persist_keeps :
      (n : ℕ) (msg : KafkaMessage) (job : Job) (tr : Trace)
      → Extends tr
          (persist env sha256_hex lower norm registry alerts_wired max_total_jobs n msg job tr).1
  unfolding persist
  persist_keeps n msg job tr = elim (Bool-cases (at_cap max_total_jobs n)) [
    | inl full ↦ rw full (same)
    | inr room ↦ rw room (
        Extends-trans (more _ same)
          (after_upsert_keeps n msg job (env.upsert_answer tr job) (upsert_job job ∷ tr)))
  ]

  handle_parsed_keeps :
      (n : ℕ) (msg : KafkaMessage) (raw : RawCrawlResult) (r : Result RawJob) (tr : Trace)
      → Extends tr
          (handle_parsed env sha256_hex lower norm registry alerts_wired max_total_jobs n msg raw r
            tr).1
  unfolding handle_parsed
  handle_parsed_keeps n msg raw (err e) tr = dlq_keeps env msg (wrap "parse detail: " e) tr
  handle_parsed_keeps n msg raw (ok raw_job) tr =
      let claim =
        is_duplicate sha256_hex lower env raw_job.title raw_job.company raw_job.location tr in
      let claimed : Extends tr claim.1 = unfold is_duplicate in more _ same in
      let job =
        build_job env sha256_hex lower norm registry alerts_wired max_total_jobs raw raw_job in
      elim (Bool-cases claim.0.0) [
        | inl duplicate ↦ rw duplicate claimed
        | inr new ↦ rw new (Extends-trans claimed (persist_keeps n msg job claim.1))
      ]

  parse_page_keeps :
      (n : ℕ) (msg : KafkaMessage) (raw : RawCrawlResult) (tr : Trace)
      → Extends tr
          (parse_page env sha256_hex lower norm registry alerts_wired max_total_jobs n msg raw
            (get_source registry raw.source)
            tr).1
  unfolding parse_page
  parse_page_keeps n msg raw tr = elim (Result-cases (get_source registry raw.source)) [
    | inr (e, missing) ↦ rw missing (dlq_keeps env msg e tr)
    | inl (src, found) ↦ rw found (handle_parsed_keeps n msg raw (src.parse_detail raw.html) tr)
  ]

  module _ (forward : ClockForward env) (keeps : KeepsKeys env) where
    -- A key that is held stays held, until the same time, for as long as the clock is before it.
    expiry_stays :
        (key : String) (until : ℕ) {tr tr' : Trace}
        → Extends tr tr'
        → expiry env tr key ≡ some until
        → env.clock tr' < until
        → expiry env tr' key ≡ some until
    unfolding expiry
    expiry_stays key until same held before = held
    expiry_stays key until {tr' = _ ∷ t} (more c h) held before =
        let earlier : env.clock t < until = omega (arith, forward.later c t, before) in
        let stays = expiry_stays key until h held earlier in
        rw stays (elim (Option-cases (set_by c)) [
          | inl other ↦ rw other refl
          | inr ((k, ttl), claims) ↦ rw claims (ground arith)
        ])

  module _ (n : ℕ) (msg : KafkaMessage) (raw : RawCrawlResult)
      (decoded : env.unmarshal_raw msg.value ≡ ok raw) where
    abbrev pub key_of : String
    key_of = url_key sha256_hex lower raw.url

    abbrev pub claim_of : Call
    claim_of = set_nx key_of (24 * 3600000)

    claim_first :
        (tr : Trace)
        → Extends
            (claim_of ∷ tr)
            (process_message env sha256_hex lower norm registry alerts_wired max_total_jobs n msg
              tr).1
    unfolding process_message commit commit_message is_url_crawled
    claim_first tr =
        let claim = is_url_crawled sha256_hex lower env raw.url tr in
        rw (decoded, handle_raw)
          (elim (Bool-cases claim.0.0) [
            | inl crawled ↦ rw crawled (more _ same)
            | inr new ↦ rw new (more _ (parse_page_keeps n msg raw claim.1))
          ])

    drop_held :
        (n' : ℕ) (tr : Trace)
        → env.set_nx_answer tr key_of (24 * 3600000) ≡ ok false
        → process_message env sha256_hex lower norm registry alerts_wired max_total_jobs n' msg tr
          ≡ (n', commit_messages msg ∷ claim_of ∷ tr)
    unfolding process_message is_url_crawled commit commit_message
    drop_held n' tr held = rw (decoded, handle_raw, held) refl

    -- Where the SETNX for a message's URL was answered that it set the key, and the same message comes
    -- again right after its processing and within 24 hours of that SETNX, the second SETNX, if it is
    -- answered at all, has the message committed with nothing stored and nothing published, whatever
    -- came of the first processing: on a clock that does not run backwards, and with a Redis whose
    -- answers are the documented ones, though a SETNX may also fail, and then sets nothing.
    pub redelivery_dropped :
        ClockForward env
        → KeepsKeys env
        → (n' : ℕ) (tr : Trace) (set : Bool)
        → let first =
            process_message env sha256_hex lower norm registry alerts_wired max_total_jobs n msg
              tr in
          env.set_nx_answer tr key_of (24 * 3600000) ≡ ok true
          → env.set_nx_answer first.1 key_of (24 * 3600000) ≡ ok set
          → env.clock first.1 < env.clock tr + 24 * 3600000
          → process_message env sha256_hex lower norm registry alerts_wired max_total_jobs n' msg
              first.1
            ≡ (n', commit_messages msg ∷ claim_of ∷ first.1)
    unfolding expiry
    redelivery_dropped forward keeps n' tr set was again soon =
        let first =
          process_message env sha256_hex lower norm registry alerts_wired max_total_jobs n msg tr in
        let until = env.clock tr + 24 * 3600000 in
        let gone : true ≡ not (is_before (env.clock tr) (expiry env tr key_of)) =
          keeps.answers tr key_of (24 * 3600000) true was in
        let held : expiry env (claim_of ∷ tr) key_of ≡ some until =
          ground (arith, eq_refl key_of) in
        let later = expiry_stays forward keeps key_of until (claim_first tr) held soon in
        let no : set ≡ false =
          keeps.answers first.1 key_of (24 * 3600000) set again ∙ rw later (ground arith) in
        drop_held n' first.1 (rw no at again)
