-- ===== src/Processor/Worker/Silence.antt =====
-- Which calls the processor worker (internal/processor/worker.go) makes beside storing a job, and what
-- they leave uncounted.
use Prim.Native.Char.{Char}
use jobcrawler.Base.{
  ℕ, ℤ, ◌+◌, ◌≤◌, String, ◌≡◌, Bool, true, false, List, [], ◌∷◌, arith, count, refl, inl, inr, ◌∙◌,
  Bool-cases,
}
use jobcrawler.Domain.{Job, JobAlert, RawCrawlResult}
use jobcrawler.World.Errors.{Err, wrap, Result, ok, err, Result-cases}
use jobcrawler.World.{
  KafkaMessage, Stored, Env, Trace, Call, write_messages, set_nx, list_alerts, count_jobs,
  upsert_job, commit_messages,
}
use jobcrawler.World.Counting.{is_commit, is_upsert, commits}
use jobcrawler.Kafka.{topic_jobs_processed, topic_jobs_failed, commit_message}
use jobcrawler.Kafka.Silence.{count-publish_to}
use jobcrawler.Crawler.Registry.{RawJob, SourceRegistry, get_source}
use jobcrawler.Processor.Dlq.{publish_to_dlq, dlq_key}
use jobcrawler.Processor.Dedup.{is_duplicate, is_url_crawled}
use jobcrawler.Processor.Alerts.{find_matching_alerts, notify_matches, select_alerts}
use jobcrawler.Processor.Worker.{
  Normaliser, at_cap, commit, build_job, refresh_beside, match_alerts, announce, stored_job,
  after_upsert, persist, handle_parsed, parse_page, handle_raw, process_message,
}

-- The calls that the processor makes beside storing a job and committing.
pub record IsSilent (p : Call → Bool) : Type 0 where
  pub failures :
      (m : KafkaMessage) → m.topic ≡ topic_jobs_failed → p (write_messages (m ∷ [])) ≡ false
  pub results :
      (m : KafkaMessage) → m.topic ≡ topic_jobs_processed → p (write_messages (m ∷ [])) ≡ false
  pub claims : (key : String) (ttl : ℕ) → p (set_nx key ttl) ≡ false
  pub alerts : (frequency : String) → p (list_alerts frequency) ≡ false
  pub counts : p count_jobs ≡ false

pub commit-IsSilent : IsSilent is_commit
commit-IsSilent = record {
  failures = λ _ _. refl;
  results = λ _ _. refl;
  claims = λ _ _. refl;
  alerts = λ _. refl;
  counts = refl;
}

pub upsert-IsSilent : IsSilent is_upsert
upsert-IsSilent = record {
  failures = λ _ _. refl;
  results = λ _ _. refl;
  claims = λ _ _. refl;
  alerts = λ _. refl;
  counts = refl;
}

module _ (p : Call → Bool) (s : IsSilent p) (env : Env) where
  pub count-publish_to_dlq :
      (msg : KafkaMessage) (e : Err) (tr : Trace)
      → count p (publish_to_dlq env msg e tr).1 ≡ count p tr
  unfolding publish_to_dlq
  count-publish_to_dlq msg e tr =
      count-publish_to p env "" topic_jobs_failed s.failures (dlq_key msg) _ tr

  count-notify_matches :
      (job : Job) (alerts : List JobAlert) (tr : Trace)
      → count p (notify_matches env job alerts tr).1 ≡ count p tr
  unfolding notify_matches
  count-notify_matches job [] tr = refl
  count-notify_matches job (a ∷ alerts) tr =
      count-notify_matches job alerts _
      ∙ count-publish_to p env job.id topic_jobs_processed s.results a.id _ tr

module _ (env : Env) (sha256_hex : String → String) (lower : Char → Char) (norm : Normaliser)
    (registry : SourceRegistry) (alerts_wired : Bool) (max_total_jobs : ℤ) where
  module _ (p : Call → Bool) (s : IsSilent p) where
    count-match_alerts :
        (wired : Bool) (job : Job) (tr : Trace)
        → count p
            (match_alerts env sha256_hex lower norm registry alerts_wired max_total_jobs wired job
              tr).1
          ≡ count p tr
    unfolding match_alerts find_matching_alerts
    count-match_alerts false job tr = refl
    count-match_alerts true job tr = elim (Result-cases (env.alerts_answer tr "IMMEDIATE")) [
      | inr (e, failed) ↦ rw (failed, s.alerts "IMMEDIATE")
      | inl (found, listed) ↦ rw listed (
          count-notify_matches p s env job (select_alerts lower job found)
            (list_alerts "IMMEDIATE" ∷ tr)
          ∙ rw (s.alerts "IMMEDIATE"))
    ]

    count-announce :
        (job : Job) (tr : Trace)
        → count p (announce env sha256_hex lower norm registry alerts_wired max_total_jobs job tr).1
          ≡ count p tr
    unfolding announce
    count-announce job tr =
        count-match_alerts alerts_wired job _
        ∙ count-publish_to p env "" topic_jobs_processed s.results job.id _ tr

    count-refresh_beside :
        (n : ℕ) (tr : Trace)
        → count p
            (refresh_beside env sha256_hex lower norm registry alerts_wired max_total_jobs n tr).1
          ≡ count p tr
    unfolding refresh_beside
    count-refresh_beside n tr = ground (arith, s.counts)

    -- At most `w` more calls that are counted, and none lost.
    abbrev pub Adds : ℕ → Trace → Trace → Type 0
    Adds w tr tr' = (count p tr ≤ count p tr') × (count p tr' ≤ count p tr + w)

    module _ (w : ℕ) where
      -- No job of the page costs more.
      abbrev pub Costs : RawCrawlResult → Type 0
      Costs raw =
          (raw_job : RawJob) (tr : Trace)
          → Adds w tr (
              upsert_job (
                build_job env sha256_hex lower norm registry alerts_wired max_total_jobs raw
                  raw_job)
              ∷ tr)

      after_upsert-Adds :
          (n : ℕ) (msg : KafkaMessage) (job : Job) (r : Result Stored) (tr : Trace)
          → Adds 0 tr
              (after_upsert env sha256_hex lower norm registry alerts_wired max_total_jobs n msg job
                r tr).1
      unfolding after_upsert
      after_upsert-Adds n msg job (err e) tr =
          omega (arith, count-publish_to_dlq p s env msg (wrap "upsert: " e) tr)
      after_upsert-Adds n msg job (ok st) tr =
          let fresh =
            refresh_beside env sha256_hex lower norm registry alerts_wired max_total_jobs n tr in
          omega (
            arith,
            count-announce
                (stored_job env sha256_hex lower norm registry alerts_wired max_total_jobs job st)
                fresh.1,
            count-refresh_beside n tr,
          )

      persist-Adds :
          (n : ℕ) (msg : KafkaMessage) (job : Job) (tr : Trace)
          → Adds w tr (upsert_job job ∷ tr)
          → Adds w tr
              (persist env sha256_hex lower norm registry alerts_wired max_total_jobs n msg job
                tr).1
      unfolding persist
      persist-Adds n msg job tr stored = elim (Bool-cases (at_cap max_total_jobs n)) [
        | inl full ↦ rw full (omega arith)
        | inr room ↦ rw room (
            omega (
              arith,
              stored,
              after_upsert-Adds n msg job (env.upsert_answer tr job) (upsert_job job ∷ tr),
            ))
      ]

      handle_parsed-Adds :
          (n : ℕ) (msg : KafkaMessage) (raw : RawCrawlResult) (r : Result RawJob) (tr : Trace)
          → Costs raw
          → Adds w tr
              (handle_parsed env sha256_hex lower norm registry alerts_wired max_total_jobs n msg
                raw r tr).1
      unfolding handle_parsed
      handle_parsed-Adds n msg raw (err e) tr cost =
          omega (arith, count-publish_to_dlq p s env msg (wrap "parse detail: " e) tr)
      handle_parsed-Adds n msg raw (ok raw_job) tr cost =
          let claim =
            is_duplicate sha256_hex lower env raw_job.title raw_job.company raw_job.location tr in
          let job =
            build_job env sha256_hex lower norm registry alerts_wired max_total_jobs raw raw_job in
          let same : count p claim.1 ≡ count p tr = unfold is_duplicate in rw s.claims in
          elim (Bool-cases claim.0.0) [
            | inl duplicate ↦ rw duplicate (omega arith)
            | inr new ↦
                rw new (omega (arith, persist-Adds n msg job claim.1 (cost raw_job claim.1)))
          ]

      pub handle_raw-Adds :
          (n : ℕ) (msg : KafkaMessage) (r : Result RawCrawlResult) (tr : Trace)
          → ((raw : RawCrawlResult) → r ≡ ok raw → Costs raw)
          → Adds w tr
              (handle_raw env sha256_hex lower norm registry alerts_wired max_total_jobs n msg r
                tr).1
      unfolding handle_raw parse_page
      handle_raw-Adds n msg (err e) tr cost =
          omega (arith, count-publish_to_dlq p s env msg (wrap "unmarshal: " e) tr)
      handle_raw-Adds n msg (ok raw) tr cost =
          let claim = is_url_crawled sha256_hex lower env raw.url tr in
          let same : count p claim.1 ≡ count p tr = unfold is_url_crawled in rw s.claims in
          elim (Bool-cases claim.0.0) [
            | inl crawled ↦ rw crawled (omega arith)
            | inr new ↦ rw new (elim (Result-cases (get_source registry raw.source)) [
              | inr (e, missing) ↦
                  rw missing (omega (arith, count-publish_to_dlq p s env msg e claim.1))
              | inl (src, found) ↦ rw found (
                  omega (
                    arith,
                    handle_parsed-Adds n msg raw (src.parse_detail raw.html) claim.1
                        (cost raw refl),
                  ))
            ])
          ]

  -- Calls that the processor does not make stay as many, if it stores no job that counts as one.
  pub count-process_message :
      (p : Call → Bool)
      → IsSilent p
      → ((m : KafkaMessage) → p (commit_messages m) ≡ false)
      → (n : ℕ) (msg : KafkaMessage) (tr : Trace)
      → ((raw : RawCrawlResult)
          → env.unmarshal_raw msg.value ≡ ok raw
          → (raw_job : RawJob)
          → p (
              upsert_job (
                build_job env sha256_hex lower norm registry alerts_wired max_total_jobs raw
                  raw_job))
            ≡ false)
      → count p
          (process_message env sha256_hex lower norm registry alerts_wired max_total_jobs n msg
            tr).1
        ≡ count p tr
  unfolding process_message commit commit_message
  count-process_message p s commits n msg tr stores = rw (commits msg) (
      omega (
        arith,
        handle_raw-Adds p s 0 n msg (env.unmarshal_raw msg.value) tr
            (λ raw decoded raw_job t. rw (stores raw decoded raw_job) (omega arith)),
      ))

  pub build_job_fields :
      (raw : RawCrawlResult) (raw_job : RawJob)
      → let job =
          build_job env sha256_hex lower norm registry alerts_wired max_total_jobs raw raw_job in
        (job.source ≡ raw.source) × (job.url ≡ raw.url)
  unfolding build_job
  build_job_fields raw raw_job = (refl, refl)
