-- ===== src/Processor/Worker/Cap.antt =====
-- The cap on stored jobs of internal/processor/worker.go.
use Prim.Native.Char.{Char}
use jobcrawler.Base.{
  subst, ℕ, ℤ, ltb, ◌&&◌, ◌+◌, ◌∷◌, ◌≤◌, ◌<◌, String, ◌≡◌, ◌⊎◌, Bool, true, false, arith,
  positive_part, refl, inl, inr, ◌∙◌, Bool-cases,
}
use jobcrawler.Domain.{Job, RawCrawlResult}
use jobcrawler.World.Errors.{wrap, Result, ok, err, Result-cases}
use jobcrawler.World.{KafkaMessage, Stored, Env, Trace, upsert_job}
use jobcrawler.World.Counting.{is_upsert, upserts}
use jobcrawler.Kafka.{commit_message}
use jobcrawler.Crawler.Registry.{RawJob, SourceRegistry, get_source}
use jobcrawler.Processor.Dedup.{is_duplicate, is_url_crawled}
use jobcrawler.Processor.Worker.Silence.{upsert-IsSilent, count-publish_to_dlq}
use jobcrawler.Processor.Worker.{
  Normaliser, at_cap, bump_count, refreshed, refresh_beside, after_upsert, persist, build_job,
  handle_parsed, parse_page, handle_raw, process_message, commit,
}

module _ (env : Env) (sha256_hex : String → String) (lower : Char → Char) (norm : Normaliser)
    (registry : SourceRegistry) (alerts_wired : Bool) (max_total_jobs : ℤ) where
  -- The count stays, or is raised below the cap, from what it was or from what the refresher has read
  -- in between.
  abbrev Counted : ℕ → ℕ → Type 0
  Counted n n' =
      (n' ≡ n)
      ⊎ ((at_cap max_total_jobs n ≡ false)
          × ((n' ≡ bump_count max_total_jobs n)
              ⊎ ((job : Job) × (t : Trace) × (m : ℕ) × (env.refresher_ticks (upsert_job job ∷ t)
                    ≡ true)
                  × (env.count_answer (upsert_job job ∷ t) ≡ ok m)
                  × (n' ≡ bump_count max_total_jobs m))))

  refreshed-Counted :
      (n : ℕ) (job : Job) (tr : Trace)
      → at_cap max_total_jobs n ≡ false
      → Counted n (
          bump_count max_total_jobs
            (refresh_beside env sha256_hex lower norm registry alerts_wired max_total_jobs n
              (upsert_job job ∷ tr)).0)
  unfolding refresh_beside refreshed
  refreshed-Counted n job tr room =
      elim (Bool-cases
        (ltb 0 (positive_part max_total_jobs) && env.refresher_ticks (upsert_job job ∷ tr))) [
          | inr quiet ↦ rw quiet (inr (room, inl refl))
          | inl ticks ↦ elim (Result-cases (env.count_answer (upsert_job job ∷ tr))) [
            | inr (e, failed) ↦ rw (ticks, failed) (inr (room, inl refl))
            | inl (m, read) ↦
                rw (ticks, read) (inr (room, inr (job, tr, m, ground arith, read, refl)))
          ]
        ]

  after_upsert-Counted :
      (n : ℕ) (msg : KafkaMessage) (job : Job) (r : Result Stored) (tr : Trace)
      → at_cap max_total_jobs n ≡ false
      → Counted n
          (after_upsert env sha256_hex lower norm registry alerts_wired max_total_jobs n msg job r
            (upsert_job job ∷ tr)).0
  unfolding after_upsert
  after_upsert-Counted n msg job (err e) tr room = inl refl
  after_upsert-Counted n msg job (ok s) tr room = refreshed-Counted n job tr room

  persist-Counted :
      (n : ℕ) (msg : KafkaMessage) (job : Job) (tr : Trace)
      → Counted n
          (persist env sha256_hex lower norm registry alerts_wired max_total_jobs n msg job tr).0
  unfolding persist
  persist-Counted n msg job tr =
      let stored = env.upsert_answer tr job in
      elim (Bool-cases (at_cap max_total_jobs n)) [
        | inl full ↦ inl (rw full refl)
        | inr room ↦
            let there : (after_upsert env sha256_hex lower norm registry alerts_wired max_total_jobs
                  n msg job stored (upsert_job job ∷ tr)).0
                ≡ (persist env sha256_hex lower norm registry alerts_wired max_total_jobs n msg job
                    tr).0 =
              rw room refl in
            subst (Counted n) there (after_upsert-Counted n msg job stored tr room)
      ]

  handle_parsed-Counted :
      (n : ℕ) (msg : KafkaMessage) (raw : RawCrawlResult) (r : Result RawJob) (tr : Trace)
      → Counted n
          (handle_parsed env sha256_hex lower norm registry alerts_wired max_total_jobs n msg raw r
            tr).0
  unfolding handle_parsed
  handle_parsed-Counted n msg raw (err e) tr = inl refl
  handle_parsed-Counted n msg raw (ok raw_job) tr =
      let claim =
        is_duplicate sha256_hex lower env raw_job.title raw_job.company raw_job.location tr in
      let job =
        build_job env sha256_hex lower norm registry alerts_wired max_total_jobs raw raw_job in
      elim (Bool-cases claim.0.0) [
        | inl duplicate ↦ rw duplicate (inl refl)
        | inr new ↦ rw new (persist-Counted n msg job claim.1)
      ]

  handle_raw-Counted :
      (n : ℕ) (msg : KafkaMessage) (r : Result RawCrawlResult) (tr : Trace)
      → Counted n
          (handle_raw env sha256_hex lower norm registry alerts_wired max_total_jobs n msg r tr).0
  unfolding handle_raw
  handle_raw-Counted n msg (err e) tr = inl refl
  handle_raw-Counted n msg (ok raw) tr =
      let claim = is_url_crawled sha256_hex lower env raw.url tr in
      elim (Bool-cases claim.0.0) [
        | inl crawled ↦ rw crawled (inl refl)
        | inr new ↦ rw new (elim (Result-cases (get_source registry raw.source)) [
          | inr (e, missing) ↦ rw (parse_page, missing) (inl refl)
          | inl (src, found) ↦
              rw (parse_page, found)
                (handle_parsed-Counted n msg raw (src.parse_detail raw.html) claim.1)
        ])
      ]

  -- With a cap that is set, a live count at or below it is still so after a message, unless the
  -- refresher ticks between the upsert of a job and the raise and stores the count that the database
  -- then answers: in that case it may be one more than this.
  pub process_message_capped :
      (n : ℕ) (msg : KafkaMessage) (tr : Trace)
      → 0 < positive_part max_total_jobs
      → n ≤ positive_part max_total_jobs
      → let n' =
          (process_message env sha256_hex lower norm registry alerts_wired max_total_jobs n msg
            tr).0 in
        (n' ≤ positive_part max_total_jobs)
        ⊎ ((job : Job) × (t : Trace) × (m : ℕ) × (env.refresher_ticks (upsert_job job ∷ t) ≡ true)
            × (env.count_answer (upsert_job job ∷ t) ≡ ok m)
            × (n' ≡ m + 1))
  unfolding process_message at_cap bump_count
  process_message_capped n msg tr set below =
      elim (handle_raw-Counted n msg (env.unmarshal_raw msg.value) tr) [
        | inl stays ↦ inl (omega (arith, stays))
        | inr (room, inl raised) ↦ inl (ground arith)
        | inr (room, inr (job, t, m, ticks, read, raised)) ↦
            inr (job, t, m, ticks, read, ground arith)
      ]

  full_handle_parsed :
      (n : ℕ) (msg : KafkaMessage) (raw : RawCrawlResult) (r : Result RawJob) (tr : Trace)
      → at_cap max_total_jobs n ≡ true
      → upserts
          (handle_parsed env sha256_hex lower norm registry alerts_wired max_total_jobs n msg raw r
            tr).1
        ≡ upserts tr
  unfolding handle_parsed is_duplicate
  full_handle_parsed n msg raw (err e) tr full =
      count-publish_to_dlq is_upsert upsert-IsSilent env msg (wrap "parse detail: " e) tr
  full_handle_parsed n msg raw (ok raw_job) tr full = ground arith

  full_handle_raw :
      (n : ℕ) (msg : KafkaMessage) (r : Result RawCrawlResult) (tr : Trace)
      → at_cap max_total_jobs n ≡ true
      → upserts
          (handle_raw env sha256_hex lower norm registry alerts_wired max_total_jobs n msg r tr).1
        ≡ upserts tr
  unfolding handle_raw
  full_handle_raw n msg (err e) tr full =
      count-publish_to_dlq is_upsert upsert-IsSilent env msg (wrap "unmarshal: " e) tr
  full_handle_raw n msg (ok raw) tr full =
      let claim = is_url_crawled sha256_hex lower env raw.url tr in
      let same : upserts claim.1 ≡ upserts tr = unfold is_url_crawled in refl in
      elim (Bool-cases claim.0.0) [
        | inl crawled ↦ rw crawled same
        | inr new ↦ rw new (elim (Result-cases (get_source registry raw.source)) [
          | inr (e, missing) ↦
              rw (parse_page, missing)
                (count-publish_to_dlq is_upsert upsert-IsSilent env msg e claim.1 ∙ same)
          | inl (src, found) ↦
              rw (parse_page, found)
                (full_handle_parsed n msg raw (src.parse_detail raw.html) claim.1 full ∙ same)
        ])
      ]

  -- At the cap nothing is stored and the count stays, whatever the message and the answers.
  pub process_message_full :
      (n : ℕ) (msg : KafkaMessage) (tr : Trace)
      → at_cap max_total_jobs n ≡ true
      → ((process_message env sha256_hex lower norm registry alerts_wired max_total_jobs n msg tr).0
          ≡ n)
        × (upserts
              (process_message env sha256_hex lower norm registry alerts_wired max_total_jobs n msg
                tr).1
            ≡ upserts tr)
  unfolding process_message commit commit_message
  process_message_full n msg tr full = (
    elim (handle_raw-Counted n msg (env.unmarshal_raw msg.value) tr) [
      | inl stays ↦ stays
      | inr (room, raised) ↦ absurd (ground arith)
    ],
    full_handle_raw n msg (env.unmarshal_raw msg.value) tr full,
  )
