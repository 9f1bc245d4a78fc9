-- ===== src/Processor/Worker.antt =====
-- internal/processor/worker.go: one message of jobs.raw from its fetch to its commit. The live count
-- of stored jobs is the state. The normaliser, the digest, lower case and the trace ids of log lines
-- are parameters or left out; the alert matcher is wired or not.
pub mod Silence
pub mod Commits
pub mod Cap
pub mod Redelivery
pub mod Normalised
pub mod Consumer
use Prim.Native.Char.{Char}
use jobcrawler.Base.{
  ℕ, ℤ, zero, suc, ◌+◌, String, Bool, true, false, ◌&&◌, Option, none, some, List, [], ◌∷◌, ltb,
  leb, positive_part, if◌then◌else◌,
}
use jobcrawler.Domain.{Job, JobAlert, RawCrawlResult, RemoteType}
use jobcrawler.World.Errors.{Err, wrap, Result, ok, err}
use jobcrawler.World.{
  KafkaMessage, Stored, processed, Env, Io, Trace, upsert_job, count_jobs, perform,
}
use jobcrawler.Kafka.{topic_jobs_raw, topic_jobs_processed, publish, commit_message}
use jobcrawler.Crawler.Registry.{RawJob, Source, SourceRegistry, get_source}
use jobcrawler.Processor.Dlq.{publish_to_dlq}
use jobcrawler.Processor.Dedup.{fingerprint, is_duplicate, is_url_crawled}
use jobcrawler.Processor.Alerts.{find_matching_alerts, notify_matches}

-- The operations of `Normalizer` that the worker calls.
pub record Normaliser : Type 0 where
  pub normalize_title : String → String
  pub normalize_location : String → String
  pub detect_remote : String → RemoteType
  pub extract_tags : String → String → List String
  pub parse_salary : String → Option ℤ × Option ℤ × String

-- atCap, of the setting and the live count.
unfoldable pub at_cap : ℤ → ℕ → Bool
at_cap max_total_jobs job_count =
    ltb 0 (positive_part max_total_jobs) && leb (positive_part max_total_jobs) job_count

-- The count after an upsert that succeeded.
unfoldable pub bump_count : ℤ → ℕ → ℕ
bump_count max_total_jobs job_count =
    if ltb 0 (positive_part max_total_jobs) then job_count + 1 else job_count

-- refreshCount, of what the database answers.
unfoldable pub refreshed : ℕ → Result ℕ → ℕ
refreshed job_count (err e) = job_count
refreshed job_count (ok n) = n

module _ (env : Env) (sha256_hex : String → String) (lower : Char → Char) (norm : Normaliser)
    (registry : SourceRegistry) (alerts_wired : Bool) (max_total_jobs : ℤ) where
  -- refreshCount
  unfoldable pub refresh_count : ℕ → Io ℕ
  unfolding refreshed
  refresh_count job_count tr =
      let (r, tr') = perform count_jobs (λ t. env.count_answer t) tr in (refreshed job_count r, tr')

  unfoldable pub commit : KafkaMessage → Io (Unit {0})
  commit msg tr = let (_, tr') = commit_message env topic_jobs_raw msg tr in (tt, tr')

  -- Step 5: the job of a parsed page.
  unfoldable pub build_job : RawCrawlResult → RawJob → Job
  build_job raw raw_job =
      let (salary_min, salary_max, currency) = norm.parse_salary raw_job.salary_text in
      record {
        id = "";
        external_id = raw_job.external_id;
        source = raw.source;
        title = norm.normalize_title raw_job.title;
        company = record { id = ""; name = raw_job.company; website = ""; logo_url = "" };
        location = record {
          city = norm.normalize_location raw_job.location;
          state = "";
          country = "";
          postal_code = "";
        };
        remote = norm.detect_remote raw_job.description;
        salary_min = salary_min;
        salary_max = salary_max;
        salary_currency = currency;
        description = raw_job.description;
        tags = norm.extract_tags raw_job.title raw_job.description;
        published_at = 0;
        expires_at = none;
        url = raw.url;
        fingerprint = fingerprint sha256_hex lower raw_job.title raw_job.company raw_job.location;
        created_at = 0;
        updated_at = 0;
      }

  notify_found : Job → Result (List JobAlert) → Io (Unit {0})
  notify_found job (err e) tr = (tt, tr)
  notify_found job (ok matches) tr = notify_matches env job matches tr

  -- Step 8; with no match NotifyMatches has nothing to do.
  match_alerts : Bool → Job → Io (Unit {0})
  unfolding notify_found
  match_alerts false job tr = (tt, tr)
  match_alerts true job tr =
      let (r, tr') = find_matching_alerts lower env job tr in notify_found job r tr'

  -- Steps 7 and 8, for the job as stored; a failure of either is only logged.
  announce : Job → Io (Unit {0})
  unfolding match_alerts
  announce job tr =
      let (_, tr') = publish env "" topic_jobs_processed job.id (processed job) tr in
      match_alerts alerts_wired job tr'

  abbrev stored_job : Job → Stored → Job
  stored_job job s = record job { id = s.id; created_at = s.created_at; updated_at = s.updated_at }

  -- A tick of startCountRefresher between the test of the cap and the raise of the count, which another
  -- goroutine may store in between. Nothing reads the count earlier in a message, so a tick before the
  -- test is one before the message.
  unfoldable pub refresh_beside : ℕ → Io ℕ
  unfolding refresh_count
  refresh_beside count tr =
      if ltb 0 (positive_part max_total_jobs) && env.refresher_ticks tr
      then refresh_count count tr
      else (count, tr)

  after_upsert : ℕ → KafkaMessage → Job → Result Stored → Io ℕ
  unfolding announce
  after_upsert count msg job (err e) tr =
      let (_, tr') = publish_to_dlq env msg (wrap "upsert: " e) tr in (count, tr')
  after_upsert count msg job (ok s) tr =
      let (count', tr1) = refresh_beside count tr in
      let (_, tr2) = announce (stored_job job s) tr1 in (bump_count max_total_jobs count', tr2)

  -- Step 6
  persist : ℕ → KafkaMessage → Job → Io ℕ
  unfolding after_upsert
  persist count msg job tr =
      if at_cap max_total_jobs count
      then (count, tr)
      else let (r, tr') = perform (upsert_job job) (λ t. env.upsert_answer t job) tr in
        after_upsert count msg job r tr'

  -- Steps 4 to 6 of a parsed page.
  handle_parsed : ℕ → KafkaMessage → RawCrawlResult → Result RawJob → Io ℕ
  unfolding persist
  handle_parsed count msg raw (err e) tr =
      let (_, tr') = publish_to_dlq env msg (wrap "parse detail: " e) tr in (count, tr')
  handle_parsed count msg raw (ok raw_job) tr =
      let ((duplicate, _), tr') =
        is_duplicate sha256_hex lower env raw_job.title raw_job.company raw_job.location tr in
      if duplicate then (count, tr') else persist count msg (build_job raw raw_job) tr'

  -- Step 3
  parse_page : ℕ → KafkaMessage → RawCrawlResult → Result Source → Io ℕ
  unfolding handle_parsed
  parse_page count msg raw (err e) tr = let (_, tr') = publish_to_dlq env msg e tr in (count, tr')
  parse_page count msg raw (ok source) tr =
      handle_parsed count msg raw (source.parse_detail raw.html) tr

  -- Steps 1 to 8, without the deferred commit.
  unfoldable pub handle_raw : ℕ → KafkaMessage → Result RawCrawlResult → Io ℕ
  unfolding parse_page
  handle_raw count msg (err e) tr =
      let (_, tr') = publish_to_dlq env msg (wrap "unmarshal: " e) tr in (count, tr')
  handle_raw count msg (ok raw) tr =
      let ((crawled, _), tr') = is_url_crawled sha256_hex lower env raw.url tr in
      if crawled
      then (count, tr')
      else parse_page count msg raw (get_source registry raw.source) tr'

  -- processMessage: the new count; the commit is deferred to the end.
  unfoldable pub process_message : ℕ → KafkaMessage → Io ℕ
  unfolding handle_raw
  process_message count msg tr =
      let (count', tr1) = handle_raw count msg (env.unmarshal_raw msg.value) tr in
      let (_, tr2) = commit msg tr1 in (count', tr2)
