-- ===== src/Processor/Worker/Consumer.antt =====
-- Start of internal/processor/worker.go: the consumer loop. Each entry of the schedule is one round of
-- the loop, and says whether the ticker of startCountRefresher has refreshed the count before it; a
-- refresh within a message is in process_message. A schedule that is used up has not ended the loop.
pub mod Stopping
use Prim.Native.Char.{Char}
use jobcrawler.Base.{
  ℕ, ℤ, ◌+◌, String, ◌≡◌, Bool, true, false, ◌&&◌, ◌||◌, List, [], ◌∷◌, arith, refl, ltb,
  positive_part, if◌then◌else◌, inl, inr, Bool-cases,
}
use jobcrawler.World.Errors.{Err, is, canceled, deadline_exceeded, Result, ok, err}
use jobcrawler.World.{KafkaMessage, Env, Io, Trace}
use jobcrawler.World.Counting.{commits}
use jobcrawler.Kafka.{topic_jobs_raw, fetch}
use jobcrawler.Crawler.Registry.{SourceRegistry}
use jobcrawler.Processor.Worker.{Normaliser, refresh_count, process_message}
use jobcrawler.Processor.Worker.Commits.{process_message-commits}

-- The live count, the messages handled so far, and whether the context has ended the loop.
pub record Progress : Type 0 where
  pub job_count : ℕ
  pub handled : ℕ
  pub stopped : Bool

-- The loop ends on a cancelled context, and only then.
abbrev pub ends_loop : Err → Bool
ends_loop e = is e canceled || is e deadline_exceeded

module _ (env : Env) (sha256_hex : String → String) (lower : Char → Char) (norm : Normaliser)
    (registry : SourceRegistry) (alerts_wired : Bool) (max_total_jobs : ℤ) where
  refresh_if : Bool → ℕ → Io ℕ
  refresh_if false job_count tr = (job_count, tr)
  refresh_if true job_count tr =
      refresh_count env sha256_hex lower norm registry alerts_wired max_total_jobs job_count tr

  abbrev capped : Bool
  capped = ltb 0 (positive_part max_total_jobs)

  after_fetch : ℕ → ℕ → Result KafkaMessage → (ℕ → ℕ → Io Progress) → Io Progress
  after_fetch job_count handled (err e) rest tr =
      if ends_loop e
      then (record { job_count = job_count; handled = handled; stopped = true }, tr)
      else rest job_count handled tr
  after_fetch job_count handled (ok msg) rest tr =
      let (job_count', tr') =
        process_message env sha256_hex lower norm registry alerts_wired max_total_jobs job_count msg
          tr in
      rest job_count' (handled + 1) tr'

  consume : List Bool → ℕ → ℕ → Io Progress
  unfolding after_fetch refresh_if
  consume [] job_count handled tr =
      (record { job_count = job_count; handled = handled; stopped = false }, tr)
  consume (tick ∷ schedule) job_count handled tr =
      let rest = λ (c h : ℕ) (t : Trace). consume schedule c h t in
      let (job_count', tr1) = refresh_if (capped && tick) job_count tr in
      let (r, tr2) = fetch env topic_jobs_raw tr1 in after_fetch job_count' handled r rest tr2

  -- Start, with a count of 0 before the first refresh.
  unfoldable pub start : List Bool → Io Progress
  unfolding consume
  start schedule tr =
      let (job_count, tr') = refresh_if capped 0 tr in consume schedule job_count 0 tr'

  commits-refresh_if : (b : Bool) (n : ℕ) (tr : Trace) → commits (refresh_if b n tr).1 ≡ commits tr
  unfolding refresh_if
  commits-refresh_if false n tr = refl
  commits-refresh_if true n tr = unfold refresh_count in refl

  commits-process_message :
      (n : ℕ) (msg : KafkaMessage) (tr : Trace)
      → commits
          (process_message env sha256_hex lower norm registry alerts_wired max_total_jobs n msg
            tr).1
        ≡ commits tr + 1
  commits-process_message n msg tr =
      let (before, last, same) =
        process_message-commits env sha256_hex lower norm registry alerts_wired max_total_jobs n msg
          tr in
      rw last (omega (arith, same))

  commits-after_fetch :
      (n handled : ℕ) (r : Result KafkaMessage) (rest : ℕ → ℕ → Io Progress) (tr : Trace)
      → ((c h : ℕ) (t : Trace) → commits (rest c h t).1 + h ≡ commits t + (rest c h t).0.handled)
      → commits (after_fetch n handled r rest tr).1 + handled
        ≡ commits tr + (after_fetch n handled r rest tr).0.handled
  unfolding after_fetch
  commits-after_fetch n handled (err e) rest tr k = elim (Bool-cases (ends_loop e)) [
    | inl ended ↦ rw ended (omega arith)
    | inr transient ↦ rw transient (k n handled tr)
  ]
  commits-after_fetch n handled (ok msg) rest tr k =
      let done =
        process_message env sha256_hex lower norm registry alerts_wired max_total_jobs n msg tr in
      omega (arith, k done.0 (handled + 1) done.1, commits-process_message n msg tr)

  commits-consume :
      (schedule : List Bool) (n handled : ℕ) (tr : Trace)
      → commits (consume schedule n handled tr).1 + handled
        ≡ commits tr + (consume schedule n handled tr).0.handled
  unfolding consume fetch
  commits-consume [] n handled tr = omega arith
  commits-consume (tick ∷ schedule) n handled tr =
      let (n', tr1) = refresh_if (capped && tick) n tr in
      let (r, tr2) = fetch env topic_jobs_raw tr1 in
      let rest = λ (c h : ℕ) (t : Trace). consume schedule c h t in
      let fetched : commits tr2 ≡ commits tr1 = refl in
      omega (
        arith,
        commits-after_fetch n' handled r rest tr2 (commits-consume schedule),
        commits-refresh_if (capped && tick) n tr,
        fetched,
      )

  -- However long the loop runs, whatever the services answer and in whichever rounds the ticker fires,
  -- there is one commit for each message that was fetched and handled, and no other.
  pub commits-start :
      (schedule : List Bool) (tr : Trace)
      → commits (start schedule tr).1 ≡ commits tr + (start schedule tr).0.handled
  unfolding start
  commits-start schedule tr =
      let first = refresh_if capped 0 tr in
      omega (arith, commits-consume schedule first.0 0 first.1, commits-refresh_if capped 0 tr)
