-- ===== src/Crawler/Worker/Consumer.antt =====
-- Start of internal/crawler/worker.go: the consumer loop, for a number of rounds, with a number of
-- polls of the limiter that is looked at for each message. Rounds that are used up have not ended the
-- loop.
pub mod Stopping
use jobcrawler.Base.{
  ℕ, zero, suc, ◌+◌, ◌≡◌, ◌≢◌, String, Bool, true, ◌||◌, Option, none, some, [], ◌∷◌, arith, refl,
  if◌then◌else◌, inl, inr, Bool-cases, Option-cases,
}
use jobcrawler.Domain.{CrawlTask}
use jobcrawler.World.Errors.{Err, is, canceled, deadline_exceeded, Result, ok, err, Result-cases}
use jobcrawler.World.{KafkaMessage, Env, Io, Trace}
use jobcrawler.World.Counting.{commits}
use jobcrawler.Kafka.{topic_crawl_queue, fetch}
use jobcrawler.Httputil.Robots.{Cache}
use jobcrawler.Crawler.Worker.{
  CrawlerWorker, Polled, respect_rate_limit, handle_polled, handle_decoded, process_message,
}
use jobcrawler.Crawler.Worker.Commits.{
  EndsCommitted, process_message-EndsCommitted, process_message_total, commits-respect_rate_limit,
}

-- Where the loop is: between two messages, ended by its context, or polling the limiter.
pub data Phase : Type 0 where
  between stopped polling : Phase

pub record Progress : Type 0 where
  pub handled : ℕ
  pub phase : Phase

abbrev pub ends_loop : Err → Bool
ends_loop e = is e canceled || is e deadline_exceeded

module _ (env : Env) (w : CrawlerWorker) where
  after_message : ℕ → Option Cache → (Cache → ℕ → Io Progress) → Io Progress
  after_message handled none rest tr = (record { handled = handled; phase = polling }, tr)
  after_message handled (some cache) rest tr = rest cache (handled + 1) tr

  after_fetch : ℕ → Cache → ℕ → Result KafkaMessage → (Cache → ℕ → Io Progress) → Io Progress
  unfolding after_message
  after_fetch polls cache handled (err e) rest tr =
      if ends_loop e
      then (record { handled = handled; phase = stopped }, tr)
      else rest cache handled tr
  after_fetch polls cache handled (ok msg) rest tr =
      let (cache', tr') = process_message env w polls cache msg tr in
      after_message handled cache' rest tr'

  consume : ℕ → ℕ → Cache → ℕ → Io Progress
  unfolding after_fetch
  consume zero polls cache handled tr = (record { handled = handled; phase = between }, tr)
  consume (suc rounds) polls cache handled tr =
      let rest = λ (c : Cache) (h : ℕ) (t : Trace). consume rounds polls c h t in
      let (r, tr') = fetch env topic_crawl_queue tr in after_fetch polls cache handled r rest tr'

  -- Start, with an empty cache of robots.txt.
  unfoldable pub start : ℕ → ℕ → Io Progress
  unfolding consume
  start rounds polls = consume rounds polls [] 0

  handle_polled_waits :
      (cache : Cache) (msg : KafkaMessage) (task : CrawlTask) (answer : Polled) (tr : Trace)
      → (handle_polled env w cache msg task answer tr).0 ≡ none
      → commits (handle_polled env w cache msg task answer tr).1 ≡ commits tr
  unfolding handle_polled
  handle_polled_waits cache msg task none tr h = refl
  handle_polled_waits cache msg task (some (some e)) tr h = ground arith
  handle_polled_waits cache msg task (some none) tr h = ground arith

  process_message_waits :
      (polls : ℕ) (cache : Cache) (msg : KafkaMessage) (tr : Trace)
      → (process_message env w polls cache msg tr).0 ≡ none
      → commits (process_message env w polls cache msg tr).1 ≡ commits tr
  unfolding process_message handle_decoded
  process_message_waits polls cache msg tr h = elim (Result-cases (env.unmarshal_task msg.value)) [
    | inr (e, bad) ↦ ground arith
    | inl (task, decoded) ↦ rw decoded (
        omega (
          arith,
          handle_polled_waits cache msg task (respect_rate_limit env w polls task.source tr).0
              (respect_rate_limit env w polls task.source tr).1 (rw decoded at h),
          commits-respect_rate_limit env w polls task.source tr,
        ))
  ]

  EndsCommitted-commits :
      (msg : KafkaMessage) (n : ℕ) (tr : Trace) → EndsCommitted msg n tr → commits tr ≡ n + 1
  EndsCommitted-commits msg n [] h = absurd h
  EndsCommitted-commits msg n (c ∷ tr) (last, same) = rw last (omega (arith, same))

  commits-after_fetch :
      (polls : ℕ) (cache : Cache) (handled : ℕ) (r : Result KafkaMessage)
      (rest : Cache → ℕ → Io Progress) (tr : Trace)
      → ((c : Cache) (h : ℕ) (t : Trace)
          → commits (rest c h t).1 + h ≡ commits t + (rest c h t).0.handled)
      → commits (after_fetch polls cache handled r rest tr).1 + handled
        ≡ commits tr + (after_fetch polls cache handled r rest tr).0.handled
  unfolding after_fetch after_message
  commits-after_fetch polls cache handled (err e) rest tr k = elim (Bool-cases (ends_loop e)) [
    | inl ended ↦ rw ended (omega arith)
    | inr transient ↦ rw transient (k cache handled tr)
  ]
  commits-after_fetch polls cache handled (ok msg) rest tr k =
      let done = process_message env w polls cache msg tr in
      elim (Option-cases done.0) [
        | inl waits ↦ rw waits (omega (arith, process_message_waits polls cache msg tr waits))
        | inr (cache', returned) ↦ rw returned (
            omega (
              arith,
              k cache' (handled + 1) done.1,
              EndsCommitted-commits msg (commits tr) done.1
                  (process_message-EndsCommitted env w polls cache cache' msg tr returned),
            ))
      ]

  commits-consume :
      (rounds polls : ℕ) (cache : Cache) (handled : ℕ) (tr : Trace)
      → commits (consume rounds polls cache handled tr).1 + handled
        ≡ commits tr + (consume rounds polls cache handled tr).0.handled
  unfolding consume fetch
  commits-consume zero polls cache handled tr = omega arith
  commits-consume (suc rounds) polls cache handled tr =
      let (r, tr') = fetch env topic_crawl_queue tr in
      let rest = λ (c : Cache) (h : ℕ) (t : Trace). consume rounds polls c h t in
      let fetched : commits tr' ≡ commits tr = refl in
      omega (
        arith,
        commits-after_fetch polls cache handled r rest tr' (commits-consume rounds polls),
        fetched,
      )

  -- However long the loop runs and whatever the services answer, it makes one commit for each message
  -- that it has handled, and none for a message while the limiter is still polled for it.
  pub commits_of_start :
      (rounds polls : ℕ) (tr : Trace)
      → commits (start rounds polls tr).1 ≡ commits tr + (start rounds polls tr).0.handled
  unfolding start
  commits_of_start rounds polls tr = omega (arith, commits-consume rounds polls [] 0 tr)

  consume_never_polls :
      ((key : String) (limit window : ℕ) (tr : Trace)
        → (w.limiter.ask key limit window tr).0.0 ≡ true)
      → (rounds polls : ℕ) (cache : Cache) (handled : ℕ) (tr : Trace)
      → (consume rounds (suc polls) cache handled tr).0.phase ≢ polling
  unfolding consume fetch
  consume_never_polls admits zero polls cache handled tr = λ h. ground arith
  consume_never_polls admits (suc rounds) polls cache handled tr =
      let (r, tr') = fetch env topic_crawl_queue tr in
      elim (Result-cases r) [
        | inr (e, failed) ↦ elim (Bool-cases (ends_loop e)) [
          | inl ended ↦ rw (failed, after_fetch, ended) (λ h. ground arith)
          | inr transient ↦
              rw (failed, after_fetch, transient)
                (consume_never_polls admits rounds polls cache handled tr')
        ]
        | inl (msg, fetched) ↦
            let (cache', returned, _) =
              process_message_total env w polls cache msg tr' (λ task h. admits _ 1 2000 tr') in
            rw (fetched, after_fetch, returned)
              (consume_never_polls admits rounds polls cache' (handled + 1)
                (process_message env w (suc polls) cache msg tr').1)
      ]

  -- Where the limiter admits every request, one question to it is enough for each message, and no round
  -- of the loop ends in polling it.
  pub start_never_polls :
      ((key : String) (limit window : ℕ) (tr : Trace)
        → (w.limiter.ask key limit window tr).0.0 ≡ true)
      → (rounds polls : ℕ) (tr : Trace) → (start rounds (suc polls) tr).0.phase ≢ polling
  unfolding start
  start_never_polls admits rounds polls tr = consume_never_polls admits rounds polls [] 0 tr
