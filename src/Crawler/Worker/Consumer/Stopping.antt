-- ===== src/Crawler/Worker/Consumer/Stopping.antt =====
-- How the loop of Start in internal/crawler/worker.go ends.
use jobcrawler.Base.{
  ℕ, zero, suc, ◌+◌, ◌≤◌, ◌<◌, ◌⊎◌, String, ◌≡◌, true, Option, none, some, [], ◌∷◌, count, arith,
  refl, inl, inr, Bool-cases, ◌∙◌,
}
use jobcrawler.World.Errors.{Err, Result, ok, err, Result-cases}
use jobcrawler.World.{KafkaMessage, Env, Io, Trace, fetch_message}
use jobcrawler.World.Counting.{is_fetch}
use jobcrawler.Kafka.{topic_crawl_queue, topic_jobs_raw, fetch}
use jobcrawler.Kafka.Silence.{count-publish, count-publish_batch}
use jobcrawler.Httputil.Robots.{Cache}
use jobcrawler.Crawler.Worker.{CrawlerWorker, process_message}
use jobcrawler.Crawler.Worker.Commits.{process_message_total}
use jobcrawler.Crawler.Worker.Silence.{IsSilent, count-process_message, count-undecoded}
use jobcrawler.Crawler.Worker.Consumer.{
  Progress, stopped, ends_loop, after_message, after_fetch, consume, start,
}

-- The last call was a fetch, answered by an error that ends the loop.
pub record IsCancelled (env : Env) (after : Trace) : Type 0 where
  pub before : Trace
  pub error : Err
  pub last : after ≡ fetch_message ∷ before
  pub answered : (fetch env topic_crawl_queue before).0 ≡ err error
  pub ending : ends_loop error ≡ true

early_or_late : (a b : ℕ) → (a < b) ⊎ (b ≤ a)
early_or_late a b = ground arith

-- From the given number of fetches on, each is answered by an error that ends the loop.
abbrev pub CancelledFrom : Env → ℕ → Type 0
CancelledFrom env n =
    (tr : Trace)
    → n ≤ count is_fetch tr
    → (e : Err) × ((fetch env topic_crawl_queue tr).0 ≡ err e) × (ends_loop e ≡ true)

fetch-IsSilent : IsSilent is_fetch
fetch-IsSilent = record {
  away = record {
    no_pipeline = λ cs. refl;
    no_set = λ key value ttl. refl;
    no_incr = λ key. refl;
    no_h_set = λ key field value. refl;
  };
  fetches = λ u. refl;
  waits = λ d. refl;
  commits = λ m. refl;
  failures = λ m e. refl;
}

module _ (env : Env) (w : CrawlerWorker) where
  fetches-process_message :
      (polls : ℕ) (cache : Cache) (msg : KafkaMessage) (tr : Trace)
      → count is_fetch (process_message env w polls cache msg tr).1 ≡ count is_fetch tr
  fetches-process_message polls cache msg tr = elim (Result-cases (env.unmarshal_task msg.value)) [
    | inr (e, bad) ↦ count-undecoded is_fetch fetch-IsSilent env w polls cache msg e tr bad
    | inl (task, decoded) ↦
        count-process_message is_fetch fetch-IsSilent env w task
          (λ src html urls t found parsed.
            count-publish_batch is_fetch (λ ms. refl) env "" topic_crawl_queue _ t)
          (λ html t detail.
            count-publish is_fetch (λ ms. refl) env "" topic_jobs_raw task.source _ t)
          polls cache msg tr decoded
  ]

  after_message-IsCancelled :
      (handled : ℕ) (cache : Option Cache) (rest : Cache → ℕ → Io Progress) (t : Trace)
      → ((c : Cache) (h : ℕ) (t : Trace)
          → (rest c h t).0.phase ≡ stopped
          → IsCancelled env (rest c h t).1)
      → (after_message env w handled cache rest t).0.phase ≡ stopped
      → IsCancelled env (after_message env w handled cache rest t).1
  unfolding after_message
  after_message-IsCancelled handled none rest t k h = absurd (ground arith)
  after_message-IsCancelled handled (some cache) rest t k h = k cache (handled + 1) t h

  after_fetch-IsCancelled :
      (polls : ℕ) (cache : Cache) (handled : ℕ) (r : Result KafkaMessage)
      (rest : Cache → ℕ → Io Progress) (before : Trace)
      → (fetch env topic_crawl_queue before).0 ≡ r
      → ((c : Cache) (h : ℕ) (t : Trace)
          → (rest c h t).0.phase ≡ stopped
          → IsCancelled env (rest c h t).1)
      → (after_fetch env w polls cache handled r rest (fetch_message ∷ before)).0.phase ≡ stopped
      → IsCancelled env (after_fetch env w polls cache handled r rest (fetch_message ∷ before)).1
  unfolding after_fetch
  after_fetch-IsCancelled polls cache handled (ok msg) rest before answer k h =
      after_message-IsCancelled handled _ rest _ k h
  after_fetch-IsCancelled polls cache handled (err e) rest before answer k h =
      elim (Bool-cases (ends_loop e)) [
        | inl ended ↦
            rw ended (record {
              before = before;
              error = e;
              last = refl;
              answered = answer;
              ending = ended;
            })
        | inr transient ↦
            rw transient (k cache handled (fetch_message ∷ before) (rw transient at h))
      ]

  consume-IsCancelled :
      (rounds polls : ℕ) (cache : Cache) (handled : ℕ) (tr : Trace)
      → (consume env w rounds polls cache handled tr).0.phase ≡ stopped
      → IsCancelled env (consume env w rounds polls cache handled tr).1
  unfolding consume fetch
  consume-IsCancelled zero polls cache handled tr h = absurd (ground arith)
  consume-IsCancelled (suc rounds) polls cache handled tr h =
      after_fetch-IsCancelled polls cache handled (fetch env topic_crawl_queue tr).0
        (λ c h t. consume env w rounds polls c h t) tr refl (consume-IsCancelled rounds polls) h

  -- The loop is over only where its last fetch was answered by an error that ends it.
  pub start-IsCancelled :
      (rounds polls : ℕ) (tr : Trace)
      → (start env w rounds polls tr).0.phase ≡ stopped
      → IsCancelled env (start env w rounds polls tr).1
  unfolding start
  start-IsCancelled rounds polls tr h = consume-IsCancelled rounds polls [] 0 tr h

  module _
      (admits : (key : String) (limit window : ℕ) (tr : Trace)
        → (w.limiter.ask key limit window tr).0.0 ≡ true)
      (limit : ℕ) (cancelled : CancelledFrom env limit) where
    after_fetch-stops :
        (polls : ℕ) (cache : Cache) (handled : ℕ) (r : Result KafkaMessage)
        (rest : Cache → ℕ → Io Progress) (before : Trace)
        → (fetch env topic_crawl_queue before).0 ≡ r
        → ((c : Cache) (h : ℕ) (t : Trace)
            → count is_fetch before < limit
            → count is_fetch t ≡ count is_fetch before + 1
            → (rest c h t).0.phase ≡ stopped)
        → (after_fetch env w (suc polls) cache handled r rest (fetch_message ∷ before)).0.phase
          ≡ stopped
    unfolding after_fetch after_message
    after_fetch-stops polls cache handled (ok msg) rest before answer k =
        elim (early_or_late (count is_fetch before) limit) [
          | inr late ↦ let (e, failed, _) = cancelled before late in absurd (ground (arith, failed))
          | inl early ↦
              let (cache', returned, _) =
                process_message_total env w polls cache msg (fetch_message ∷ before)
                  (λ task h. admits _ 1 2000 (fetch_message ∷ before)) in
              rw returned (
                k cache' (handled + 1) _ early (
                  fetches-process_message (suc polls) cache msg (fetch_message ∷ before)
                  ∙ omega arith))
        ]
    after_fetch-stops polls cache handled (err e) rest before answer k =
        elim (Bool-cases (ends_loop e)) [
          | inl ended ↦ rw ended refl
          | inr transient ↦ elim (early_or_late (count is_fetch before) limit) [
            | inl early ↦
                rw transient (k cache handled (fetch_message ∷ before) early (omega arith))
            | inr late ↦
                let (e', failed, ended) = cancelled before late in absurd (ground (arith, failed))
          ]
        ]

    consume-stops :
        (rounds polls : ℕ) (cache : Cache) (handled : ℕ) (tr : Trace)
        → limit ≤ rounds + count is_fetch tr
        → (consume env w (suc rounds) (suc polls) cache handled tr).0.phase ≡ stopped
    unfolding consume fetch
    consume-stops zero polls cache handled tr enough =
        after_fetch-stops polls cache handled (fetch env topic_crawl_queue tr).0
          (λ c h t. consume env w zero (suc polls) c h t) tr refl
          (λ c h t early one. absurd (omega arith))
    consume-stops (suc rounds) polls cache handled tr enough =
        after_fetch-stops polls cache handled (fetch env topic_crawl_queue tr).0
          (λ c h t. consume env w (suc rounds) (suc polls) c h t) tr refl
          (λ c h t early one. consume-stops rounds polls c h t (omega arith))

    -- Where the limiter admits every request and fetches are cancelled from some number on, the loop is
    -- over within one round more.
    pub start-stops :
        (rounds polls : ℕ) (tr : Trace)
        → limit ≤ rounds
        → (start env w (suc rounds) (suc polls) tr).0.phase ≡ stopped
    unfolding start
    start-stops rounds polls tr enough = consume-stops rounds polls [] 0 tr (omega arith)
