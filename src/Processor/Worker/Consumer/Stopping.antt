-- ===== src/Processor/Worker/Consumer/Stopping.antt =====
-- How the loop of Start in internal/processor/worker.go ends.
use Prim.Native.Char.{Char}
use jobcrawler.Base.{
  ℕ, ℤ, ◌+◌, ◌≤◌, ◌<◌, ◌⊎◌, String, ◌≡◌, Bool, true, false, ◌&&◌, List, [], ◌∷◌, length, count,
  arith, refl, inl, inr, Bool-cases, ◌∙◌,
}
use jobcrawler.World.Errors.{Err, Result, ok, err}
use jobcrawler.World.{KafkaMessage, Env, Io, Trace, fetch_message}
use jobcrawler.World.Counting.{is_fetch}
use jobcrawler.Kafka.{topic_jobs_raw, fetch}
use jobcrawler.Crawler.Registry.{SourceRegistry}
use jobcrawler.Processor.Worker.{Normaliser, refresh_count}
use jobcrawler.Processor.Worker.Silence.{IsSilent, count-process_message}
use jobcrawler.Processor.Worker.Consumer.{
  Progress, ends_loop, refresh_if, capped, after_fetch, consume, start,
}

-- The last call was a fetch, answered by an error that ends the loop.
pub record IsCancelled (env : Env) (after : Trace) : Type 0 where
  pub before : Trace
  pub error : Err
  pub last : after ≡ fetch_message ∷ before
  pub answered : (fetch env topic_jobs_raw before).0 ≡ err error
  pub ending : ends_loop error ≡ true

early_or_late : (a b : ℕ) → (a < b) ⊎ (b ≤ a)
early_or_late a b = ground arith

-- From the given number of fetches on, each is answered by an error that ends the loop.
abbrev pub CancelledFrom : Env → ℕ → Type 0
CancelledFrom env n =
    (tr : Trace)
    → n ≤ count is_fetch tr
    → (e : Err) × ((fetch env topic_jobs_raw tr).0 ≡ err e) × (ends_loop e ≡ true)

fetch-IsSilent : IsSilent is_fetch
fetch-IsSilent = record {
  failures = λ _ _. refl;
  results = λ _ _. refl;
  claims = λ _ _. refl;
  alerts = λ _. refl;
  counts = refl;
}

module _ (env : Env) (sha256_hex : String → String) (lower : Char → Char) (norm : Normaliser)
    (registry : SourceRegistry) (alerts_wired : Bool) (max_total_jobs : ℤ) where
  abbrev loop : List Bool → ℕ → ℕ → Io Progress
  loop = consume env sha256_hex lower norm registry alerts_wired max_total_jobs

  abbrev fresh : Bool → ℕ → Io ℕ
  fresh tick = refresh_if env sha256_hex lower norm registry alerts_wired max_total_jobs tick

  abbrev cap_set : Bool
  cap_set = capped env sha256_hex lower norm registry alerts_wired max_total_jobs

  abbrev after : ℕ → ℕ → Result KafkaMessage → (ℕ → ℕ → Io Progress) → Io Progress
  after = after_fetch env sha256_hex lower norm registry alerts_wired max_total_jobs

  after_fetch-IsCancelled :
      (n handled : ℕ) (r : Result KafkaMessage) (rest : ℕ → ℕ → Io Progress) (before : Trace)
      → (fetch env topic_jobs_raw before).0 ≡ r
      → ((c h : ℕ) (t : Trace) → (rest c h t).0.stopped ≡ true → IsCancelled env (rest c h t).1)
      → (after n handled r rest (fetch_message ∷ before)).0.stopped ≡ true
      → IsCancelled env (after n handled r rest (fetch_message ∷ before)).1
  unfolding after_fetch
  after_fetch-IsCancelled n handled (ok msg) rest before answer k h = k _ _ _ h
  after_fetch-IsCancelled n handled (err e) rest before answer k h =
      elim (Bool-cases (ends_loop e)) [
        | inl ended ↦
            rw ended (record {
              before = before;
              error = e;
              last = refl;
              answered = answer;
              ending = ended;
            })
        | inr transient ↦ rw transient (k n handled (fetch_message ∷ before) (rw transient at h))
      ]

  consume-IsCancelled :
      (schedule : List Bool) (n handled : ℕ) (tr : Trace)
      → (loop schedule n handled tr).0.stopped ≡ true
      → IsCancelled env (loop schedule n handled tr).1
  unfolding consume fetch
  consume-IsCancelled [] n handled tr h = absurd (ground arith)
  consume-IsCancelled (tick ∷ schedule) n handled tr h =
      let (n', tr1) = fresh (cap_set && tick) n tr in
      after_fetch-IsCancelled n' handled (fetch env topic_jobs_raw tr1).0
        (λ c h t. loop schedule c h t) tr1 refl (consume-IsCancelled schedule) h

  -- The loop is over only where its last fetch was answered by an error that ends it.
  pub start-IsCancelled :
      (schedule : List Bool) (tr : Trace)
      → (start env sha256_hex lower norm registry alerts_wired max_total_jobs schedule tr).0.stopped
        ≡ true
      → IsCancelled env
          (start env sha256_hex lower norm registry alerts_wired max_total_jobs schedule tr).1
  unfolding start
  start-IsCancelled schedule tr h =
      let (n, tr1) = fresh cap_set 0 tr in consume-IsCancelled schedule n 0 tr1 h

  count-fresh :
      (b : Bool) (n : ℕ) (tr : Trace) → count is_fetch (fresh b n tr).1 ≡ count is_fetch tr
  unfolding refresh_if
  count-fresh false n tr = refl
  count-fresh true n tr = unfold refresh_count in refl

  module _ (limit : ℕ) (cancelled : CancelledFrom env limit) where
    after_fetch-stops :
        (n handled : ℕ) (r : Result KafkaMessage) (rest : ℕ → ℕ → Io Progress) (before : Trace)
        → (fetch env topic_jobs_raw before).0 ≡ r
        → ((c h : ℕ) (t : Trace)
            → count is_fetch before < limit
            → count is_fetch t ≡ count is_fetch before + 1
            → (rest c h t).0.stopped ≡ true)
        → (after n handled r rest (fetch_message ∷ before)).0.stopped ≡ true
    unfolding after_fetch
    after_fetch-stops n handled (ok msg) rest before answer k =
        elim (early_or_late (count is_fetch before) limit) [
          | inl early ↦ k _ _ _ early (
              count-process_message env sha256_hex lower norm registry alerts_wired max_total_jobs
                is_fetch fetch-IsSilent (λ m. refl) n msg (fetch_message ∷ before)
                (λ raw decoded raw_job. refl)
              ∙ omega arith)
          | inr late ↦ let (e, failed, _) = cancelled before late in absurd (ground (arith, failed))
        ]
    after_fetch-stops n handled (err e) rest before answer k = elim (Bool-cases (ends_loop e)) [
      | inl ended ↦ rw ended refl
      | inr transient ↦ elim (early_or_late (count is_fetch before) limit) [
        | inl early ↦ rw transient (k n handled (fetch_message ∷ before) early (omega arith))
        | inr late ↦
            let (e', failed, ended) = cancelled before late in absurd (ground (arith, failed))
      ]
    ]

    consume-stops :
        (tick : Bool) (schedule : List Bool) (n handled : ℕ) (tr : Trace)
        → limit ≤ length schedule + count is_fetch tr
        → (loop (tick ∷ schedule) n handled tr).0.stopped ≡ true
    unfolding consume fetch
    consume-stops tick [] n handled tr enough =
        let (n', tr1) = fresh (cap_set && tick) n tr in
        after_fetch-stops n' handled (fetch env topic_jobs_raw tr1).0 (λ c h t. loop [] c h t) tr1
          refl (λ c h t early more. absurd (omega (arith, count-fresh (cap_set && tick) n tr)))
    consume-stops tick (tick' ∷ schedule) n handled tr enough =
        let (n', tr1) = fresh (cap_set && tick) n tr in
        after_fetch-stops n' handled (fetch env topic_jobs_raw tr1).0
          (λ c h t. loop (tick' ∷ schedule) c h t) tr1 refl
          (λ c h t early more.
            consume-stops tick' schedule c h t (omega (arith, count-fresh (cap_set && tick) n tr)))

    -- Where fetches are cancelled from some number on, the loop is over within one round more.
    pub start-stops :
        (tick : Bool) (schedule : List Bool) (tr : Trace)
        → limit ≤ length schedule
        → (start env sha256_hex lower norm registry alerts_wired max_total_jobs
            (tick ∷ schedule)
            tr).0.stopped
          ≡ true
    unfolding start
    start-stops tick schedule tr enough =
        let (n, tr1) = fresh cap_set 0 tr in
        consume-stops tick schedule n 0 tr1 (omega (arith, count-fresh cap_set 0 tr))
