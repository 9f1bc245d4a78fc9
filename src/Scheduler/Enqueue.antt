-- ===== src/Scheduler/Enqueue.antt =====
-- What the scheduler (internal/scheduler/scheduler.go) has written when it reports success, and what
-- an unknown source leaves behind.
use jobcrawler.Base.{
  ◌≤◌, ◌+◌, String, ◌≡◌, ◌≢◌, inl, inr, Option, none, some, List, [], ◌∷◌, map, length, count, Bool,
  arith, refl, Option-cases, eq_iff, ◌⧺◌,
}
use text.Mathlib.TextPositions.{eq_refl}
use jobcrawler.Domain.{JobSource, source_stepstone, source_indeed, source_xing}
use jobcrawler.World.Errors.{Err, failure, ok, Result-cases}
use jobcrawler.World.{KafkaMessage, Env, Trace, Call, Payload, write_messages}
use jobcrawler.World.Counting.{writes_to}
use jobcrawler.Kafka.{topic_crawl_queue, publish_batch, encode_all, Message, wrap_error}
use jobcrawler.Kafka.Batches.{Encodes, encode_all-Encodes}
use jobcrawler.Scheduler.{
  generate_urls, listing_message, enqueue_urls, enqueue_source, enqueue_all, initial_enqueue,
}

module _ (env : Env) where
  abbrev pub tasks : JobSource → List Message
  tasks source = map (listing_message source) (generate_urls source)

  -- One write to the broker, of a task for every URL of the source.
  pub record IsEnqueued (source : JobSource) (tr after : Trace) : Type 0 where
    pub sent : List KafkaMessage
    pub encoded : Encodes env "" topic_crawl_queue (tasks source) sent
    pub written : after ≡ write_messages sent ∷ tr
    pub accepted : env.write_answer tr sent ≡ none

  batch_accepted :
      (ms : List Message) (tr : Trace)
      → (publish_batch env "" topic_crawl_queue ms tr).0 ≡ none
      → (ks : List KafkaMessage) × (encode_all env "" topic_crawl_queue ms ≡ ok ks)
        × ((publish_batch env "" topic_crawl_queue ms tr).1 ≡ write_messages ks ∷ tr)
        × (env.write_answer tr ks ≡ none)
  unfolding publish_batch
  batch_accepted ms tr h = elim (Result-cases (encode_all env "" topic_crawl_queue ms)) [
    | inr (e, failed) ↦ ground arith
    | inl (ks, coded) ↦
        (ks, coded, rw coded refl, ground (arith, Option-cases (env.write_answer tr ks)))
  ]

  wrap_error-none : (prefix : String) (e : Option Err) → wrap_error prefix e ≡ none → e ≡ none
  wrap_error-none prefix none h = refl
  wrap_error-none prefix (some e) h = ground arith

  enqueue_urls-IsEnqueued :
      (source : JobSource) (urls : List String) (tr : Trace)
      → generate_urls source ≡ urls
      → (enqueue_urls env source urls tr).0 ≡ none
      → (1 ≤ length urls) × IsEnqueued source tr (enqueue_urls env source urls tr).1
  unfolding enqueue_urls
  enqueue_urls-IsEnqueued source [] tr e h = ground arith
  enqueue_urls-IsEnqueued source (u ∷ us) tr e h =
      let (ks, coded, sent, fine) =
        batch_accepted (map (listing_message source) (u ∷ us)) tr (wrap_error-none _ _ h) in
      (
        omega arith,
        record {
          sent = ks;
          encoded = rw e (encode_all-Encodes env "" topic_crawl_queue _ ks coded);
          written = sent;
          accepted = fine;
        },
      )

  -- Where EnqueueSource reports no error, the source has a URL, and one batch was written and
  -- accepted, with a LISTING task for each URL of the source in their order.
  pub enqueue_source-IsEnqueued :
      (source : JobSource) (tr : Trace)
      → (enqueue_source env source tr).0 ≡ none
      → (1 ≤ length (generate_urls source)) × IsEnqueued source tr (enqueue_source env source tr).1
  unfolding enqueue_source
  enqueue_source-IsEnqueued source tr h =
      enqueue_urls-IsEnqueued source (generate_urls source) tr refl h

  -- A source other than the three is reported as an error, and nothing is written for it.
  pub enqueue_source_unknown :
      (source : JobSource) (tr : Trace)
      → source ≢ source_stepstone
      → source ≢ source_indeed
      → source ≢ source_xing
      → (e : Err) × (enqueue_source env source tr ≡ (some e, tr))
  unfolding enqueue_source enqueue_urls generate_urls
  enqueue_source_unknown source tr s i x = (
    failure ("no URLs generated for source " ⧺ source),
    ground (
      arith,
      eq_iff source source_stepstone,
      eq_iff source source_indeed,
      eq_iff source source_xing,
    ),
  )

  module _ (value : Payload → String) (encodes : (p : Payload) → env.marshal p ≡ ok (value p)) where
    encode_all_total :
        (ms : List Message)
        → (ks : List KafkaMessage) × (encode_all env "" topic_crawl_queue ms ≡ ok ks)
    unfolding encode_all
    encode_all_total [] = ([], refl)
    encode_all_total (m ∷ ms) =
        let (ks, h) = encode_all_total ms in
        elim (Result-cases (encode_all env "" topic_crawl_queue (m ∷ ms))) [
          | inl found ↦ found
          | inr (e, failed) ↦ ground (arith, encodes m.payload, h)
        ]

    writes_to-publish_batch :
        (m : Message) (ms : List Message) (tr : Trace)
        → writes_to topic_crawl_queue (publish_batch env "" topic_crawl_queue (m ∷ ms) tr).1
          ≡ writes_to topic_crawl_queue tr + 1
    unfolding publish_batch encode_all
    writes_to-publish_batch m ms tr =
        let (ks, h) = encode_all_total ms in
        ground (arith, encodes m.payload, h, eq_refl topic_crawl_queue)

    writes_to-enqueue_urls :
        (source : JobSource) (u : String) (us : List String) (tr : Trace)
        → writes_to topic_crawl_queue (enqueue_urls env source (u ∷ us) tr).1
          ≡ writes_to topic_crawl_queue tr + 1
    unfolding enqueue_urls
    writes_to-enqueue_urls source u us tr = writes_to-publish_batch _ _ tr

    writes_to_urls :
        (source : JobSource) (urls : List String) (tr : Trace)
        → 1 ≤ length urls
        → writes_to topic_crawl_queue (enqueue_urls env source urls tr).1
          ≡ writes_to topic_crawl_queue tr + 1
    writes_to_urls source [] tr h = absurd (omega arith)
    writes_to_urls source (u ∷ us) tr h = writes_to-enqueue_urls source u us tr

    -- One batch is written for a source that has a URL.
    pub writes_to-enqueue_source :
        (source : JobSource) (tr : Trace)
        → 1 ≤ length (generate_urls source)
        → writes_to topic_crawl_queue (enqueue_source env source tr).1
          ≡ writes_to topic_crawl_queue tr + 1
    unfolding enqueue_source
    writes_to-enqueue_source source tr h = writes_to_urls source (generate_urls source) tr h

  -- At start-up, where every payload can be encoded, one batch is written for each of the three
  -- sources, whatever the broker answers.
  pub writes_to-initial_enqueue :
      (value : Payload → String)
      → ((p : Payload) → env.marshal p ≡ ok (value p))
      → (tr : Trace)
      → writes_to topic_crawl_queue (initial_enqueue env tr).1 ≡ writes_to topic_crawl_queue tr + 3
  unfolding initial_enqueue enqueue_all enqueue_source generate_urls enqueue_urls
  writes_to-initial_enqueue value encodes tr = omega (
    arith,
    writes_to-enqueue_urls value encodes source_stepstone _ _ tr,
    writes_to-enqueue_urls value encodes source_xing _ _ (enqueue_source env source_stepstone tr).1,
    writes_to-enqueue_urls value encodes source_indeed _ _
        (enqueue_source env source_xing (enqueue_source env source_stepstone tr).1).1,
  )

  count-enqueue_urls :
      (p : Call → Bool) (source : JobSource) (urls : List String) (tr : Trace)
      → (1 ≤ length urls
          → count p
              (publish_batch env "" topic_crawl_queue (map (listing_message source) urls) tr).1
            ≡ count p tr)
      → count p (enqueue_urls env source urls tr).1 ≡ count p tr
  unfolding enqueue_urls
  count-enqueue_urls p source [] tr batch = refl
  count-enqueue_urls p source (u ∷ us) tr batch = batch (omega arith)

  -- Calls whose count stays in a batch of the tasks of a source that has any stay in EnqueueSource.
  pub count-enqueue_source :
      (p : Call → Bool) (source : JobSource) (tr : Trace)
      → (1 ≤ length (generate_urls source)
          → count p (publish_batch env "" topic_crawl_queue (tasks source) tr).1 ≡ count p tr)
      → count p (enqueue_source env source tr).1 ≡ count p tr
  unfolding enqueue_source
  count-enqueue_source p source tr batch =
      count-enqueue_urls p source (generate_urls source) tr batch
