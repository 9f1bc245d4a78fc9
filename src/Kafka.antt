-- ===== src/Kafka.antt =====
-- pkg/kafka: topics.go, producer.go and consumer.go. The writer and the reader of kafka-go are calls
-- of the environment; the trace id that the context carries is an argument.
pub mod Batches
pub mod Silence
pub mod Admin
use jobcrawler.Base.{
  ℕ, String, Option, none, some, List, [], ◌∷◌, ◌++◌, str_eq, ◌⧺◌, if◌then◌else◌, length, decimal,
  quote,
}
use jobcrawler.World.Errors.{Err, failure, wrap, Result, ok, err}
use jobcrawler.World.{
  KafkaMessage, Payload, write_messages, commit_messages, fetch_message, Env, Io, perform, pure,
}

abbrev pub topic_crawl_queue : String
topic_crawl_queue = "crawl.queue"

abbrev pub topic_jobs_raw : String
topic_jobs_raw = "jobs.raw"

abbrev pub topic_jobs_processed : String
topic_jobs_processed = "jobs.processed"

abbrev pub topic_jobs_failed : String
topic_jobs_failed = "jobs.failed"

-- A single item in a batch publish call.
pub record Message : Type 0 where
  pub key : String
  pub payload : Payload
  pub headers : List (String × String)

unfoldable pub build_headers : String → List (String × String) → List (String × String)
build_headers trace_id extra =
    (if str_eq trace_id "" then [] else ("trace-id", trace_id) ∷ []) ++ extra

-- The first header of the name, or "".
unfoldable pub header_value : List (String × String) → String → String
header_value [] key = ""
header_value ((k, v) ∷ hs) key = if str_eq k key then v else header_value hs key

-- fmt.Errorf("…: %w", err) where there is an error.
abbrev pub wrap_error : String → Option Err → Option Err
wrap_error prefix none = none
wrap_error prefix (some e) = some (wrap prefix e)

abbrev pub wrap_result : {A : Type 0} → String → Result A → Result A
wrap_result prefix (ok a) = ok a
wrap_result prefix (err e) = err (wrap prefix e)

module _ (env : Env) where
  write : List KafkaMessage → Io (Option Err)
  write ms = perform (write_messages ms) (λ tr. env.write_answer tr ms)

  publish_encoded : String → String → String → Result String → Io (Option Err)
  publish_encoded trace_id topic key (err e) tr =
      (some (wrap "kafka publish: marshal payload: " e), tr)
  publish_encoded trace_id topic key (ok value) tr =
      let m : KafkaMessage = record {
        topic = topic;
        key = key;
        value = value;
        headers = build_headers trace_id [];
        offset = 0;
      } in
      let (e, tr') = write (m ∷ []) tr in (wrap_error ("kafka publish to " ⧺ (topic ⧺ ": ")) e, tr')

  -- Producer.Publish
  unfoldable pub publish : String → String → String → Payload → Io (Option Err)
  unfolding write publish_encoded build_headers
  publish trace_id topic key payload = publish_encoded trace_id topic key (env.marshal payload)

  -- The loop of PublishBatch: all payloads are encoded, or the first that fails is reported.
  unfoldable pub encode_all : String → String → List Message → Result (List KafkaMessage)
  unfolding build_headers
  encode_all trace_id topic [] = ok []
  encode_all trace_id topic (m ∷ ms) = elim (env.marshal m.payload) [
    | err e ↦ err (wrap ("kafka batch: marshal payload for key " ⧺ (quote m.key ⧺ ": ")) e)
    | ok value ↦ elim (encode_all trace_id topic ms) [
      | err e ↦ err e
      | ok rest ↦ ok (
          record {
            topic = topic;
            key = m.key;
            value = value;
            headers = build_headers trace_id m.headers;
            offset = 0;
          }
          ∷ rest)
    ]
  ]

  write_batch : String → Result (List KafkaMessage) → Io (Option Err)
  write_batch topic (err e) tr = (some e, tr)
  write_batch topic (ok ms) tr =
      let (e, tr') = write ms tr in
      (
        wrap_error ("kafka batch write to " ⧺ (topic ⧺ (" (" ⧺ (decimal (length ms) ⧺ " msgs): "))))
            e,
        tr',
      )

  -- Producer.PublishBatch
  unfoldable pub publish_batch : String → String → List Message → Io (Option Err)
  unfolding write write_batch
  publish_batch trace_id topic ms = write_batch topic (encode_all trace_id topic ms)

  -- Consumer.FetchMessage, for the topic of the reader.
  unfoldable pub fetch : String → Io (Result KafkaMessage)
  fetch topic tr =
      let (r, tr') = perform fetch_message (λ t. env.fetch_answer t) tr in
      (wrap_result ("fetch message from " ⧺ (topic ⧺ ": ")) r, tr')

  -- Consumer.CommitMessages, for one message.
  unfoldable pub commit_message : String → KafkaMessage → Io (Option Err)
  commit_message topic m tr =
      let (e, tr') = perform (commit_messages m) (λ t. env.commit_answer t m) tr in
      (wrap_error ("commit messages on " ⧺ (topic ⧺ ": ")) e, tr')
