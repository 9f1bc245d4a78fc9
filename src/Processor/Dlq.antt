-- ===== src/Processor/Dlq.antt =====
-- internal/processor/dlq.go
use jobcrawler.Base.{String, some, str_eq, ◌⧺◌, decimal, if◌then◌else◌}
use jobcrawler.World.Errors.{Err, error_text}
use jobcrawler.World.{KafkaMessage, FailedMessage, failed, Env, Io}
use jobcrawler.Kafka.{topic_jobs_failed, publish}

-- The key of the original message, or one made of its offset.
abbrev pub dlq_key : KafkaMessage → String
dlq_key msg = if str_eq msg.key "" then "unknown-" ⧺ decimal msg.offset else msg.key

-- PublishToDLQ: never an error for the caller; a failure to publish is only logged.
unfoldable pub publish_to_dlq : Env → KafkaMessage → Err → Io (Unit {0})
publish_to_dlq env msg e tr =
    let envelope : FailedMessage = record {
      original_topic = msg.topic;
      original_key = msg.key;
      payload = msg.value;
      error = error_text e;
      attempts = some 1;
      failed_at = env.clock tr;
    } in
    let (_, tr') = publish env "" topic_jobs_failed (dlq_key msg) (failed envelope) tr in (tt, tr')
