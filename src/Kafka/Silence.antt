-- ===== src/Kafka/Silence.antt =====
-- Which calls publishing leaves out: counts of other calls do not change.
use jobcrawler.Base.{String, ◌≡◌, Bool, false, List, [], ◌∷◌, arith, refl, inl, inr, count}
use jobcrawler.World.Errors.{ok, Result-cases}
use jobcrawler.World.{KafkaMessage, Payload, Env, Trace, Call, write_messages}
use jobcrawler.Kafka.{Message, build_headers, publish, publish_batch}

module _ (p : Call → Bool) (silent : (ms : List KafkaMessage) → p (write_messages ms) ≡ false)
    (env : Env) (trace_id topic : String) where
  pub count-publish :
      (key : String) (payload : Payload) (tr : Trace)
      → count p (publish env trace_id topic key payload tr).1 ≡ count p tr
  unfolding publish
  count-publish key payload tr = grind (arith, silent)

  pub count-publish_batch :
      (ms : List Message) (tr : Trace)
      → count p (publish_batch env trace_id topic ms tr).1 ≡ count p tr
  unfolding publish_batch
  count-publish_batch ms tr = grind (arith, silent)

-- What Publish writes: at most one message, of its topic, key and encoded payload.
module _ (p : Call → Bool) (env : Env) (trace_id topic : String) where
  abbrev pub message_of : String → String → KafkaMessage
  message_of key value = record {
    topic = topic;
    key = key;
    value = value;
    headers = build_headers trace_id [];
    offset = 0;
  }

  pub count-publish_of :
      (key : String) (payload : Payload) (tr : Trace)
      → ((value : String)
          → env.marshal payload ≡ ok value
          → p (write_messages (message_of key value ∷ [])) ≡ false)
      → count p (publish env trace_id topic key payload tr).1 ≡ count p tr
  unfolding publish
  count-publish_of key payload tr silent = elim (Result-cases (env.marshal payload)) [
    | inr (e, failed) ↦ rw failed refl
    | inl (value, coded) ↦ rw coded (rw (silent value coded) refl)
  ]

  pub count-publish_to :
      ((m : KafkaMessage) → m.topic ≡ topic → p (write_messages (m ∷ [])) ≡ false)
      → (key : String) (payload : Payload) (tr : Trace)
      → count p (publish env trace_id topic key payload tr).1 ≡ count p tr
  count-publish_to silent key payload tr =
      count-publish_of key payload tr (λ value coded. silent (message_of key value) refl)
