-- ===== src/Kafka/Batches.antt =====
-- What a batch publish hands to the broker.
use jobcrawler.Base.{String, ◌≡◌, List, [], ◌∷◌, arith}
use jobcrawler.World.Errors.{ok}
use jobcrawler.World.{KafkaMessage, Env}
use jobcrawler.Kafka.{Message, encode_all}

module _ (env : Env) (trace_id topic : String) where
  -- One broker message for each item, in the order given, each with the item's key and value.
  abbrev pub Encodes : List Message → List KafkaMessage → Type 0
  Encodes [] [] = Unit
  Encodes [] (k ∷ ks) = ⊥
  Encodes (m ∷ ms) [] = ⊥
  Encodes (m ∷ ms) (k ∷ ks) =
      ((k.topic ≡ topic) × (k.key ≡ m.key) × (env.marshal m.payload ≡ ok k.value)) × Encodes ms ks

  -- A batch that is encoded becomes one message of the topic for each item, in the order given, with
  -- the item's key and its encoded payload.
  pub encode_all-Encodes :
      (ms : List Message) (ks : List KafkaMessage)
      → encode_all env trace_id topic ms ≡ ok ks
      → Encodes ms ks
  unfolding encode_all
  encode_all-Encodes [] [] h = tt
  encode_all-Encodes [] (k ∷ ks) h = ground arith
  encode_all-Encodes (m ∷ ms) [] h = ground arith
  encode_all-Encodes (m ∷ ms) (k ∷ ks) h = ground (arith, encode_all-Encodes ms ks)
