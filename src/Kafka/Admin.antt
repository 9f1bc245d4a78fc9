-- ===== src/Kafka/Admin.antt =====
-- pkg/kafka/admin.go. The calls of kafka-go are arguments: a dial, the controller of a connection, the
-- topics of the partitions, the creation, and whether an error says that a topic exists already.
pub mod Created
use jobcrawler.Base.{
  ℕ, String, Bool, true, false, Option, none, some, List, [], ◌∷◌, any, str_eq, ◌⧺◌, decimal,
  if◌then◌else◌,
}
use jobcrawler.World.Errors.{Err, failure, wrap, Result, ok, err}
use jobcrawler.Kafka.{topic_crawl_queue, topic_jobs_raw, topic_jobs_processed, topic_jobs_failed}

-- topicSpec, and the TopicConfig of it.
pub record TopicSpec : Type 0 where
  pub name : String
  pub num_partitions : ℕ
  pub replication_factor : ℕ

abbrev pub required_topics : List TopicSpec
required_topics =
    (record { name = topic_crawl_queue; num_partitions = 4; replication_factor = 1 })
    ∷ (record { name = topic_jobs_raw; num_partitions = 8; replication_factor = 1 })
    ∷ (record { name = topic_jobs_processed; num_partitions = 4; replication_factor = 1 })
    ∷ (record { name = topic_jobs_failed; num_partitions = 1; replication_factor = 1 })
    ∷ []

pub record Cluster : Type 0 where
  pub dial : String → Option Err
  pub controller : String → Result (String × ℕ)
  pub join_host_port : String → String → String
  pub read_partitions : String → Result (List String)
  pub create : String → List TopicSpec → Option Err
  pub is_topic_exists : Err → Bool

-- The loop over the required topics; `topics` are the keys of `existing`.
unfoldable pub to_create : List String → List TopicSpec → List TopicSpec
to_create topics [] = []
to_create topics (spec ∷ specs) =
    let rest = to_create topics specs in if any (str_eq spec.name) topics then rest else spec ∷ rest

module _ (cluster : Cluster) where
  abbrev leader_dialled : String × ℕ → String → Option Err → Result String
  leader_dialled (host, port) address none = ok address
  leader_dialled (host, port) address (some e) =
      err (wrap ("dial controller " ⧺ (host ⧺ (":" ⧺ (decimal port ⧺ ": ")))) e)

  abbrev leader_of : Result (String × ℕ) → Result String
  leader_of (err e) = err (wrap "get controller: " e)
  leader_of (ok (host, port)) =
      let address = cluster.join_host_port host (decimal port) in
      leader_dialled (host, port) address (cluster.dial address)

  abbrev dialled : String → Option Err → Result String
  dialled broker (some e) = err e
  dialled broker none = leader_of (cluster.controller broker)

  -- dialLeader: the address of the connection to the controller.
  unfoldable pub dial_leader : String → Result String
  dial_leader broker = dialled broker (cluster.dial broker)

  abbrev creation_error : Option Err → Option Err
  creation_error none = none
  creation_error (some e) =
      if cluster.is_topic_exists e then none else some (wrap "create topics: " e)

  -- The error, and the topics that the cluster was asked to create, if it was.
  abbrev pub Outcome : Type 0
  Outcome = Option Err × Option (List TopicSpec)

  abbrev create_missing : String → List TopicSpec → Outcome
  create_missing leader [] = (none, none)
  create_missing leader (s ∷ ss) = (creation_error (cluster.create leader (s ∷ ss)), some (s ∷ ss))

  abbrev create_beside : String → Result (List String) → Outcome
  create_beside leader (err e) = (some (wrap "create topics: read partitions: " e), none)
  create_beside leader (ok topics) = create_missing leader (to_create topics required_topics)

  abbrev create_at : String → Result String → Outcome
  create_at broker (err e) = (some (wrap ("create topics: dial broker " ⧺ (broker ⧺ ": ")) e), none)
  create_at broker (ok leader) = create_beside leader (cluster.read_partitions leader)

  -- CreateTopics
  unfoldable pub create_topics : List String → Outcome
  unfolding dial_leader to_create
  create_topics [] = (some (failure "create topics: no brokers provided"), none)
  create_topics (broker ∷ brokers) = create_at broker (dial_leader broker)
