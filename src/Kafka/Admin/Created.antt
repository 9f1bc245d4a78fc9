-- ===== src/Kafka/Admin/Created.antt =====
-- What CreateTopics of pkg/kafka/admin.go has asked the cluster for when it reports no error.
use mathlib.Core.List.{Memᴰ}
use jobcrawler.Base.{
  String, ◌≡◌, ◌↔◌, inl, inr, false, Option, none, some, List, [], ◌∷◌, any, str_eq, refl, sym,
  subst, arith, Bool-cases,
}
use jobcrawler.World.Errors.{Err, ok, Result-cases}
use jobcrawler.Kafka.Admin.{
  TopicSpec, required_topics, Cluster, to_create, create_missing, dial_leader, create_topics,
}

-- A topic that is required and missing.
abbrev pub IsMissing : List String → List TopicSpec → TopicSpec → Type 0
IsMissing topics specs spec = Memᴰ spec specs × (any (str_eq spec.name) topics ≡ false)

IsMissing-later :
    (topics : List String) (t : TopicSpec) (specs : List TopicSpec) (spec : TopicSpec)
    → IsMissing topics specs spec
    → IsMissing topics (t ∷ specs) spec
IsMissing-later topics t specs spec (m, h) = (Memᴰ.tail m, h)

to_create_sound :
    (topics : List String) (specs : List TopicSpec) (spec : TopicSpec)
    → Memᴰ spec (to_create topics specs)
    → IsMissing topics specs spec
unfolding to_create
to_create_sound topics [] spec m = elim m [ ]
to_create_sound topics (t ∷ specs) spec m = elim (Bool-cases (any (str_eq t.name) topics)) [
  | inl there ↦
      let later : to_create topics (t ∷ specs) ≡ to_create topics specs =
        rw (to_create, there) refl in
      IsMissing-later topics t specs spec
        (to_create_sound topics specs spec (subst (Memᴰ spec) later m))
  | inr gone ↦
      let now : to_create topics (t ∷ specs) ≡ t ∷ to_create topics specs =
        rw (to_create, gone) refl in
      elim (subst (Memᴰ spec) now m) [
        | Memᴰ.head e ↦ (Memᴰ.head e, subst (λ s. any (str_eq s.name) topics ≡ false) (sym e) gone)
        | Memᴰ.tail r ↦ IsMissing-later topics t specs spec (to_create_sound topics specs spec r)
      ]
]

to_create_complete :
    (topics : List String) (specs : List TopicSpec) (spec : TopicSpec)
    → IsMissing topics specs spec
    → Memᴰ spec (to_create topics specs)
unfolding to_create
to_create_complete topics [] spec (m, h) = elim m [ ]
to_create_complete topics (t ∷ specs) spec (Memᴰ.head e, h) =
    let gone : any (str_eq t.name) topics ≡ false =
      subst (λ s. any (str_eq s.name) topics ≡ false) e h in
    rw (to_create, gone) (Memᴰ.head e)
to_create_complete topics (t ∷ specs) spec (Memᴰ.tail r, h) =
    let rest = to_create_complete topics specs spec (r, h) in
    elim (Bool-cases (any (str_eq t.name) topics)) [
      | inl there ↦ rw (to_create, there) rest
      | inr gone ↦ rw (to_create, gone) (Memᴰ.tail rest)
    ]

abbrev pub asked : Option (List TopicSpec) → List TopicSpec
asked none = []
asked (some specs) = specs

module _ (cluster : Cluster) where
  -- The topics of the cluster are known, and exactly the missing ones of the required are asked for, at
  -- the controller that was dialled.
  pub record IsEnsured (broker : String) (out : Option Err × Option (List TopicSpec)) : Type 0 where
    pub leader : String
    pub topics : List String
    pub dialled : dial_leader cluster broker ≡ ok leader
    pub read : cluster.read_partitions leader ≡ ok topics
    pub exact : (spec : TopicSpec) → Memᴰ spec (asked out.1) ↔ IsMissing topics required_topics spec

  asked-create_missing :
      (leader : String) (specs : List TopicSpec)
      → asked (create_missing cluster leader specs).1 ≡ specs
  asked-create_missing leader [] = refl
  asked-create_missing leader (s ∷ ss) = refl

  -- Where CreateTopics reports no error, there is a broker, the controller was dialled and gave the
  -- topics of the cluster, and the topics that it was asked to create are exactly the required ones
  -- that it did not have.
  pub create_topics-IsEnsured :
      (brokers : List String)
      → (create_topics cluster brokers).0 ≡ none
      → (broker : String) × Memᴰ broker brokers × IsEnsured broker (create_topics cluster brokers)
  unfolding create_topics
  create_topics-IsEnsured [] h = ground arith
  create_topics-IsEnsured (broker ∷ brokers) h = elim (Result-cases (dial_leader cluster broker)) [
    | inr (e, failed) ↦ absurd (ground arith)
    | inl (leader, found) ↦ elim (Result-cases (cluster.read_partitions leader)) [
      | inr (e, failed) ↦ absurd (ground arith)
      | inl (topics, read) ↦
          let same : asked (create_topics cluster (broker ∷ brokers)).1
              ≡ to_create topics required_topics =
            rw (create_topics, found, read)
              (asked-create_missing leader (to_create topics required_topics)) in
          (
            broker,
            Memᴰ.head refl,
            record {
              leader = leader;
              topics = topics;
              dialled = found;
              read = read;
              exact = λ spec. (
                λ m. to_create_sound topics required_topics spec (subst (Memᴰ spec) same m),
                λ k.
                    subst (Memᴰ spec) (sym same) (to_create_complete topics required_topics spec k),
              );
            },
          )
    ]
  ]
