-- ===== src/Broker/Validation.antt =====
-- `validate_only` in CreateTopics and CreatePartitions (cmd/broker/main.go), over a metadata store in memory.
use kafscale.Base.{
  ◌≡◌, refl, sym, ap, ◌∙◌, true, false, List, [], ◌∷◌, arith, ◌||◌, if◌then◌else◌, length,
  Bool-cases, inl, inr,
}
use kafscale.Base.Int.{ℤ, pos, leb_ℤ, ltb_ℤ}
use kafscale.Base.Bytes.{Bytes, All}
use kafscale.Base.Maps.{Str, str_eq}
use kafscale.Metadata.Types.{MetadataTopic, InMemoryStore, TopicSpec}
use kafscale.Metadata.Memory.{
  has_topic, create_topic, clone_topics, metadata, new_topic, default_leader_id,
}
use kafscale.Metadata.Memory.WellFormed.{has_topic-append}
use kafscale.Protocol.Request.Topics.{CreateTopicConfig, CreateTopicsRequest}
use kafscale.Broker.Types.{Broker, Handler}
use kafscale.Broker.Memory.{with_memory, memory_metadata}
use kafscale.Broker.Topics.{validate_create_topic, create_one, create_all, handle_create_topics}

has_topic-clone_topics :
    (sha1 : Bytes → Bytes) (name : Str) (ts : List MetadataTopic)
    → has_topic name (clone_topics sha1 ts) ≡ has_topic name ts
unfolding clone_topics
has_topic-clone_topics sha1 name [] = refl
has_topic-clone_topics sha1 name (t ∷ ts) = ground (arith, has_topic-clone_topics sha1 name ts)

-- No name is asked for twice.
abbrev pub NamesDiffer : List CreateTopicConfig → Type 0
NamesDiffer [] = Unit {0}
NamesDiffer (t ∷ ts) =
    All (λ (u : CreateTopicConfig). str_eq t.name u.name ≡ false) ts × NamesDiffer ts

create_topic-other :
    (sha1 : Bytes → Bytes) (created name : Str) (spec : TopicSpec) (s : InMemoryStore)
    → str_eq spec.name name ≡ false
    → let s' = (create_topic sha1 created spec s).0 in
      (has_topic name s'.state.topics ≡ has_topic name s.state.topics)
      × (s'.state.brokers ≡ s.state.brokers)
unfolding create_topic
create_topic-other sha1 created name spec s other =
    let replication =
      if leb_ℤ spec.replication_factor (pos 0) then pos 1 else spec.replication_factor in
    let added = has_topic-append name s.state.topics (new_topic sha1 (default_leader_id s) spec) in
    elim (Bool-cases (str_eq spec.name [] || leb_ℤ spec.num_partitions (pos 0))) [
      | inl bad ↦ rw (bad, create_topic) (refl, refl)
      | inr named ↦ elim (Bool-cases (has_topic spec.name s.state.topics)) [
        | inl taken ↦ rw (named, create_topic, taken) (refl, refl)
        | inr free ↦ elim (Bool-cases (ltb_ℤ (pos (length s.state.brokers)) replication)) [
          | inl few ↦ rw (named, create_topic, free, few) (refl, refl)
          | inr enough ↦
              rw (named, create_topic, free, enough) (added ∙ ground (arith, other), refl)
        ]
      ]
    ]

module _ {S : Type 0} (sha1 : Bytes → Bytes) (created : Str) (b : Broker InMemoryStore S) where
  -- A topic that is only validated gets the result that it would get if it were created, and the store
  -- is left as it was.
  create_one_validates :
      (t : CreateTopicConfig) (s : InMemoryStore)
      → ((create_one (with_memory sha1 created b) true t s).1
          ≡ (create_one (with_memory sha1 created b) false t s).1)
        × ((create_one (with_memory sha1 created b) true t s).0 ≡ s)
  unfolding create_one validate_create_topic create_topic memory_metadata metadata
  create_one_validates t s =
      (ground (arith, has_topic-clone_topics sha1 t.name s.state.topics), ground arith)

  created_topics :
      (t : CreateTopicConfig) (name : Str) (s : InMemoryStore)
      → str_eq t.name name ≡ false
      → let s' = (create_one (with_memory sha1 created b) false t s).0 in
        (has_topic name s'.state.topics ≡ has_topic name s.state.topics)
        × (s'.state.brokers ≡ s.state.brokers)
  unfolding create_one memory_metadata
  created_topics t name s other = create_topic-other sha1 created name _ s other

  -- Whether a topic is valid depends on the store's brokers and on whether its name is taken.
  validated_by :
      (u : CreateTopicConfig) (s s' : InMemoryStore)
      → has_topic u.name s'.state.topics ≡ has_topic u.name s.state.topics
      → s'.state.brokers ≡ s.state.brokers
      → (create_one (with_memory sha1 created b) true u s').1
        ≡ (create_one (with_memory sha1 created b) true u s).1
  unfolding create_one validate_create_topic memory_metadata metadata
  validated_by u s s' taken brokers = ground (
    arith,
    has_topic-clone_topics sha1 u.name s'.state.topics,
    has_topic-clone_topics sha1 u.name s.state.topics,
    ap length brokers,
  )

  validated_after :
      (t : CreateTopicConfig) (us : List CreateTopicConfig) (s : InMemoryStore)
      → All (λ (u : CreateTopicConfig). str_eq t.name u.name ≡ false) us
      → let s' = (create_one (with_memory sha1 created b) false t s).0 in
        (create_all (with_memory sha1 created b) true us s').1
        ≡ (create_all (with_memory sha1 created b) true us s).1
  unfolding create_all
  validated_after t [] s h = refl
  validated_after t (u ∷ us) s h =
      let s' = (create_one (with_memory sha1 created b) false t s).0 in
      let (taken, brokers) = created_topics t u.name s h.0 in
      let kept = (create_one_validates u s).1 in
      let kept' = (create_one_validates u s').1 in
      rw (kept, kept', validated_by u s s' taken brokers)
        (ap (◌∷◌ (create_one (with_memory sha1 created b) true u s).1) (validated_after t us s h.1))

  create_all_validates :
      (ts : List CreateTopicConfig) (s : InMemoryStore)
      → NamesDiffer ts
      → ((create_all (with_memory sha1 created b) true ts s).1
          ≡ (create_all (with_memory sha1 created b) false ts s).1)
        × ((create_all (with_memory sha1 created b) true ts s).0 ≡ s)
  unfolding create_all
  create_all_validates [] s d = (refl, refl)
  create_all_validates (t ∷ ts) s d =
      let (same, kept) = create_one_validates t s in
      let (rest, _) =
        create_all_validates ts (create_one (with_memory sha1 created b) false t s).0 d.1 in
      let (_, all_kept) = create_all_validates ts s d.1 in
      (
        rw (kept, same)
            (ap (◌∷◌ (create_one (with_memory sha1 created b) false t s).1)
              (sym (validated_after t ts s d.0) ∙ rest)),
        rw kept all_kept,
      )

  -- A CreateTopics request whose topics have different names gets with validate_only the response that
  -- it would get without, and leaves the broker as it was.
  pub handle_create_topics_validates :
      (correlation version : ℤ) (req : CreateTopicsRequest) (h : Handler InMemoryStore S)
      → NamesDiffer req.topics
      → let only = record req { validate_only = true } in
        let really = record req { validate_only = false } in
        ((handle_create_topics (with_memory sha1 created b) correlation version only h).1
          ≡ (handle_create_topics (with_memory sha1 created b) correlation version really h).1)
        × ((handle_create_topics (with_memory sha1 created b) correlation version only h).0 ≡ h)
  unfolding handle_create_topics
  handle_create_topics_validates correlation version req h d =
      let (same, kept) = create_all_validates req.topics h.store d in (ground arith, ground arith)
