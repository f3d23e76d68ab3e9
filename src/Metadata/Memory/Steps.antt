-- ===== src/Metadata/Memory/Steps.antt =====
-- What holds of InMemoryStore (pkg/metadata/store.go) after any sequence of its methods.
use kafscale.Base.{◌≡◌, refl, arith, List, [], ◌∷◌, ◌++◌, replicate, Bool-cases, inl, inr}
use kafscale.Base.Int.{ℤ}
use kafscale.Base.Bytes.{Bytes, All}
use kafscale.Base.Maps.{Str, str_Key, str_eq}
use kafscale.Group.Types.{ConsumerGroup}
use kafscale.Metadata.Types.{TopicSpec, TopicConfig, InMemoryStore, ClusterMetadata, MetadataTopic}
use kafscale.Metadata.Memory.{find_topic, create_topic, has_topic, clone_topics, update}
use kafscale.Metadata.Memory.Topics.{update_topic_config, create_partitions, delete_topic}
use kafscale.Metadata.Memory.Offsets.{update_offsets, commit_consumer_offset}
use kafscale.Metadata.Memory.Groups.{put_consumer_group, delete_consumer_group}
use kafscale.Metadata.Memory.WellFormed.{
  WellFormed, Distinct, IsIndexed, create_topic-WellFormed, create_partitions-WellFormed,
  delete_topic-WellFormed,
}

-- Metadata whose topics have distinct names and partitions that are numbered from 0 on.
abbrev pub IsInOrder : ClusterMetadata → Type 0
IsInOrder m = Distinct m.topics × All IsIndexed m.topics

All-split : {A : Type 0} (P : A → Type 0) (xs ys : List A) → All P (xs ++ ys) → All P xs × All P ys
All-split P [] ys h = (tt, h)
All-split P (x ∷ xs) ys h = let (rest, more) = All-split P xs ys h.1 in ((h.0, rest), more)

module _ (sha1 : Bytes → Bytes) where
  -- One call of a method that changes the store, with whatever result.
  pub data Step : InMemoryStore → InMemoryStore → Type 0 where
    topic_created :
        (created : Str) (spec : TopicSpec) (s : InMemoryStore)
        → Step s (create_topic sha1 created spec s).0
    partitions_created :
        (created topic : Str) (count : ℤ) (s : InMemoryStore)
        → Step s (create_partitions created topic count s).0
    topic_deleted : (name : Str) (s : InMemoryStore) → Step s (delete_topic name s).0
    config_updated : (cfg : TopicConfig) (s : InMemoryStore) → Step s (update_topic_config cfg s).0
    offsets_updated :
        (topic : Str) (partition last : ℤ) (s : InMemoryStore)
        → Step s (update_offsets topic partition last s)
    offset_committed :
        (group topic : Str) (partition offset : ℤ) (meta : Str) (s : InMemoryStore)
        → Step s (commit_consumer_offset group topic partition offset meta s)
    group_put : (g : ConsumerGroup) (s : InMemoryStore) → Step s (put_consumer_group g s).0
    group_deleted : (id : Str) (s : InMemoryStore) → Step s (delete_consumer_group id s)
    updated : (state : ClusterMetadata) (s : InMemoryStore) → Step s (update sha1 state s)

  -- Any number of calls, one after the other.
  pub data Steps : InMemoryStore → InMemoryStore → Type 0 where
    start : (s : InMemoryStore) → Steps s s
    next : {s t u : InMemoryStore} → Steps s t → Step t u → Steps s u

  abbrev installed_by : {s t : InMemoryStore} → Step s t → List ClusterMetadata
  installed_by (updated state s) = state ∷ []
  installed_by (topic_created created spec s) = []
  installed_by (partitions_created created topic count s) = []
  installed_by (topic_deleted name s) = []
  installed_by (config_updated cfg s) = []
  installed_by (offsets_updated topic partition last s) = []
  installed_by (offset_committed group topic partition offset meta s) = []
  installed_by (group_put g s) = []
  installed_by (group_deleted id s) = []

  -- What the calls of Update put in the place of the cluster's metadata, the latest first.
  abbrev pub installed : {s t : InMemoryStore} → Steps s t → List ClusterMetadata
  installed (start s) = []
  installed (next steps step) = installed_by step ++ installed steps

  has_topic-clone :
      (name : Str) (ts : List MetadataTopic)
      → has_topic name (clone_topics sha1 ts) ≡ has_topic name ts
  unfolding clone_topics
  has_topic-clone name [] = refl
  has_topic-clone name (t ∷ ts) = ground (arith, has_topic-clone name ts)

  Distinct-clone : (ts : List MetadataTopic) → Distinct ts → Distinct (clone_topics sha1 ts)
  unfolding clone_topics
  Distinct-clone [] d = tt
  Distinct-clone (t ∷ ts) d =
      (ground (arith, d.0, has_topic-clone t.name ts), Distinct-clone ts d.1)

  IsIndexed-clone :
      (ts : List MetadataTopic) → All IsIndexed ts → All IsIndexed (clone_topics sha1 ts)
  unfolding clone_topics
  IsIndexed-clone [] h = tt
  IsIndexed-clone (t ∷ ts) h = (
    elim (Bool-cases (str_eq t.topic_id (replicate 16 0))) [
      | inl zeros ↦ rw zeros h.0
      | inr own ↦ rw own h.0
    ],
    IsIndexed-clone ts h.1,
  )

  topics_kept :
      (s t : InMemoryStore) → t.state.topics ≡ s.state.topics → WellFormed s → WellFormed t
  topics_kept s t e w = record { distinct = rw e w.distinct; indexed = rw e w.indexed }

  update_topic_config-topics :
      (cfg : TopicConfig) (s : InMemoryStore)
      → (update_topic_config cfg s).0.state.topics ≡ s.state.topics
  unfolding update_topic_config
  update_topic_config-topics cfg s = ground arith

  put_consumer_group-topics :
      (g : ConsumerGroup) (s : InMemoryStore)
      → (put_consumer_group g s).0.state.topics ≡ s.state.topics
  unfolding put_consumer_group
  put_consumer_group-topics g s = ground arith

  Step-WellFormed :
      {s t : InMemoryStore} (step : Step s t)
      → All IsInOrder (installed_by step)
      → WellFormed s
      → WellFormed t
  unfolding update_offsets commit_consumer_offset delete_consumer_group update
  Step-WellFormed (topic_created created spec s) i w = create_topic-WellFormed sha1 created spec s w
  Step-WellFormed (partitions_created created topic count s) i w =
      create_partitions-WellFormed created topic count s (find_topic topic s.state.topics) refl w
  Step-WellFormed (topic_deleted name s) i w = delete_topic-WellFormed name s w
  Step-WellFormed (config_updated cfg s) i w = topics_kept s _ (update_topic_config-topics cfg s) w
  Step-WellFormed (offsets_updated topic partition last s) i w = topics_kept s _ refl w
  Step-WellFormed (offset_committed group topic partition offset meta s) i w =
      topics_kept s _ refl w
  Step-WellFormed (group_put g s) i w = topics_kept s _ (put_consumer_group-topics g s) w
  Step-WellFormed (group_deleted id s) i w = topics_kept s _ refl w
  Step-WellFormed (updated state s) i w = record {
    distinct = Distinct-clone state.topics i.0.0;
    indexed = IsIndexed-clone state.topics i.0.1;
  }

  -- After any sequence of calls of the store's methods no two topics have the same name, and the
  -- partitions of each topic are numbered from 0 on, if that was so at first and is so in each metadata
  -- that a call of Update installs.
  pub Steps-WellFormed :
      {s t : InMemoryStore} (steps : Steps s t)
      → All IsInOrder (installed steps)
      → WellFormed s
      → WellFormed t
  Steps-WellFormed (start s) i w = w
  Steps-WellFormed (next steps step) i w =
      let (by_step, before) = All-split IsInOrder (installed_by step) (installed steps) i in
      Step-WellFormed step by_step (Steps-WellFormed steps before w)
