-- ===== src/Metadata/Memory.antt =====
-- InMemoryStore of pkg/metadata/store.go. Its lock makes each method a step. A method that is called
-- with a context already done only returns the context's error; here the context is live. Maps,
-- slices and messages are values, so a clone is what it copies, less the fields it forgets.
pub mod Topics
pub mod Offsets
pub mod Groups
pub mod WellFormed
pub mod Steps
pub mod Losses
use kafscale.Base.{
  ℕ, zero, suc, ◌+◌, ◌-◌, ◌%◌, Bool, true, false, ◌||◌, not, List, [], ◌∷◌, ◌++◌, Option, none,
  some, Result, ok, err, ltb, ◌==◌, ◌&&◌, if◌then◌else◌, length, take, map, replicate,
}
use kafscale.Base.Int.{ℤ, pos, negsuc, pos_part, leb_ℤ, ltb_ℤ, eqb_ℤ, wrap32, ◌+ℤ◌}
use kafscale.Base.Bytes.{Bytes}
use kafscale.Base.Maps.{Str, str_Key, str_eq, get, put}
use kafscale.Metadata.Types.{
  MetadataBroker, MetadataPartition, MetadataTopic, ClusterMetadata, TopicSpec, TopicConfig,
  InMemoryStore, MetadataError, topic_exists, invalid_topic, unknown_topic,
}

abbrev pub has_topic : Str → List MetadataTopic → Bool
has_topic name [] = false
has_topic name (t ∷ ts) = str_eq t.name name || has_topic name ts

abbrev pub find_topic : Str → List MetadataTopic → Option MetadataTopic
find_topic name [] = none
find_topic name (t ∷ ts) = if str_eq t.name name then some t else find_topic name ts

-- Partitions with an index from `first` on, `count` of them, on one broker.
unfoldable pub new_partitions : ℤ → ℕ → ℕ → List MetadataPartition
new_partitions leader first zero = []
new_partitions leader first (suc count) =
    (record {
      error_code = pos 0;
      partition_index = pos first;
      leader_id = leader;
      leader_epoch = pos 0;
      replica_nodes = leader ∷ [];
      isr_nodes = leader ∷ [];
      offline_replicas = [];
    })
    ∷ new_partitions leader (suc first) count

unfoldable pub default_leader_id : InMemoryStore → ℤ
default_leader_id s = elim s.state.brokers [ [] ↦ s.state.controller_id | b ∷ bs ↦ b.node_id ]

-- `int16(len(xs))`
abbrev pub int16_of : ℕ → ℤ
int16_of n = let w = n % 65536 in if ltb w 32768 then pos w else negsuc (65535 - w)

abbrev first_replicas : List MetadataPartition → ℤ
first_replicas [] = pos 0
first_replicas (p ∷ ps) = int16_of (length p.replica_nodes)

-- `created` is the text of time.Now.
unfoldable pub default_topic_config_from_topic : Str → MetadataTopic → ℤ → TopicConfig
default_topic_config_from_topic created t replication = record {
  name = t.name;
  partitions = wrap32 (pos (length t.partitions));
  replication_factor =
      if leb_ℤ replication (pos 0) && not (length t.partitions == 0)
      then first_replicas t.partitions
      else replication;
  retention_ms = negsuc 0;
  retention_bytes = negsuc 0;
  segment_bytes = pos 0;
  created_at = created;
  config = [];
}

abbrev pub with_topics : List MetadataTopic → InMemoryStore → InMemoryStore
with_topics ts s = record s { state = record s.state { topics = ts } }

module _ (sha1 : Bytes → Bytes) where
  unfoldable pub topic_id_for_name : Str → Bytes
  topic_id_for_name name = take 16 (sha1 name)

  unfoldable pub clone_topics : List MetadataTopic → List MetadataTopic
  clone_topics [] = []
  clone_topics (t ∷ ts) =
      (if str_eq t.topic_id (replicate 16 0)
        then record t { topic_id = topic_id_for_name t.name }
        else t)
      ∷ clone_topics ts

  abbrev clone_metadata : ClusterMetadata → ClusterMetadata
  clone_metadata m = record m { topics = clone_topics m.topics }

  unfoldable pub new_in_memory_store : ClusterMetadata → InMemoryStore
  new_in_memory_store state = record {
    state = clone_metadata state;
    offsets = [];
    consumer_offsets = [];
    consumer_meta = [];
    consumer_groups = [];
    topic_configs = [];
  }

  unfoldable pub update : ClusterMetadata → InMemoryStore → InMemoryStore
  update state s = record s { state = clone_metadata state }

  -- What is returned for a topic that does not exist.
  abbrev missing_topic : Str → MetadataTopic
  missing_topic name = record {
    error_code = pos 3;
    name = name;
    topic_id = replicate 16 0;
    is_internal = false;
    partitions = [];
    topic_authorized_operations = pos 0;
  }

  unfoldable pub index_topics :
      List MetadataTopic → List (Str × MetadataTopic) → List (Str × MetadataTopic)
  index_topics [] m = m
  index_topics (t ∷ ts) m = index_topics ts (put t.name t m)

  unfoldable pub pick_topics : List (Str × MetadataTopic) → List Str → List MetadataTopic
  pick_topics index [] = []
  pick_topics index (name ∷ names) =
      (elim (get name index) [ none ↦ missing_topic name | some t ↦ t ]) ∷ pick_topics index names

  unfoldable pub filter_topics : List MetadataTopic → List Str → List MetadataTopic
  filter_topics all [] = clone_topics all
  filter_topics all (name ∷ names) = pick_topics (index_topics all []) (name ∷ names)

  unfoldable pub metadata : List Str → InMemoryStore → ClusterMetadata
  metadata [] s = clone_metadata s.state
  metadata (name ∷ names) s = record (clone_metadata s.state) {
    topics = filter_topics (clone_topics s.state.topics) (name ∷ names);
  }

  -- The new topic, behind the checks.
  abbrev pub new_topic : ℤ → TopicSpec → MetadataTopic
  new_topic leader spec = record {
    error_code = pos 0;
    name = spec.name;
    topic_id = topic_id_for_name spec.name;
    is_internal = false;
    partitions = new_partitions leader 0 (pos_part spec.num_partitions);
    topic_authorized_operations = pos 0;
  }

  unfoldable pub create_topic :
      Str → TopicSpec → InMemoryStore → InMemoryStore × Result MetadataError MetadataTopic
  create_topic created spec s =
      let replication =
        if leb_ℤ spec.replication_factor (pos 0) then pos 1 else spec.replication_factor in
      let topic = new_topic (default_leader_id s) spec in
      let s' = with_topics (s.state.topics ++ topic ∷ []) s in
      if str_eq spec.name [] || leb_ℤ spec.num_partitions (pos 0)
      then (s, err invalid_topic)
      else (if has_topic spec.name s.state.topics
          then (s, err topic_exists)
          else (if ltb_ℤ (pos (length s.state.brokers)) replication
              then (s, err invalid_topic)
              else (
                record s' {
                  topic_configs =
                      put spec.name (default_topic_config_from_topic created topic replication)
                        s.topic_configs;
                },
                ok topic,
              )))
