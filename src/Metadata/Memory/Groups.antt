-- ===== src/Metadata/Memory/Groups.antt =====
-- The methods of InMemoryStore on consumer groups (pkg/metadata/store.go), and the store as the group
-- coordinator uses it.
use kafscale.Base.{
  Bool, true, false, List, [], ◌∷◌, Option, none, some, Result, ok, err, if◌then◌else◌,
}
use kafscale.Base.Int.{ℤ, pos}
use kafscale.Base.Bytes.{Bytes}
use kafscale.Base.Maps.{Str, str_Key, str_eq, get, put, delete}
use kafscale.Group.Types.{GroupMember, ConsumerGroup, TopicPartitions, Store}
use kafscale.Metadata.Types.{
  MetadataPartition, MetadataTopic, InMemoryStore, MetadataError, group_id_required,
}
use kafscale.Metadata.Memory.{metadata}
use kafscale.Metadata.Memory.Offsets.{commit_consumer_offset, fetch_consumer_offset}

abbrev pub clone_members : List (Str × GroupMember) → List (Str × GroupMember)
clone_members [] = []
clone_members ((id, m) ∷ ms) = (id, record m { session_timeout_ms = pos 0 }) ∷ clone_members ms

-- The timeouts are not copied.
unfoldable pub clone_consumer_group : ConsumerGroup → ConsumerGroup
clone_consumer_group g = record g {
  members = clone_members g.members;
  rebalance_timeout_ms = pos 0;
}

unfoldable pub put_consumer_group :
    ConsumerGroup → InMemoryStore → InMemoryStore × Result MetadataError (Unit {0})
put_consumer_group g s = if str_eq g.group_id [] then (s, err group_id_required) else (
  record s { consumer_groups = put g.group_id (clone_consumer_group g) s.consumer_groups },
  ok tt,
)

unfoldable pub fetch_consumer_group : Str → InMemoryStore → Option ConsumerGroup
fetch_consumer_group id s = elim (get id s.consumer_groups) [
  | none ↦ none
  | some g ↦ some (clone_consumer_group g)
]

abbrev pub cloned_groups : List (Str × ConsumerGroup) → List ConsumerGroup
cloned_groups [] = []
cloned_groups ((id, g) ∷ gs) = clone_consumer_group g ∷ cloned_groups gs

-- In no order that the language fixes.
unfoldable pub list_consumer_groups : InMemoryStore → List ConsumerGroup
list_consumer_groups s = cloned_groups s.consumer_groups

unfoldable pub delete_consumer_group : Str → InMemoryStore → InMemoryStore
delete_consumer_group id s = record s { consumer_groups = delete id s.consumer_groups }

abbrev indexes : List MetadataPartition → List ℤ
indexes [] = []
indexes (p ∷ ps) = p.partition_index ∷ indexes ps

abbrev topic_partitions : List MetadataTopic → List TopicPartitions
topic_partitions [] = []
topic_partitions (t ∷ ts) =
    record { name = t.name; indexes = indexes t.partitions } ∷ topic_partitions ts

abbrev succeeded : Result MetadataError (Unit {0}) → Bool
succeeded (ok done) = true
succeeded (err e) = false

-- The store that the coordinator is given.
unfoldable pub memory_store : (Bytes → Bytes) → Store InMemoryStore
memory_store sha1 = record {
  metadata = λ topics s. some (topic_partitions (metadata sha1 topics s).topics);
  fetch_consumer_group = λ id s. some (fetch_consumer_group id s);
  list_consumer_groups = λ s. some (list_consumer_groups s);
  put_consumer_group = λ g s. ((put_consumer_group g s).0, succeeded (put_consumer_group g s).1);
  delete_consumer_group = λ id s. (delete_consumer_group id s, true);
  commit_consumer_offset = λ group topic partition offset meta s.
      (commit_consumer_offset group topic partition offset meta s, true);
  fetch_consumer_offset =
      λ group topic partition s. some (fetch_consumer_offset group topic partition s);
}
