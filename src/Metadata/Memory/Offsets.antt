-- ===== src/Metadata/Memory/Offsets.antt =====
-- The methods of InMemoryStore on offsets (pkg/metadata/store.go).
use kafscale.Base.{
  Bool, false, ◌||◌, List, [], ◌∷◌, ◌++◌, Option, none, some, Result, ok, err, if◌then◌else◌,
}
use kafscale.Base.Int.{ℤ, pos, eqb_ℤ, wrap64, ◌+ℤ◌}
use kafscale.Base.Maps.{Str, str_Key, get, put}
use kafscale.Base.Decimal.{decimal}
use kafscale.Metadata.Types.{
  MetadataPartition, MetadataTopic, InMemoryStore, MetadataError, unknown_topic,
}
use kafscale.Metadata.Memory.{find_topic}

abbrev pub has_partition : ℤ → List MetadataPartition → Bool
has_partition i [] = false
has_partition i (p ∷ ps) = eqb_ℤ p.partition_index i || has_partition i ps

unfoldable pub topic_has_partition : List MetadataTopic → Str → ℤ → Bool
topic_has_partition topics name partition = elim (find_topic name topics) [
  | none ↦ false
  | some t ↦ has_partition partition t.partitions
]

unfoldable pub partition_key : Str → ℤ → Str
partition_key topic partition = topic ++ (58 ∷ decimal partition)

unfoldable pub consumer_key : Str → Str → ℤ → Str
consumer_key group topic partition = group ++ (58 ∷ (topic ++ (58 ∷ decimal partition)))

-- A key that is not in the map has the value 0.
abbrev pub offset_or_zero : Option ℤ → ℤ
offset_or_zero none = pos 0
offset_or_zero (some n) = n

abbrev pub text_or_empty : Option Str → Str
text_or_empty none = []
text_or_empty (some t) = t

unfoldable pub next_offset : Str → ℤ → InMemoryStore → Result MetadataError ℤ
next_offset topic partition s =
    if topic_has_partition s.state.topics topic partition
    then ok (offset_or_zero (get (partition_key topic partition) s.offsets))
    else err unknown_topic

unfoldable pub update_offsets : Str → ℤ → ℤ → InMemoryStore → InMemoryStore
update_offsets topic partition last s = record s {
  offsets = put (partition_key topic partition) (wrap64 (last +ℤ pos 1)) s.offsets;
}

unfoldable pub commit_consumer_offset : Str → Str → ℤ → ℤ → Str → InMemoryStore → InMemoryStore
commit_consumer_offset group topic partition offset meta s =
    let key = consumer_key group topic partition in
    record s {
      consumer_offsets = put key offset s.consumer_offsets;
      consumer_meta = put key meta s.consumer_meta;
    }

unfoldable pub fetch_consumer_offset : Str → Str → ℤ → InMemoryStore → ℤ × Str
fetch_consumer_offset group topic partition s =
    let key = consumer_key group topic partition in
    (offset_or_zero (get key s.consumer_offsets), text_or_empty (get key s.consumer_meta))
