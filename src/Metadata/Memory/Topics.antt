-- ===== src/Metadata/Memory/Topics.antt =====
-- The methods of InMemoryStore on topics and their configurations (pkg/metadata/store.go).
use kafscale.Base.{
  ◌-◌, ◌||◌, List, [], ◌∷◌, ◌++◌, Option, none, some, Result, ok, err, if◌then◌else◌, length,
}
use kafscale.Base.Int.{ℤ, pos, pos_part, leb_ℤ, eqb_ℤ, wrap32}
use kafscale.Base.Maps.{Str, str_Key, str_eq, get, put}
use kafscale.Storage.S3.{has_prefix}
use kafscale.Metadata.Types.{
  MetadataTopic, TopicConfig, InMemoryStore, MetadataError, invalid_topic, unknown_topic,
}
use kafscale.Metadata.Memory.{
  has_topic, find_topic, new_partitions, default_leader_id, default_topic_config_from_topic,
  int16_of, with_topics,
}

-- The topic written back to the place it was found in.
abbrev pub set_topic : Str → MetadataTopic → List MetadataTopic → List MetadataTopic
set_topic name t [] = []
set_topic name t (u ∷ ts) = if str_eq u.name name then t ∷ ts else u ∷ set_topic name t ts

abbrev pub remove_topic : Str → List MetadataTopic → List MetadataTopic
remove_topic name [] = []
remove_topic name (u ∷ ts) = if str_eq u.name name then ts else u ∷ remove_topic name ts

abbrev pub keep_unprefixed : Str → List (Str × ℤ) → List (Str × ℤ)
keep_unprefixed prefix [] = []
keep_unprefixed prefix ((k, v) ∷ m) =
    if has_prefix prefix k then keep_unprefixed prefix m else (k, v) ∷ keep_unprefixed prefix m

abbrev config_of : Str → MetadataTopic → Option TopicConfig → TopicConfig
config_of created t (some cfg) = cfg
config_of created t none =
    default_topic_config_from_topic created t (int16_of (length t.partitions))

unfoldable pub fetch_topic_config : Str → Str → InMemoryStore → Result MetadataError TopicConfig
fetch_topic_config created topic s = elim (find_topic topic s.state.topics) [
  | none ↦ err unknown_topic
  | some t ↦ ok (config_of created t (get topic s.topic_configs))
]

unfoldable pub update_topic_config :
    TopicConfig → InMemoryStore → InMemoryStore × Result MetadataError (Unit {0})
update_topic_config cfg s =
    let updated : InMemoryStore × Result MetadataError (Unit {0}) =
      elim (find_topic cfg.name s.state.topics) [
        | none ↦ (s, err unknown_topic)
        | some t ↦
            let count =
              if eqb_ℤ cfg.partitions (pos 0)
              then wrap32 (pos (length t.partitions))
              else cfg.partitions in
            (
              record s {
                topic_configs = put cfg.name (record cfg { partitions = count }) s.topic_configs;
              },
              ok tt,
            )
      ] in
    if str_eq cfg.name [] then (s, err invalid_topic) else updated

-- A topic that has more partitions than an int32 counts is not considered.
unfoldable pub create_partitions :
    Str → Str → ℤ → InMemoryStore → InMemoryStore × Result MetadataError (Unit {0})
create_partitions created topic count s =
    let expanded : InMemoryStore × Result MetadataError (Unit {0}) =
      elim (find_topic topic s.state.topics) [
        | none ↦ (s, err unknown_topic)
        | some t ↦
            let current = length t.partitions in
            let t' = record t {
              partitions =
                  t.partitions
                  ++ new_partitions (default_leader_id s) current (pos_part count - current);
            } in
            let cfg = config_of created t' (get topic s.topic_configs) in
            let s' = with_topics (set_topic topic t' s.state.topics) s in
            if leb_ℤ count (pos current) then (s, err invalid_topic) else (
              record s' {
                topic_configs = put topic (record cfg { partitions = count }) s.topic_configs;
              },
              ok tt,
            )
      ] in
    if str_eq topic [] || leb_ℤ count (pos 0) then (s, err invalid_topic) else expanded

-- The offsets go with the topic, its configuration stays.
unfoldable pub delete_topic : Str → InMemoryStore → InMemoryStore × Result MetadataError (Unit {0})
delete_topic name s =
    let s' = with_topics (remove_topic name s.state.topics) s in
    if has_topic name s.state.topics
    then (record s' { offsets = keep_unprefixed (name ++ 58 ∷ []) s.offsets }, ok tt)
    else (s, err unknown_topic)
