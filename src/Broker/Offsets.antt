-- ===== src/Broker/Offsets.antt =====
-- The handlers on offsets in cmd/broker/main.go: ListOffsets and OffsetForLeaderEpoch.
use kafscale.Base.{ℕ, ◌&&◌, List, [], ◌∷◌, Option, none, some, Result, ok, err, if◌then◌else◌}
use kafscale.Base.Int.{ℤ, ℤ_Key, pos, negsuc, eqb_ℤ, leb_ℤ}
use kafscale.Base.Maps.{Str, str_Key, get, put}
use kafscale.Metadata.Types.{MetadataPartition, MetadataTopic}
use kafscale.Storage.Log.{earliest_offset}
use kafscale.Protocol.Request.Data.{ListOffsetsPartition, ListOffsetsTopic, ListOffsetsRequest}
use kafscale.Protocol.Request.Configs.{LeaderEpochPartition, LeaderEpochTopic, LeaderEpochRequest}
use kafscale.Protocol.Response.Data.{
  ListOffsetsPartitionResponse, ListOffsetsTopicResponse, ListOffsetsResponse,
}
use kafscale.Protocol.Response.Topics.{
  LeaderEpochPartitionResponse, LeaderEpochTopicResponse, LeaderEpochResponse,
}
use kafscale.Broker.Types.{
  StoreError, Broker, Handler, HandlerError, store_failed, unsupported_version, no_error_code,
  unknown_server_error_code, unknown_topic_or_partition,
}
use kafscale.Broker.Logs.{Round, found, get_partition_log}

abbrev earliest : Round → Option ℤ
earliest (found l) = some (earliest_offset l)
earliest _ = none

abbrev offset_or_error : Result StoreError ℤ → Option ℤ
offset_or_error (ok n) = some n
offset_or_error (err e) = none

-- The answer for a partition: an offset, or an error.
abbrev pub listed : ℤ → ListOffsetsPartition → Option ℤ → ListOffsetsPartitionResponse
listed version p none = record {
  partition = p.partition;
  error_code = unknown_server_error_code;
  timestamp = pos 0;
  offset = pos 0;
  leader_epoch = negsuc 0;
  old_style_offsets = [];
}
listed version p (some offset) = record {
  partition = p.partition;
  error_code = no_error_code;
  timestamp = p.timestamp;
  offset = offset;
  leader_epoch = negsuc 0;
  old_style_offsets = if eqb_ℤ version (pos 0) then offset ∷ [] else [];
}

abbrev pub no_epoch : ℤ → ℤ → LeaderEpochPartitionResponse
no_epoch partition code = record {
  partition = partition;
  error_code = code;
  leader_epoch = negsuc 0;
  end_offset = negsuc 0;
}

abbrev index_partitions :
    List MetadataPartition → List (ℤ × MetadataPartition) → List (ℤ × MetadataPartition)
index_partitions [] m = m
index_partitions (p ∷ ps) m = index_partitions ps (put p.partition_index p m)

-- The partition's metadata, if the topic is known and has it.
abbrev pub known_partition : Option MetadataTopic → ℤ → Option MetadataPartition
known_partition none partition = none
known_partition (some t) partition = get partition (index_partitions t.partitions [])

abbrev index_by_name : List MetadataTopic → List (Str × MetadataTopic) → List (Str × MetadataTopic)
index_by_name [] m = m
index_by_name (t ∷ ts) m = index_by_name ts (put t.name t m)

abbrev epoch_names : List LeaderEpochTopic → List Str
epoch_names [] = []
epoch_names (t ∷ ts) = t.name ∷ epoch_names ts

module _ {M S : Type 0} (b : Broker M S) where
  -- -2 asks for the first offset of the log; any other timestamp gets the store's next offset.
  unfoldable pub list_offset :
      ℕ → ℕ → Str → ListOffsetsPartition → Handler M S → Option (Handler M S × Option ℤ)
  list_offset rounds now topic p h =
      let (m, next) = b.api.next_offset topic p.partition h.store in
      let opened : Option (Handler M S × Option ℤ) =
        elim (get_partition_log b rounds now topic p.partition h) [
          | none ↦ none
          | some (h', round) ↦ some (h', earliest round)
        ] in
      if eqb_ℤ p.timestamp (negsuc 1)
      then opened
      else some (record h { store = m }, offset_or_error next)

  unfoldable pub list_partitions :
      ℕ
      → ℕ
      → ℤ
      → Str
      → List ListOffsetsPartition
      → Handler M S
      → Option (Handler M S × List ListOffsetsPartitionResponse)
  list_partitions rounds now version topic [] h = some (h, [])
  list_partitions rounds now version topic (p ∷ ps) h = elim (list_offset rounds now topic p h) [
    | none ↦ none
    | some (h', offset) ↦ elim (list_partitions rounds now version topic ps h') [
      | none ↦ none
      | some (h'', rs) ↦ some (h'', listed version p offset ∷ rs)
    ]
  ]

  unfoldable pub list_topics :
      ℕ
      → ℕ
      → ℤ
      → List ListOffsetsTopic
      → Handler M S
      → Option (Handler M S × List ListOffsetsTopicResponse)
  list_topics rounds now version [] h = some (h, [])
  list_topics rounds now version (t ∷ ts) h =
      elim (list_partitions rounds now version t.name t.partitions h) [
        | none ↦ none
        | some (h', rs) ↦ elim (list_topics rounds now version ts h') [
          | none ↦ none
          | some (h'', topics) ↦ some (h'', record { name = t.name; partitions = rs } ∷ topics)
        ]
      ]

  -- Versions 0 to 4 are answered.
  unfoldable pub handle_list_offsets :
      ℕ
      → ℕ
      → ℤ
      → ℤ
      → ListOffsetsRequest
      → Handler M S
      → Option (Handler M S × Result HandlerError ListOffsetsResponse)
  handle_list_offsets rounds now correlation version req h =
      let answered : Option (Handler M S × Result HandlerError ListOffsetsResponse) =
        elim (list_topics rounds now version req.topics h) [
          | none ↦ none
          | some (h', topics) ↦ some (
            h',
            ok (record { correlation_id = correlation; throttle_ms = pos 0; topics = topics }),
          )
        ] in
      if leb_ℤ (pos 0) version && leb_ℤ version (pos 4)
      then answered
      else some (h, err unsupported_version)

  unfoldable pub epoch_partition :
      Str → Option MetadataTopic → ℤ → M → M × LeaderEpochPartitionResponse
  epoch_partition topic meta partition m =
      let (m', next) = b.api.next_offset topic partition m in
      elim (known_partition meta partition) [
        | none ↦ (m, no_epoch partition unknown_topic_or_partition)
        | some p ↦ (
          m',
          elim next [
            | err e ↦ no_epoch partition unknown_server_error_code
            | ok n ↦ record {
              partition = partition;
              error_code = no_error_code;
              leader_epoch = p.leader_epoch;
              end_offset = n;
            }
          ],
        )
      ]

  unfoldable pub epoch_partitions :
      Str
      → Option MetadataTopic
      → List LeaderEpochPartition
      → M
      → M × List LeaderEpochPartitionResponse
  epoch_partitions topic meta [] m = (m, [])
  epoch_partitions topic meta (p ∷ ps) m =
      let (m', r) = epoch_partition topic meta p.partition m in
      let (m'', rs) = epoch_partitions topic meta ps m' in (m'', r ∷ rs)

  unfoldable pub epoch_topics :
      List (Str × MetadataTopic) → List LeaderEpochTopic → M → M × List LeaderEpochTopicResponse
  epoch_topics index [] m = (m, [])
  epoch_topics index (t ∷ ts) m =
      let (m', rs) = epoch_partitions t.name (get t.name index) t.partitions m in
      let (m'', topics) = epoch_topics index ts m' in
      (m'', record { name = t.name; partitions = rs } ∷ topics)

  unfoldable pub handle_offset_for_leader_epoch :
      ℤ → LeaderEpochRequest → Handler M S → Handler M S × Result HandlerError LeaderEpochResponse
  handle_offset_for_leader_epoch correlation req h =
      let (m, loaded) = b.api.metadata (epoch_names req.topics) h.store in
      elim loaded [
        | err e ↦ (record h { store = m }, err (store_failed e))
        | ok meta ↦
            let (m', topics) = epoch_topics (index_by_name meta.topics []) req.topics m in
            (
              record h { store = m' },
              ok (record { correlation_id = correlation; throttle_ms = pos 0; topics = topics }),
            )
      ]
