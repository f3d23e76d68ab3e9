-- ===== src/Protocol/Response/Data.antt =====
-- The responses of pkg/protocol/response.go on records, offsets and topics.
use kafscale.Base.{Bool, false, ◌&&◌, List, [], ◌∷◌, Option, none, some, ok, err, if◌then◌else◌}
use kafscale.Base.Int.{ℤ, pos, eqb_ℤ}
use kafscale.Base.Bytes.{Bytes}
use kafscale.Base.Maps.{Str}
use kafscale.Metadata.Types.{MetadataBroker, MetadataTopic, MetadataPartition}
use kafscale.Protocol.Reader.{unsupported_api}
use kafscale.Protocol.Request.Header.{from_version}
use kafscale.Protocol.Output.{
  Output, join, int16, int32, int64, bool, when, either_of, string, nullable, bytes, count, tag_end,
  array, supported,
}

pub record ApiVersion : Type 0 where
  pub api_key : ℤ
  pub min_version : ℤ
  pub max_version : ℤ

pub record ApiVersionsResponse : Type 0 where
  pub correlation_id : ℤ
  pub error_code : ℤ
  pub throttle_ms : ℤ
  pub versions : List ApiVersion

unfoldable pub encode_api_versions : ApiVersionsResponse → ℤ → Output
encode_api_versions r version =
    let flexible = from_version 3 version in
    supported (pos 0) (pos 4) version (
      join (
        int32 r.correlation_id
        ∷ int16 r.error_code
        ∷ array flexible r.versions (λ v.
          join
            (int16 v.api_key ∷ int16 v.min_version ∷ int16 v.max_version ∷ tag_end flexible ∷ []))
        ∷ when (from_version 1 version) (int32 r.throttle_ms)
        ∷ tag_end flexible
        ∷ []))

pub record MetadataResponse : Type 0 where
  pub correlation_id : ℤ
  pub throttle_ms : ℤ
  pub brokers : List MetadataBroker
  pub cluster_id : Option Str
  pub controller_id : ℤ
  pub topics : List MetadataTopic
  pub cluster_authorized_operations : ℤ

unfoldable pub encode_broker : Bool → ℤ → MetadataBroker → Output
encode_broker flexible version b = join (
    int32 b.node_id
    ∷ string flexible b.host
    ∷ int32 b.port
    ∷ when (from_version 1 version) (nullable flexible b.rack)
    ∷ tag_end flexible
    ∷ [])

unfoldable pub encode_partition : Bool → ℤ → MetadataPartition → Output
encode_partition flexible version p = join (
    int16 p.error_code
    ∷ int32 p.partition_index
    ∷ int32 p.leader_id
    ∷ when (from_version 7 version) (int32 p.leader_epoch)
    ∷ array flexible p.replica_nodes (λ n. int32 n)
    ∷ array flexible p.isr_nodes (λ n. int32 n)
    ∷ when (from_version 5 version) (array flexible p.offline_replicas (λ n. int32 n))
    ∷ tag_end flexible
    ∷ [])

abbrev null_if_empty : Str → Option Str
null_if_empty [] = none
null_if_empty (c ∷ cs) = some (c ∷ cs)

unfoldable pub encode_topic : Bool → ℤ → MetadataTopic → Output
encode_topic flexible version t = join (
    int16 t.error_code
    ∷ either_of (from_version 10 version)
        (join (nullable flexible (null_if_empty t.name) ∷ ok t.topic_id ∷ []))
        (string flexible t.name)
    ∷ when (from_version 1 version) (bool t.is_internal)
    ∷ array flexible t.partitions (encode_partition flexible version)
    ∷ when (from_version 8 version) (int32 t.topic_authorized_operations)
    ∷ tag_end flexible
    ∷ [])

unfoldable pub encode_metadata : MetadataResponse → ℤ → Output
encode_metadata r version =
    let flexible = from_version 9 version in
    supported (pos 0) (pos 12) version (
      join (
        int32 r.correlation_id
        ∷ tag_end flexible
        ∷ when (from_version 3 version) (int32 r.throttle_ms)
        ∷ array flexible r.brokers (encode_broker flexible version)
        ∷ when (from_version 2 version) (nullable flexible r.cluster_id)
        ∷ when (from_version 1 version) (int32 r.controller_id)
        ∷ array flexible r.topics (encode_topic flexible version)
        ∷ when (from_version 8 version) (int32 r.cluster_authorized_operations)
        ∷ tag_end flexible
        ∷ []))

pub record ProducePartitionResponse : Type 0 where
  pub partition : ℤ
  pub error_code : ℤ
  pub base_offset : ℤ
  pub log_append_time_ms : ℤ
  pub log_start_offset : ℤ

pub record ProduceTopicResponse : Type 0 where
  pub name : Str
  pub partitions : List ProducePartitionResponse

pub record ProduceResponse : Type 0 where
  pub correlation_id : ℤ
  pub topics : List ProduceTopicResponse
  pub throttle_ms : ℤ

-- No record errors and no error message.
unfoldable pub encode_produce_partition : Bool → ℤ → ProducePartitionResponse → Output
encode_produce_partition flexible version p = join (
    int32 p.partition
    ∷ int16 p.error_code
    ∷ int64 p.base_offset
    ∷ when (from_version 3 version) (int64 p.log_append_time_ms)
    ∷ when (from_version 5 version) (int64 p.log_start_offset)
    ∷ when (from_version 8 version) (join (count flexible 0 ∷ nullable flexible none ∷ []))
    ∷ tag_end flexible
    ∷ [])

unfoldable pub encode_produce : ProduceResponse → ℤ → Output
encode_produce r version =
    let flexible = from_version 9 version in
    join (
      int32 r.correlation_id
      ∷ tag_end flexible
      ∷ array flexible r.topics (λ t. join (
          string flexible t.name
          ∷ array flexible t.partitions (encode_produce_partition flexible version)
          ∷ tag_end flexible
          ∷ []))
      ∷ when (from_version 1 version) (int32 r.throttle_ms)
      ∷ tag_end flexible
      ∷ [])

pub record FetchAbortedTransaction : Type 0 where
  pub producer_id : ℤ
  pub first_offset : ℤ

-- A nil record set is an empty one.
pub record FetchPartitionResponse : Type 0 where
  pub partition : ℤ
  pub error_code : ℤ
  pub high_watermark : ℤ
  pub last_stable_offset : ℤ
  pub log_start_offset : ℤ
  pub preferred_read_replica : ℤ
  pub record_set : Bytes
  pub aborted_transactions : List FetchAbortedTransaction

pub record FetchTopicResponse : Type 0 where
  pub name : Str
  pub topic_id : Bytes
  pub partitions : List FetchPartitionResponse

pub record FetchResponse : Type 0 where
  pub correlation_id : ℤ
  pub throttle_ms : ℤ
  pub error_code : ℤ
  pub session_id : ℤ
  pub topics : List FetchTopicResponse

unfoldable pub encode_fetch_partition : Bool → ℤ → FetchPartitionResponse → Output
encode_fetch_partition flexible version p = join (
    int32 p.partition
    ∷ int16 p.error_code
    ∷ int64 p.high_watermark
    ∷ when (from_version 4 version) (int64 p.last_stable_offset)
    ∷ when (from_version 5 version) (int64 p.log_start_offset)
    ∷ when (from_version 4 version) (
        array flexible p.aborted_transactions
          (λ a. join (int64 a.producer_id ∷ int64 a.first_offset ∷ [])))
    ∷ when (from_version 11 version) (int32 p.preferred_read_replica)
    ∷ bytes flexible (some p.record_set)
    ∷ tag_end flexible
    ∷ [])

-- The fields of a session are an error before version 7.
unfoldable pub encode_fetch : FetchResponse → ℤ → Output
encode_fetch r version =
    let flexible = from_version 12 version in
    let no_session =
      if eqb_ℤ r.error_code (pos 0) && eqb_ℤ r.session_id (pos 0)
      then ok []
      else err unsupported_api in
    supported (pos 1) (pos 13) version (
      join (
        int32 r.correlation_id
        ∷ tag_end flexible
        ∷ int32 r.throttle_ms
        ∷ either_of (from_version 7 version) (join (int16 r.error_code ∷ int32 r.session_id ∷ []))
            no_session
        ∷ array flexible r.topics (λ t. join (
            either_of flexible (ok t.topic_id) (string false t.name)
            ∷ array flexible t.partitions (encode_fetch_partition flexible version)
            ∷ tag_end flexible
            ∷ []))
        ∷ tag_end flexible
        ∷ []))

pub record ListOffsetsPartitionResponse : Type 0 where
  pub partition : ℤ
  pub error_code : ℤ
  pub timestamp : ℤ
  pub offset : ℤ
  pub leader_epoch : ℤ
  pub old_style_offsets : List ℤ

pub record ListOffsetsTopicResponse : Type 0 where
  pub name : Str
  pub partitions : List ListOffsetsPartitionResponse

pub record ListOffsetsResponse : Type 0 where
  pub correlation_id : ℤ
  pub throttle_ms : ℤ
  pub topics : List ListOffsetsTopicResponse

unfoldable pub encode_list_offsets_partition : ℤ → ListOffsetsPartitionResponse → Output
encode_list_offsets_partition version p = join (
    int32 p.partition
    ∷ int16 p.error_code
    ∷ either_of (eqb_ℤ version (pos 0)) (array false p.old_style_offsets (λ o. int64 o)) (
        join (
          int64 p.timestamp
          ∷ int64 p.offset
          ∷ when (from_version 4 version) (int32 p.leader_epoch)
          ∷ []))
    ∷ [])

unfoldable pub encode_list_offsets : ListOffsetsResponse → ℤ → Output
encode_list_offsets r version = supported (pos 0) (pos 4) version (
    join (
      int32 r.correlation_id
      ∷ when (from_version 2 version) (int32 r.throttle_ms)
      ∷ array false r.topics (λ t. join (
          string false t.name
          ∷ array false t.partitions (encode_list_offsets_partition version)
          ∷ []))
      ∷ []))
