-- ===== src/Protocol/Response/Topics.antt =====
-- The responses of pkg/protocol/response.go on the administration of topics and configurations.
use kafscale.Base.{Bool, false, List, [], ◌∷◌, Option}
use kafscale.Base.Int.{ℤ, pos}
use kafscale.Base.Maps.{Str}
use kafscale.Protocol.Request.Header.{from_version}
use kafscale.Protocol.Output.{
  Output, join, int8, int16, int32, int64, bool, when, string, nullable, tag_end, array, supported,
}

-- CreateTopicResult and DeleteTopicResult
pub record TopicResult : Type 0 where
  pub name : Str
  pub error_code : ℤ
  pub error_message : Str

pub record CreateTopicsResponse : Type 0 where
  pub correlation_id : ℤ
  pub throttle_ms : ℤ
  pub topics : List TopicResult

unfoldable pub encode_create_topics : CreateTopicsResponse → ℤ → Output
encode_create_topics r version = supported (pos 0) (pos 2) version (
    join (
      int32 r.correlation_id
      ∷ when (from_version 2 version) (int32 r.throttle_ms)
      ∷ array false r.topics (λ t. join (
          string false t.name
          ∷ int16 t.error_code
          ∷ when (from_version 1 version) (string false t.error_message)
          ∷ []))
      ∷ []))

pub record DeleteTopicsResponse : Type 0 where
  pub correlation_id : ℤ
  pub throttle_ms : ℤ
  pub topics : List TopicResult

unfoldable pub encode_delete_topics : DeleteTopicsResponse → ℤ → Output
encode_delete_topics r version = supported (pos 0) (pos 2) version (
    join (
      int32 r.correlation_id
      ∷ when (from_version 1 version) (int32 r.throttle_ms)
      ∷ array false r.topics (λ t. join (string false t.name ∷ int16 t.error_code ∷ []))
      ∷ []))

pub record LeaderEpochPartitionResponse : Type 0 where
  pub partition : ℤ
  pub error_code : ℤ
  pub leader_epoch : ℤ
  pub end_offset : ℤ

pub record LeaderEpochTopicResponse : Type 0 where
  pub name : Str
  pub partitions : List LeaderEpochPartitionResponse

pub record LeaderEpochResponse : Type 0 where
  pub correlation_id : ℤ
  pub throttle_ms : ℤ
  pub topics : List LeaderEpochTopicResponse

unfoldable pub encode_leader_epoch_partition : LeaderEpochPartitionResponse → Output
encode_leader_epoch_partition p =
    join (int32 p.partition ∷ int16 p.error_code ∷ int32 p.leader_epoch ∷ int64 p.end_offset ∷ [])

unfoldable pub encode_offset_for_leader_epoch : LeaderEpochResponse → ℤ → Output
encode_offset_for_leader_epoch r version = supported (pos 3) (pos 3) version (
    join (
      int32 r.correlation_id
      ∷ when (from_version 2 version) (int32 r.throttle_ms)
      ∷ array false r.topics (λ t.
        join (string false t.name ∷ array false t.partitions encode_leader_epoch_partition ∷ []))
      ∷ []))

pub record ConfigSynonym : Type 0 where
  pub name : Str
  pub value : Option Str
  pub source : ℤ

pub record DescribedConfig : Type 0 where
  pub name : Str
  pub value : Option Str
  pub read_only : Bool
  pub is_default : Bool
  pub source : ℤ
  pub is_sensitive : Bool
  pub synonyms : List ConfigSynonym
  pub config_type : ℤ
  pub documentation : Option Str

pub record DescribedResource : Type 0 where
  pub error_code : ℤ
  pub error_message : Option Str
  pub resource_type : ℤ
  pub resource_name : Str
  pub configs : List DescribedConfig

pub record DescribeConfigsResponse : Type 0 where
  pub correlation_id : ℤ
  pub throttle_ms : ℤ
  pub resources : List DescribedResource

unfoldable pub encode_config : Bool → DescribedConfig → Output
encode_config flexible c = join (
    string flexible c.name
    ∷ nullable flexible c.value
    ∷ bool c.read_only
    ∷ int8 c.source
    ∷ bool c.is_sensitive
    ∷ array flexible c.synonyms (λ s.
      join (
        string flexible s.name ∷ nullable flexible s.value ∷ int8 s.source ∷ tag_end flexible ∷ []))
    ∷ int8 c.config_type
    ∷ nullable flexible c.documentation
    ∷ tag_end flexible
    ∷ [])

unfoldable pub encode_resource : Bool → DescribedResource → Output
encode_resource flexible r = join (
    int16 r.error_code
    ∷ nullable flexible r.error_message
    ∷ int8 r.resource_type
    ∷ string flexible r.resource_name
    ∷ array flexible r.configs (encode_config flexible)
    ∷ tag_end flexible
    ∷ [])

unfoldable pub encode_describe_configs : DescribeConfigsResponse → ℤ → Output
encode_describe_configs r version =
    let flexible = from_version 4 version in
    supported (pos 4) (pos 4) version (
      join (
        int32 r.correlation_id
        ∷ tag_end flexible
        ∷ int32 r.throttle_ms
        ∷ array flexible r.resources (encode_resource flexible)
        ∷ tag_end flexible
        ∷ []))

pub record AlteredResource : Type 0 where
  pub error_code : ℤ
  pub error_message : Option Str
  pub resource_type : ℤ
  pub resource_name : Str

pub record AlterConfigsResponse : Type 0 where
  pub correlation_id : ℤ
  pub throttle_ms : ℤ
  pub resources : List AlteredResource

unfoldable pub encode_alter_configs : AlterConfigsResponse → ℤ → Output
encode_alter_configs r version = supported (pos 1) (pos 1) version (
    join (
      int32 r.correlation_id
      ∷ int32 r.throttle_ms
      ∷ array false r.resources (λ x. join (
          int16 x.error_code
          ∷ nullable false x.error_message
          ∷ int8 x.resource_type
          ∷ string false x.resource_name
          ∷ []))
      ∷ []))

pub record CreatedPartitionsTopic : Type 0 where
  pub name : Str
  pub error_code : ℤ
  pub error_message : Option Str

pub record CreatePartitionsResponse : Type 0 where
  pub correlation_id : ℤ
  pub throttle_ms : ℤ
  pub topics : List CreatedPartitionsTopic

unfoldable pub encode_create_partitions : CreatePartitionsResponse → ℤ → Output
encode_create_partitions r version =
    let flexible = from_version 2 version in
    supported (pos 0) (pos 3) version (
      join (
        int32 r.correlation_id
        ∷ tag_end flexible
        ∷ int32 r.throttle_ms
        ∷ array flexible r.topics (λ t. join (
            string flexible t.name
            ∷ int16 t.error_code
            ∷ nullable flexible t.error_message
            ∷ tag_end flexible
            ∷ []))
        ∷ tag_end flexible
        ∷ []))
