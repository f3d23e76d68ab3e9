-- ===== src/Metadata/Types.antt =====
-- The data of pkg/metadata/store.go, and of the parts of pkg/protocol/response.go that it holds.
use kafscale.Base.{Bool, List, Option}
use kafscale.Base.Int.{ℤ}
use kafscale.Base.Bytes.{Bytes}
use kafscale.Base.Maps.{Str}
use kafscale.Group.Types.{ConsumerGroup}

pub record MetadataBroker : Type 0 where
  pub node_id : ℤ
  pub host : Str
  pub port : ℤ
  pub rack : Option Str

pub record MetadataPartition : Type 0 where
  pub error_code : ℤ
  pub partition_index : ℤ
  pub leader_id : ℤ
  pub leader_epoch : ℤ
  pub replica_nodes : List ℤ
  pub isr_nodes : List ℤ
  pub offline_replicas : List ℤ

pub record MetadataTopic : Type 0 where
  pub error_code : ℤ
  pub name : Str
  pub topic_id : Bytes
  pub is_internal : Bool
  pub partitions : List MetadataPartition
  pub topic_authorized_operations : ℤ

pub record ClusterMetadata : Type 0 where
  pub brokers : List MetadataBroker
  pub controller_id : ℤ
  pub topics : List MetadataTopic
  pub cluster_name : Option Str
  pub cluster_id : Option Str

pub record TopicSpec : Type 0 where
  pub name : Str
  pub num_partitions : ℤ  -- int32
  pub replication_factor : ℤ  -- int16

pub record ConsumerOffset : Type 0 where
  pub group : Str
  pub topic : Str
  pub partition : ℤ
  pub offset : ℤ

-- The protobuf message.
pub record TopicConfig : Type 0 where
  pub name : Str
  pub partitions : ℤ
  pub replication_factor : ℤ
  pub retention_ms : ℤ
  pub retention_bytes : ℤ
  pub segment_bytes : ℤ
  pub created_at : Str
  pub config : List (Str × Str)

pub record InMemoryStore : Type 0 where
  pub state : ClusterMetadata
  pub offsets : List (Str × ℤ)
  pub consumer_offsets : List (Str × ℤ)
  pub consumer_meta : List (Str × Str)
  pub consumer_groups : List (Str × ConsumerGroup)
  pub topic_configs : List (Str × TopicConfig)

pub data MetadataError : Type 0 where
  topic_exists invalid_topic unknown_topic group_id_required : MetadataError
