-- ===== src/Protocol/Request/Configs.antt =====
-- The requests of pkg/protocol/request.go about configurations and leader epochs.
use kafscale.Base.{Bool, false, List, Option, none, some}
use kafscale.Base.Int.{ℤ, pos, negsuc}
use kafscale.Base.Maps.{Str}
use kafscale.Protocol.Reader.{
  Reader, ◌>>=◌, ◌>>◌, done, read_when, read_int8, read_int32, read_bool, repeat,
}
use kafscale.Protocol.Request.Header.{
  from_version, string_of, nullable_of, count_of, nullable_count_of, tags, list_of,
}

pub record LeaderEpochPartition : Type 0 where
  pub partition : ℤ
  pub current_leader_epoch : ℤ
  pub leader_epoch : ℤ

pub record LeaderEpochTopic : Type 0 where
  pub name : Str
  pub partitions : List LeaderEpochPartition

pub record LeaderEpochRequest : Type 0 where
  pub replica_id : ℤ
  pub topics : List LeaderEpochTopic

unfoldable pub read_leader_epoch_partition : Bool → ℤ → Reader LeaderEpochPartition
read_leader_epoch_partition flexible version = do
  partition ← read_int32
  current ← read_when (from_version 2 version) read_int32 (negsuc 0)
  epoch ← read_int32
  tags flexible
  done (record { partition = partition; current_leader_epoch = current; leader_epoch = epoch })

unfoldable pub read_leader_epoch_topic : Bool → ℤ → Reader LeaderEpochTopic
read_leader_epoch_topic flexible version = do
  name ← string_of flexible
  n ← count_of flexible
  partitions ← list_of n (read_leader_epoch_partition flexible version)
  tags flexible
  done (record { name = name; partitions = partitions })

unfoldable pub read_offset_for_leader_epoch : Bool → ℤ → Reader LeaderEpochRequest
read_offset_for_leader_epoch flexible version = do
  replica ← read_when (from_version 3 version) read_int32 (negsuc 1)
  n ← count_of flexible
  topics ← list_of n (read_leader_epoch_topic flexible version)
  tags flexible
  done (record { replica_id = replica; topics = topics })

-- `none` in place of the names asks for all of them.
pub record DescribeConfigsResource : Type 0 where
  pub resource_type : ℤ
  pub resource_name : Str
  pub config_names : Option (List Str)

pub record DescribeConfigsRequest : Type 0 where
  pub resources : List DescribeConfigsResource
  pub include_synonyms : Bool
  pub include_documentation : Bool

unfoldable pub read_config_names : Bool → ℤ → Reader (Option (List Str))
read_config_names flexible (pos n) = do names ← repeat n (string_of flexible); done (some names)
read_config_names flexible (negsuc n) = done none

unfoldable pub read_describe_resource : Bool → Reader DescribeConfigsResource
read_describe_resource flexible = do
  kind ← read_int8
  name ← string_of flexible
  n ← nullable_count_of flexible
  names ← read_config_names flexible n
  tags flexible
  done (record { resource_type = kind; resource_name = name; config_names = names })

unfoldable pub read_describe_configs : Bool → ℤ → Reader DescribeConfigsRequest
read_describe_configs flexible version = do
  n ← count_of flexible
  resources ← list_of n (read_describe_resource flexible)
  synonyms ← read_when (from_version 1 version) read_bool false
  docs ← read_when (from_version 3 version) read_bool false
  tags flexible
  done (record { resources = resources; include_synonyms = synonyms; include_documentation = docs })

pub record AlterConfigsResource : Type 0 where
  pub resource_type : ℤ
  pub resource_name : Str
  pub configs : List (Str × Option Str)

pub record AlterConfigsRequest : Type 0 where
  pub resources : List AlterConfigsResource
  pub validate_only : Bool

unfoldable pub read_alter_config : Bool → Reader (Str × Option Str)
read_alter_config flexible = do
  name ← string_of flexible
  value ← nullable_of flexible
  tags flexible
  done (name, value)

unfoldable pub read_alter_resource : Bool → Reader AlterConfigsResource
read_alter_resource flexible = do
  kind ← read_int8
  name ← string_of flexible
  n ← count_of flexible
  configs ← list_of n (read_alter_config flexible)
  tags flexible
  done (record { resource_type = kind; resource_name = name; configs = configs })

unfoldable pub read_alter_configs : Bool → Reader AlterConfigsRequest
read_alter_configs flexible = do
  n ← count_of flexible
  resources ← list_of n (read_alter_resource flexible)
  validate ← read_bool
  tags flexible
  done (record { resources = resources; validate_only = validate })
