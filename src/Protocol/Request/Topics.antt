-- ===== src/Protocol/Request/Topics.antt =====
-- The requests of pkg/protocol/request.go about topics.
use kafscale.Base.{Bool, true, false, ◌&&◌, List, [], ◌∷◌, Option, none, some}
use kafscale.Base.Int.{ℤ, pos, negsuc, leb_ℤ, ltb_ℤ, pos_part}
use kafscale.Base.Bytes.{Bytes}
use kafscale.Base.Maps.{Str}
use kafscale.Protocol.Reader.{
  Reader, ◌>>=◌, ◌>>◌, done, fail_when, either, read_when, invalid_count, read_int16, read_int32,
  read_uuid, read_bool, read_string, repeat, present,
}
use kafscale.Protocol.Request.Header.{
  from_version, string_of, nullable_of, count_of, nullable_count_of, tags, list_of,
}

-- The topics of a Metadata request are ids from version 10 on, each with a name or none.
pub record MetadataRequest : Type 0 where
  pub topics : List Str
  pub topic_ids : List Bytes
  pub allow_auto_topic_creation : Bool
  pub include_cluster_auth_ops : Bool
  pub include_topic_auth_ops : Bool

unfoldable pub read_metadata_topic : Bool → ℤ → Reader (Option Bytes × Option Str)
read_metadata_topic flexible version =
    either (from_version 10 version)
      (do id ← read_uuid; name ← nullable_of flexible; tags flexible; done (some id, name))
      (do name ← present (string_of flexible); tags flexible; done (none, name))

abbrev pub listed {ℓ} : {A : Type ℓ} → List (Option A) → List A
listed [] = []
listed (none ∷ xs) = listed xs
listed (some x ∷ xs) = x ∷ listed xs

abbrev ids_of : List (Option Bytes × Option Str) → List (Option Bytes)
ids_of [] = []
ids_of ((id, name) ∷ ts) = id ∷ ids_of ts

abbrev names_of : List (Option Bytes × Option Str) → List (Option Str)
names_of [] = []
names_of ((id, name) ∷ ts) = name ∷ names_of ts

unfoldable pub read_metadata : Bool → ℤ → Reader MetadataRequest
read_metadata flexible version = do
  n ← nullable_count_of flexible
  topics ← repeat (pos_part n) (read_metadata_topic flexible version)
  auto ← read_when (from_version 4 version) read_bool true
  cluster_ops ← read_when (from_version 8 version && leb_ℤ version (pos 10)) read_bool false
  topic_ops ← read_when (from_version 8 version) read_bool false
  tags flexible
  done (record {
    topics = listed (names_of topics);
    topic_ids = listed (ids_of topics);
    allow_auto_topic_creation = auto;
    include_cluster_auth_ops = cluster_ops;
    include_topic_auth_ops = topic_ops;
  })

pub record CreateTopicConfig : Type 0 where
  pub name : Str
  pub num_partitions : ℤ  -- int32
  pub replication_factor : ℤ  -- int16

pub record CreateTopicsRequest : Type 0 where
  pub topics : List CreateTopicConfig
  pub timeout_ms : ℤ
  pub validate_only : Bool

-- The configuration's pairs are read and dropped.
unfoldable pub read_create_topic : Reader CreateTopicConfig
read_create_topic = do
  name ← read_string
  partitions ← read_int32
  factor ← read_int16
  n ← read_int32
  configs ← repeat (pos_part n) (do key ← read_string; read_string)
  done (record { name = name; num_partitions = partitions; replication_factor = factor })

unfoldable pub read_create_topics : ℤ → Reader CreateTopicsRequest
read_create_topics version = do
  n ← read_int32
  topics ← list_of n read_create_topic
  timeout ← read_int32
  validate ← read_when (from_version 1 version) read_bool false
  done (record { topics = topics; timeout_ms = timeout; validate_only = validate })

pub record DeleteTopicsRequest : Type 0 where
  pub topic_names : List Str
  pub timeout_ms : ℤ

unfoldable pub read_delete_topics : Reader DeleteTopicsRequest
read_delete_topics = do
  n ← read_int32
  names ← list_of n read_string
  timeout ← read_int32
  done (record { topic_names = names; timeout_ms = timeout })

-- A topic's assignments are `none` where the request has null for them.
pub record CreatePartitionsTopic : Type 0 where
  pub name : Str
  pub count : ℤ
  pub assignments : Option (List (List ℤ))

pub record CreatePartitionsRequest : Type 0 where
  pub topics : List CreatePartitionsTopic
  pub timeout_ms : ℤ
  pub validate_only : Bool

unfoldable pub read_replicas : Bool → Reader (List ℤ)
read_replicas flexible = do
  n ← count_of flexible
  replicas ← list_of n read_int32
  tags flexible
  done replicas

unfoldable pub read_assignments : Bool → ℤ → Reader (Option (List (List ℤ)))
read_assignments flexible (pos n) = do lists ← repeat n (read_replicas flexible); done (some lists)
read_assignments flexible (negsuc n) = do
  fail_when (ltb_ℤ (negsuc n) (negsuc 0)) invalid_count
  done none

unfoldable pub read_create_partitions_topic : Bool → Reader CreatePartitionsTopic
read_create_partitions_topic flexible = do
  name ← string_of flexible
  count ← read_int32
  n ← nullable_count_of flexible
  assignments ← read_assignments flexible n
  tags flexible
  done (record { name = name; count = count; assignments = assignments })

unfoldable pub read_create_partitions : Bool → Reader CreatePartitionsRequest
read_create_partitions flexible = do
  n ← count_of flexible
  topics ← list_of n (read_create_partitions_topic flexible)
  timeout ← read_int32
  validate ← read_bool
  tags flexible
  done (record { topics = topics; timeout_ms = timeout; validate_only = validate })
