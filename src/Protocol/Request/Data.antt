-- ===== src/Protocol/Request/Data.antt =====
-- The requests of pkg/protocol/request.go about records: Produce, Fetch and ListOffsets.
use kafscale.Base.{Bool, List, [], Option, none, some, not}
use kafscale.Base.Int.{ℤ, pos, negsuc, eqb_ℤ, pos_part}
use kafscale.Base.Bytes.{Bytes}
use kafscale.Base.Maps.{Str}
use kafscale.Protocol.Reader.{
  Reader, ◌>>=◌, ◌>>◌, done, either, read_when, read_int8, read_int16, read_int32, read_int64,
  read_uuid, read_string, repeat,
}
use kafscale.Protocol.Request.Header.{
  from_version, string_of, nullable_of, bytes_of, count_of, nullable_count_of, tags, list_of,
}

pub record ProducePartition : Type 0 where
  pub partition : ℤ  -- int32
  pub records : Option Bytes

pub record ProduceTopic : Type 0 where
  pub name : Str
  pub partitions : List ProducePartition

pub record ProduceRequest : Type 0 where
  pub acks : ℤ  -- int16
  pub timeout_ms : ℤ  -- int32
  pub transactional_id : Option Str
  pub topics : List ProduceTopic

unfoldable pub read_produce_partition : Bool → Reader ProducePartition
read_produce_partition flexible = do
  partition ← read_int32
  records ← bytes_of flexible
  done (record { partition = partition; records = records })

-- The tags of the partitions and those of the topic are each skipped once, behind the partitions.
unfoldable pub read_produce_topic : Bool → Reader ProduceTopic
read_produce_topic flexible = do
  name ← string_of flexible
  n ← count_of flexible
  partitions ← list_of n (read_produce_partition flexible)
  tags flexible
  tags flexible
  done (record { name = name; partitions = partitions })

unfoldable pub read_produce : Bool → ℤ → Reader ProduceRequest
read_produce flexible version = do
  transactional ← read_when (from_version 3 version) (nullable_of flexible) none
  acks ← read_int16
  timeout ← read_int32
  n ← count_of flexible
  topics ← list_of n (read_produce_topic flexible)
  tags flexible
  done (record {
    acks = acks;
    timeout_ms = timeout;
    transactional_id = transactional;
    topics = topics;
  })

pub record FetchPartition : Type 0 where
  pub partition : ℤ  -- int32
  pub fetch_offset : ℤ  -- int64
  pub max_bytes : ℤ  -- int32

-- `none` is the zero id of a topic that is asked for by its name.
pub record FetchTopic : Type 0 where
  pub name : Str
  pub topic_id : Option Bytes
  pub partitions : List FetchPartition

pub record FetchRequest : Type 0 where
  pub replica_id : ℤ
  pub max_wait_ms : ℤ
  pub min_bytes : ℤ
  pub max_bytes : ℤ
  pub isolation_level : ℤ
  pub session_id : ℤ
  pub session_epoch : ℤ
  pub topics : List FetchTopic

unfoldable pub read_fetch_partition : Bool → ℤ → Reader FetchPartition
read_fetch_partition flexible version = do
  partition ← read_int32
  leader_epoch ← read_when (from_version 9 version) read_int32 (pos 0)
  offset ← read_int64
  fetched_epoch ← read_when (from_version 12 version) read_int32 (pos 0)
  start_offset ← read_when (from_version 5 version) read_int64 (pos 0)
  max_bytes ← read_int32
  tags flexible
  done (record { partition = partition; fetch_offset = offset; max_bytes = max_bytes })

abbrev some_uuid : Reader (Option Bytes)
some_uuid = do id ← read_uuid; done (some id)

unfoldable pub read_fetch_topic : Bool → ℤ → Reader FetchTopic
read_fetch_topic flexible version = do
  id ← read_when (from_version 12 version) some_uuid none
  name ← read_when (not (from_version 12 version)) (string_of flexible) []
  n ← count_of flexible
  partitions ← list_of n (read_fetch_partition flexible version)
  tags flexible
  done (record { name = name; topic_id = id; partitions = partitions })

abbrev some_name : Reader (Option Bytes)
some_name = do name ← read_string; done (some name)

unfoldable pub skip_forgotten_topic : Bool → ℤ → Reader (Unit {0})
skip_forgotten_topic flexible version = do
  topic ← either (from_version 12 version) some_uuid some_name
  n ← nullable_count_of flexible
  partitions ← repeat (pos_part n) read_int32
  tags flexible

unfoldable pub skip_forgotten : Bool → ℤ → Reader (List (Unit {0}))
skip_forgotten flexible version = do
  n ← nullable_count_of flexible
  repeat (pos_part n) (skip_forgotten_topic flexible version)

unfoldable pub read_fetch : Bool → ℤ → Reader FetchRequest
read_fetch flexible version = do
  replica ← read_int32
  max_wait ← read_int32
  min_bytes ← read_int32
  max_bytes ← read_when (from_version 3 version) read_int32 (pos 0)
  isolation ← read_when (from_version 4 version) read_int8 (pos 0)
  session ← read_when (from_version 7 version) read_int32 (pos 0)
  epoch ← read_when (from_version 7 version) read_int32 (pos 0)
  n ← count_of flexible
  topics ← list_of n (read_fetch_topic flexible version)
  forgotten ← read_when (from_version 7 version) (skip_forgotten flexible version) []
  rack ← read_when (from_version 11 version) (nullable_of flexible) none
  tags flexible
  done (record {
    replica_id = replica;
    max_wait_ms = max_wait;
    min_bytes = min_bytes;
    max_bytes = max_bytes;
    isolation_level = isolation;
    session_id = session;
    session_epoch = epoch;
    topics = topics;
  })

pub record ListOffsetsPartition : Type 0 where
  pub partition : ℤ
  pub timestamp : ℤ
  pub max_num_offsets : ℤ
  pub current_leader_epoch : ℤ

pub record ListOffsetsTopic : Type 0 where
  pub name : Str
  pub partitions : List ListOffsetsPartition

pub record ListOffsetsRequest : Type 0 where
  pub replica_id : ℤ
  pub isolation_level : ℤ
  pub topics : List ListOffsetsTopic

unfoldable pub read_list_offsets_partition : ℤ → Reader ListOffsetsPartition
read_list_offsets_partition version = do
  partition ← read_int32
  epoch ← read_when (from_version 4 version) read_int32 (negsuc 0)
  timestamp ← read_int64
  max_offsets ← read_when (eqb_ℤ version (pos 0)) read_int32 (pos 1)
  done (record {
    partition = partition;
    timestamp = timestamp;
    max_num_offsets = max_offsets;
    current_leader_epoch = epoch;
  })

unfoldable pub read_list_offsets_topic : ℤ → Reader ListOffsetsTopic
read_list_offsets_topic version = do
  name ← read_string
  n ← read_int32
  partitions ← list_of n (read_list_offsets_partition version)
  done (record { name = name; partitions = partitions })

unfoldable pub read_list_offsets : ℤ → Reader ListOffsetsRequest
read_list_offsets version = do
  replica ← read_int32
  isolation ← read_when (from_version 2 version) read_int8 (pos 0)
  n ← read_int32
  topics ← list_of n (read_list_offsets_topic version)
  done (record { replica_id = replica; isolation_level = isolation; topics = topics })
