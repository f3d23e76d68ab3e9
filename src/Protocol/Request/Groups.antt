-- ===== src/Protocol/Request/Groups.antt =====
-- The requests of pkg/protocol/request.go that go to the group coordinator.
use kafscale.Base.{Bool, true, false, ◌&&◌, not, List, [], Option, none, some}
use kafscale.Base.Int.{ℤ, pos, leb_ℤ, eqb_ℤ, ltb_ℤ, pos_part}
use kafscale.Base.Bytes.{Bytes}
use kafscale.Base.Maps.{Str}
use kafscale.Group.Coordinator.Join.{JoinProtocol, JoinRequest}
use kafscale.Group.Coordinator.Offsets.{CommitPartition, CommitTopic, CommitRequest}
use kafscale.Protocol.Reader.{
  Reader, ◌>>=◌, ◌>>◌, done, fail_when, either, read_when, invalid_count, unsupported_api,
  read_int8, read_int32, read_int64, read_bool, read_string, read_nullable_string, read_bytes,
  repeat,
}
use kafscale.Protocol.Request.Header.{
  from_version, string_of, nullable_of, bytes_of, count_of, nullable_count_of, tags, list_of,
}

pub record FindCoordinatorRequest : Type 0 where
  pub key_type : ℤ
  pub key : Str

unfoldable pub read_find_coordinator : Bool → ℤ → Reader FindCoordinatorRequest
read_find_coordinator flexible version = do
  key ← string_of flexible
  key_type ← read_when (from_version 1 version) read_int8 (pos 0)
  tags flexible
  done (record { key_type = key_type; key = key })

unfoldable pub read_join_protocol : Reader JoinProtocol
read_join_protocol = do
  name ← read_string
  metadata ← read_bytes
  done (record { name = name; metadata = metadata })

unfoldable pub read_join_group : Reader JoinRequest
read_join_group = do
  group ← read_string
  session ← read_int32
  rebalance ← read_int32
  member ← read_string
  protocol_type ← read_string
  n ← read_int32
  protocols ← list_of n read_join_protocol
  done (record {
    group_id = group;
    member_id = member;
    protocol_type = protocol_type;
    protocols = protocols;
    session_timeout_ms = session;
    rebalance_timeout_ms = rebalance;
  })

pub record SyncGroupRequest : Type 0 where
  pub group_id : Str
  pub generation_id : ℤ
  pub member_id : Str
  pub assignments : List (Str × Option Bytes)

unfoldable pub read_sync_assignment : Bool → Reader (Str × Option Bytes)
read_sync_assignment flexible = do
  member ← string_of flexible
  assignment ← bytes_of flexible
  tags flexible
  done (member, assignment)

unfoldable pub read_sync_group : Bool → ℤ → Reader SyncGroupRequest
read_sync_group flexible version = do
  group ← string_of flexible
  generation ← read_int32
  member ← string_of flexible
  instance_id ← read_when (from_version 3 version) (nullable_of flexible) none
  protocol_type ← read_when (from_version 5 version) (nullable_of flexible) none
  protocol_name ← read_when (from_version 5 version) (nullable_of flexible) none
  n ← either flexible (count_of true) read_int32
  assignments ← list_of n (read_sync_assignment flexible)
  tags flexible
  done (record {
    group_id = group;
    generation_id = generation;
    member_id = member;
    assignments = assignments;
  })

pub record HeartbeatRequest : Type 0 where
  pub group_id : Str
  pub generation_id : ℤ
  pub member_id : Str
  pub instance_id : Option Str

unfoldable pub read_heartbeat : Bool → ℤ → Reader HeartbeatRequest
read_heartbeat flexible version = do
  group ← string_of flexible
  generation ← read_int32
  member ← string_of flexible
  instance_id ← read_when (from_version 3 version) (nullable_of flexible) none
  tags flexible
  done (record {
    group_id = group;
    generation_id = generation;
    member_id = member;
    instance_id = instance_id;
  })

pub record LeaveGroupRequest : Type 0 where
  pub group_id : Str
  pub member_id : Str

unfoldable pub read_leave_group : Reader LeaveGroupRequest
read_leave_group = do
  group ← read_string
  member ← read_string
  done (record { group_id = group; member_id = member })

abbrev text_or_empty : Option Str → Str
text_or_empty none = []
text_or_empty (some s) = s

unfoldable pub read_commit_partition : Reader CommitPartition
read_commit_partition = do
  partition ← read_int32
  offset ← read_int64
  metadata ← read_nullable_string
  done (record { partition = partition; offset = offset; metadata = text_or_empty metadata })

unfoldable pub read_commit_topic : Reader CommitTopic
read_commit_topic = do
  name ← read_string
  n ← read_int32
  partitions ← list_of n read_commit_partition
  done (record { name = name; partitions = partitions })

-- Version 3 only, which has a retention time.
unfoldable pub read_offset_commit : ℤ → Reader CommitRequest
read_offset_commit version = do
  fail_when (not (eqb_ℤ version (pos 3))) unsupported_api
  group ← read_string
  generation ← read_int32
  member ← read_string
  retention ← read_when (from_version 2 version && leb_ℤ version (pos 4)) read_int64 (pos 0)
  n ← read_int32
  topics ← list_of n read_commit_topic
  done (record {
    group_id = group;
    member_id = member;
    generation_id = generation;
    retention_ms = retention;
    topics = topics;
  })

pub record OffsetFetchTopic : Type 0 where
  pub name : Str
  pub partitions : List ℤ

pub record OffsetFetchRequest : Type 0 where
  pub group_id : Str
  pub topics : List OffsetFetchTopic

unfoldable pub read_offset_fetch_topic : Reader OffsetFetchTopic
read_offset_fetch_topic = do
  name ← read_string
  n ← read_int32
  partitions ← list_of n read_int32
  done (record { name = name; partitions = partitions })

unfoldable pub read_offset_fetch : Reader OffsetFetchRequest
read_offset_fetch = do
  group ← read_string
  n ← read_int32
  topics ← list_of n read_offset_fetch_topic
  done (record { group_id = group; topics = topics })

unfoldable pub read_delete_groups : Bool → Reader (List Str)
read_delete_groups flexible = do
  n ← count_of flexible
  groups ← list_of n (string_of flexible)
  tags flexible
  done groups

pub record DescribeGroupsRequest : Type 0 where
  pub groups : List Str
  pub include_authorized_operations : Bool

unfoldable pub read_describe_groups : Bool → ℤ → Reader DescribeGroupsRequest
read_describe_groups flexible version = do
  n ← count_of flexible
  groups ← list_of n (string_of flexible)
  authorized ← read_when (from_version 3 version) read_bool false
  tags flexible
  done (record { groups = groups; include_authorized_operations = authorized })

pub record ListGroupsRequest : Type 0 where
  pub states_filter : List Str
  pub types_filter : List Str

-- A filter that is null in a flexible version is empty.
unfoldable pub read_filter : Bool → Reader (List Str)
read_filter flexible = do
  n ← nullable_count_of flexible
  fail_when (not flexible && ltb_ℤ n (pos 0)) invalid_count
  repeat (pos_part n) (string_of flexible)

unfoldable pub read_list_groups : Bool → ℤ → Reader ListGroupsRequest
read_list_groups flexible version = do
  states ← read_when (from_version 4 version) (read_filter flexible) []
  types ← read_when (from_version 5 version) (read_filter flexible) []
  tags flexible
  done (record { states_filter = states; types_filter = types })
