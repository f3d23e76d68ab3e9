-- ===== src/Protocol/Response/Groups.antt =====
-- The responses of pkg/protocol/response.go of the group coordinator.
use kafscale.Base.{Bool, false, List, [], ◌∷◌, Option, some}
use kafscale.Base.Int.{ℤ, pos, negsuc}
use kafscale.Base.Bytes.{Bytes}
use kafscale.Base.Maps.{Str}
use kafscale.Protocol.Request.Header.{from_version}
use kafscale.Protocol.Output.{
  Output, join, int16, int32, int64, when, string, nullable, bytes, tag_end, array, supported,
}

pub record FindCoordinatorResponse : Type 0 where
  pub correlation_id : ℤ
  pub throttle_ms : ℤ
  pub error_code : ℤ
  pub error_message : Option Str
  pub node_id : ℤ
  pub host : Str
  pub port : ℤ

-- The smallest int16, where only the upper bound is tested.
abbrev lowest : ℤ
lowest = negsuc 32767

unfoldable pub encode_find_coordinator : FindCoordinatorResponse → ℤ → Output
encode_find_coordinator r version =
    let flexible = from_version 3 version in
    supported lowest (pos 3) version (
      join (
        int32 r.correlation_id
        ∷ tag_end flexible
        ∷ when (from_version 1 version) (int32 r.throttle_ms)
        ∷ int16 r.error_code
        ∷ when (from_version 1 version) (nullable flexible r.error_message)
        ∷ int32 r.node_id
        ∷ string flexible r.host
        ∷ int32 r.port
        ∷ tag_end flexible
        ∷ []))

pub record JoinGroupMember : Type 0 where
  pub member_id : Str
  pub instance_id : Option Str
  pub metadata : Bytes

pub record JoinGroupResponse : Type 0 where
  pub correlation_id : ℤ
  pub throttle_ms : ℤ
  pub error_code : ℤ
  pub generation_id : ℤ
  pub protocol_name : Str
  pub leader_id : Str
  pub member_id : Str
  pub members : List JoinGroupMember

unfoldable pub encode_join_group : JoinGroupResponse → ℤ → Output
encode_join_group r version = supported lowest (pos 5) version (
    join (
      int32 r.correlation_id
      ∷ when (from_version 2 version) (int32 r.throttle_ms)
      ∷ int16 r.error_code
      ∷ int32 r.generation_id
      ∷ string false r.protocol_name
      ∷ string false r.leader_id
      ∷ string false r.member_id
      ∷ array false r.members (λ m. join (
          string false m.member_id
          ∷ when (from_version 5 version) (nullable false m.instance_id)
          ∷ bytes false (some m.metadata)
          ∷ []))
      ∷ []))

pub record SyncGroupResponse : Type 0 where
  pub correlation_id : ℤ
  pub throttle_ms : ℤ
  pub error_code : ℤ
  pub protocol_type : Option Str
  pub protocol_name : Option Str
  pub assignment : Option Bytes  -- nil is none

unfoldable pub encode_sync_group : SyncGroupResponse → ℤ → Output
encode_sync_group r version =
    let flexible = from_version 4 version in
    supported lowest (pos 5) version (
      join (
        int32 r.correlation_id
        ∷ tag_end flexible
        ∷ when (from_version 1 version) (int32 r.throttle_ms)
        ∷ int16 r.error_code
        ∷ when (from_version 5 version)
            (join (nullable flexible r.protocol_type ∷ nullable flexible r.protocol_name ∷ []))
        ∷ bytes flexible r.assignment
        ∷ tag_end flexible
        ∷ []))

pub record HeartbeatResponse : Type 0 where
  pub correlation_id : ℤ
  pub throttle_ms : ℤ
  pub error_code : ℤ

unfoldable pub encode_heartbeat : HeartbeatResponse → ℤ → Output
encode_heartbeat r version =
    let flexible = from_version 4 version in
    supported lowest (pos 4) version (
      join (
        int32 r.correlation_id
        ∷ tag_end flexible
        ∷ when (from_version 1 version) (int32 r.throttle_ms)
        ∷ int16 r.error_code
        ∷ tag_end flexible
        ∷ []))

pub record LeaveGroupResponse : Type 0 where
  pub correlation_id : ℤ
  pub error_code : ℤ

unfoldable pub encode_leave_group : LeaveGroupResponse → Output
encode_leave_group r = join (int32 r.correlation_id ∷ int16 r.error_code ∷ [])

pub record OffsetCommitPartitionResponse : Type 0 where
  pub partition : ℤ
  pub error_code : ℤ

pub record OffsetCommitTopicResponse : Type 0 where
  pub name : Str
  pub partitions : List OffsetCommitPartitionResponse

pub record OffsetCommitResponse : Type 0 where
  pub correlation_id : ℤ
  pub throttle_ms : ℤ
  pub topics : List OffsetCommitTopicResponse

unfoldable pub encode_offset_commit : OffsetCommitResponse → Output
encode_offset_commit r = join (
    int32 r.correlation_id
    ∷ int32 r.throttle_ms
    ∷ array false r.topics (λ t. join (
        string false t.name
        ∷ array false t.partitions (λ p. join (int32 p.partition ∷ int16 p.error_code ∷ []))
        ∷ []))
    ∷ [])

pub record OffsetFetchPartitionResponse : Type 0 where
  pub partition : ℤ
  pub offset : ℤ
  pub leader_epoch : ℤ
  pub metadata : Option Str
  pub error_code : ℤ

pub record OffsetFetchTopicResponse : Type 0 where
  pub name : Str
  pub partitions : List OffsetFetchPartitionResponse

pub record OffsetFetchResponse : Type 0 where
  pub correlation_id : ℤ
  pub throttle_ms : ℤ
  pub topics : List OffsetFetchTopicResponse
  pub error_code : ℤ

unfoldable pub encode_offset_fetch_partition : ℤ → OffsetFetchPartitionResponse → Output
encode_offset_fetch_partition version p = join (
    int32 p.partition
    ∷ int64 p.offset
    ∷ when (from_version 5 version) (int32 p.leader_epoch)
    ∷ nullable false p.metadata
    ∷ int16 p.error_code
    ∷ [])

unfoldable pub encode_offset_fetch : OffsetFetchResponse → ℤ → Output
encode_offset_fetch r version = supported (pos 3) (pos 5) version (
    join (
      int32 r.correlation_id
      ∷ when (from_version 3 version) (int32 r.throttle_ms)
      ∷ array false r.topics (λ t. join (
          string false t.name
          ∷ array false t.partitions (encode_offset_fetch_partition version)
          ∷ []))
      ∷ when (from_version 2 version) (int16 r.error_code)
      ∷ []))

pub record DescribeGroupsMember : Type 0 where
  pub member_id : Str
  pub instance_id : Option Str
  pub client_id : Str
  pub client_host : Str
  pub protocol_metadata : Option Bytes
  pub member_assignment : Option Bytes

pub record DescribeGroupsGroup : Type 0 where
  pub error_code : ℤ
  pub group_id : Str
  pub state : Str
  pub protocol_type : Str
  pub protocol : Str
  pub members : List DescribeGroupsMember
  pub authorized_operations : ℤ

pub record DescribeGroupsResponse : Type 0 where
  pub correlation_id : ℤ
  pub throttle_ms : ℤ
  pub groups : List DescribeGroupsGroup

unfoldable pub encode_describe_groups_member : Bool → DescribeGroupsMember → Output
encode_describe_groups_member flexible m = join (
    string flexible m.member_id
    ∷ nullable flexible m.instance_id
    ∷ string flexible m.client_id
    ∷ string flexible m.client_host
    ∷ bytes flexible m.protocol_metadata
    ∷ bytes flexible m.member_assignment
    ∷ tag_end flexible
    ∷ [])

unfoldable pub encode_describe_groups_group : Bool → ℤ → DescribeGroupsGroup → Output
encode_describe_groups_group flexible version g = join (
    int16 g.error_code
    ∷ string flexible g.group_id
    ∷ string flexible g.state
    ∷ string flexible g.protocol_type
    ∷ string flexible g.protocol
    ∷ array flexible g.members (encode_describe_groups_member flexible)
    ∷ when (from_version 3 version) (int32 g.authorized_operations)
    ∷ tag_end flexible
    ∷ [])

unfoldable pub encode_describe_groups : DescribeGroupsResponse → ℤ → Output
encode_describe_groups r version =
    let flexible = from_version 5 version in
    supported (pos 5) (pos 5) version (
      join (
        int32 r.correlation_id
        ∷ tag_end flexible
        ∷ when (from_version 1 version) (int32 r.throttle_ms)
        ∷ array flexible r.groups (encode_describe_groups_group flexible version)
        ∷ tag_end flexible
        ∷ []))

pub record ListGroupsGroup : Type 0 where
  pub group_id : Str
  pub protocol_type : Str
  pub group_state : Str
  pub group_type : Str

pub record ListGroupsResponse : Type 0 where
  pub correlation_id : ℤ
  pub throttle_ms : ℤ
  pub error_code : ℤ
  pub groups : List ListGroupsGroup

-- Only version 5 is written, which is flexible and has all four fields.
unfoldable pub encode_list_groups : ListGroupsResponse → ℤ → Output
encode_list_groups r version =
    let flexible = from_version 3 version in
    supported (pos 5) (pos 5) version (
      join (
        int32 r.correlation_id
        ∷ tag_end flexible
        ∷ when (from_version 1 version) (int32 r.throttle_ms)
        ∷ int16 r.error_code
        ∷ array flexible r.groups (λ g. join (
            string flexible g.group_id
            ∷ string flexible g.protocol_type
            ∷ when (from_version 4 version) (string flexible g.group_state)
            ∷ when (from_version 5 version) (string flexible g.group_type)
            ∷ tag_end flexible
            ∷ []))
        ∷ tag_end flexible
        ∷ []))

pub record DeleteGroupsGroup : Type 0 where
  pub group : Str
  pub error_code : ℤ

pub record DeleteGroupsResponse : Type 0 where
  pub correlation_id : ℤ
  pub throttle_ms : ℤ
  pub groups : List DeleteGroupsGroup

unfoldable pub encode_delete_groups : DeleteGroupsResponse → ℤ → Output
encode_delete_groups r version =
    let flexible = from_version 2 version in
    supported (pos 0) (pos 2) version (
      join (
        int32 r.correlation_id
        ∷ tag_end flexible
        ∷ int32 r.throttle_ms
        ∷ array flexible r.groups
            (λ g. join (string flexible g.group ∷ int16 g.error_code ∷ tag_end flexible ∷ []))
        ∷ tag_end flexible
        ∷ []))
