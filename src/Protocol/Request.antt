-- ===== src/Protocol/Request.antt =====
-- ParseRequest of pkg/protocol/request.go.
pub mod Header
pub mod Data
pub mod Topics
pub mod Groups
pub mod Configs
pub mod Panics
use kafscale.Base.{ℕ, Bool, List, [], Option, none, some, Result, ok, err}
use kafscale.Base.Int.{ℤ}
use kafscale.Base.Bytes.{Bytes}
use kafscale.Base.Maps.{Str}
use kafscale.Group.Coordinator.Join.{JoinRequest}
use kafscale.Group.Coordinator.Offsets.{CommitRequest}
use kafscale.Protocol.Reader.{Error, Reader, ◌>>=◌, ◌>>◌, done, fail, read_when, unsupported_api}
use kafscale.Protocol.Request.Header.{
  Api, produce, fetch, list_offsets, metadata, offset_commit, offset_fetch, find_coordinator,
  join_group, heartbeat, leave_group, sync_group, describe_groups, list_groups, api_versions,
  create_topics, delete_topics, offset_for_leader_epoch, describe_configs, alter_configs,
  create_partitions, delete_groups, api_of, from_version, is_flexible, string_of, tags,
  RequestHeader, parse_request_header,
}
use kafscale.Protocol.Request.Data.{
  ProduceRequest, read_produce, FetchRequest, read_fetch, ListOffsetsRequest, read_list_offsets,
}
use kafscale.Protocol.Request.Topics.{
  MetadataRequest, read_metadata, CreateTopicsRequest, read_create_topics, DeleteTopicsRequest,
  read_delete_topics, CreatePartitionsRequest, read_create_partitions,
}
use kafscale.Protocol.Request.Groups.{
  FindCoordinatorRequest, read_find_coordinator, read_join_group, SyncGroupRequest, read_sync_group,
  HeartbeatRequest, read_heartbeat, LeaveGroupRequest, read_leave_group, read_offset_commit,
  OffsetFetchRequest, read_offset_fetch, read_delete_groups, DescribeGroupsRequest,
  read_describe_groups, ListGroupsRequest, read_list_groups,
}
use kafscale.Protocol.Request.Configs.{
  LeaderEpochRequest, read_offset_for_leader_epoch, DescribeConfigsRequest, read_describe_configs,
  AlterConfigsRequest, read_alter_configs,
}

pub record ApiVersionsRequest : Type 0 where
  pub client_software_name : Str
  pub client_software_version : Str

pub data Request : Type 0 where
  api_versions_request : ApiVersionsRequest → Request
  produce_request : ProduceRequest → Request
  fetch_request : FetchRequest → Request
  metadata_request : MetadataRequest → Request
  create_topics_request : CreateTopicsRequest → Request
  delete_topics_request : DeleteTopicsRequest → Request
  list_offsets_request : ListOffsetsRequest → Request
  find_coordinator_request : FindCoordinatorRequest → Request
  join_group_request : JoinRequest → Request
  sync_group_request : SyncGroupRequest → Request
  heartbeat_request : HeartbeatRequest → Request
  leave_group_request : LeaveGroupRequest → Request
  offset_commit_request : CommitRequest → Request
  offset_fetch_request : OffsetFetchRequest → Request
  leader_epoch_request : LeaderEpochRequest → Request
  describe_configs_request : DescribeConfigsRequest → Request
  alter_configs_request : AlterConfigsRequest → Request
  create_partitions_request : CreatePartitionsRequest → Request
  delete_groups_request : List Str → Request
  describe_groups_request : DescribeGroupsRequest → Request
  list_groups_request : ListGroupsRequest → Request

unfoldable pub read_api_versions : Bool → ℤ → Reader ApiVersionsRequest
read_api_versions flexible version = do
  name ← read_when (from_version 3 version) (string_of flexible) []
  software ← read_when (from_version 3 version) (string_of flexible) []
  read_when (from_version 3 version) (tags flexible) tt
  done (record { client_software_name = name; client_software_version = software })

abbrev as_request : {A : Type 0} → (A → Request) → Reader A → Reader Request
as_request make r = do x ← r; done (make x)

unfoldable pub read_body : Api → Bool → ℤ → Reader Request
read_body api_versions f v = as_request api_versions_request (read_api_versions f v)
read_body produce f v = as_request produce_request (read_produce f v)
read_body metadata f v = as_request metadata_request (read_metadata f v)
read_body create_topics f v = as_request create_topics_request (read_create_topics v)
read_body delete_topics f v = as_request delete_topics_request read_delete_topics
read_body list_offsets f v = as_request list_offsets_request (read_list_offsets v)
read_body fetch f v = as_request fetch_request (read_fetch f v)
read_body find_coordinator f v = as_request find_coordinator_request (read_find_coordinator f v)
read_body join_group f v = as_request join_group_request read_join_group
read_body sync_group f v = as_request sync_group_request (read_sync_group f v)
read_body heartbeat f v = as_request heartbeat_request (read_heartbeat f v)
read_body leave_group f v = as_request leave_group_request read_leave_group
read_body offset_commit f v = as_request offset_commit_request (read_offset_commit v)
read_body offset_fetch f v = as_request offset_fetch_request read_offset_fetch
read_body offset_for_leader_epoch f v =
    as_request leader_epoch_request (read_offset_for_leader_epoch f v)
read_body describe_configs f v = as_request describe_configs_request (read_describe_configs f v)
read_body alter_configs f v = as_request alter_configs_request (read_alter_configs f)
read_body create_partitions f v = as_request create_partitions_request (read_create_partitions f)
read_body delete_groups f v = as_request delete_groups_request (read_delete_groups f)
read_body describe_groups f v = as_request describe_groups_request (read_describe_groups f v)
read_body list_groups f v = as_request list_groups_request (read_list_groups f v)

abbrev pub read_known : Option Api → ℤ → Reader Request
read_known none v = fail unsupported_api
read_known (some a) v = read_body a (is_flexible a v) v

-- What is left of the bytes is not looked at.
unfoldable pub parse_request : Reader (RequestHeader × Request)
parse_request = do
  header ← parse_request_header
  body ← read_known (api_of header.api_key) header.api_version
  done (header, body)
