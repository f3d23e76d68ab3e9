-- ===== src/Broker/Groups.antt =====
-- The responses of the group coordinator as Handle of cmd/broker/main.go sends them, and those that it
-- sends in their place while the metadata store is not available.
pub mod Admin
use kafscale.Base.{ℕ, List, [], ◌∷◌, Option, none, some}
use kafscale.Base.Int.{ℤ, pos, negsuc}
use kafscale.Base.Bytes.{Bytes}
use kafscale.Base.Maps.{Str}
use kafscale.Group.Types.{ErrorCode}
use kafscale.Group.Coordinator.{SyncAnswer}
use kafscale.Group.Coordinator.Join.{JoinAnswer}
use kafscale.Group.Coordinator.Offsets.{CommitRequest, CommitTopic, CommitPartition}
use kafscale.Group.Coordinator.Admin.{FetchedOffset, DescribedGroup, ListedGroup}
use kafscale.Protocol.Request.Groups.{OffsetFetchTopic, OffsetFetchRequest}
use kafscale.Protocol.Response.Groups.{
  JoinGroupMember, JoinGroupResponse, SyncGroupResponse, HeartbeatResponse, LeaveGroupResponse,
  OffsetCommitPartitionResponse, OffsetCommitTopicResponse, OffsetCommitResponse,
  OffsetFetchPartitionResponse, OffsetFetchTopicResponse, OffsetFetchResponse, DescribeGroupsMember,
  DescribeGroupsGroup, DescribeGroupsResponse, ListGroupsGroup, ListGroupsResponse,
  DeleteGroupsGroup, DeleteGroupsResponse,
}
use kafscale.Broker.Types.{wire_code, request_timed_out}

abbrev join_members : List (Str × Bytes) → List JoinGroupMember
join_members [] = []
join_members ((id, bs) ∷ ms) =
    record { member_id = id; instance_id = none; metadata = bs } ∷ join_members ms

unfoldable pub join_response : ℤ → JoinAnswer → JoinGroupResponse
join_response correlation a = record {
  correlation_id = correlation;
  throttle_ms = pos 0;
  error_code = wire_code a.code;
  generation_id = a.generation_id;
  protocol_name = a.protocol_name;
  leader_id = a.leader_id;
  member_id = a.member_id;
  members = join_members a.members;
}

unfoldable pub join_timed_out : ℤ → JoinGroupResponse
join_timed_out correlation = record {
  correlation_id = correlation;
  throttle_ms = pos 0;
  error_code = request_timed_out;
  generation_id = pos 0;
  protocol_name = [];
  leader_id = [];
  member_id = [];
  members = [];
}

-- The fields of an answer that are empty are nil.
abbrev nil_if_empty : List ℕ → Option (List ℕ)
nil_if_empty [] = none
nil_if_empty (b ∷ bs) = some (b ∷ bs)

unfoldable pub sync_response : ℤ → SyncAnswer → SyncGroupResponse
sync_response correlation a = record {
  correlation_id = correlation;
  throttle_ms = pos 0;
  error_code = wire_code a.code;
  protocol_type = nil_if_empty a.protocol_type;
  protocol_name = nil_if_empty a.protocol_name;
  assignment = nil_if_empty a.assignment;
}

unfoldable pub sync_timed_out : ℤ → SyncGroupResponse
sync_timed_out correlation = record {
  correlation_id = correlation;
  throttle_ms = pos 0;
  error_code = request_timed_out;
  protocol_type = none;
  protocol_name = none;
  assignment = none;
}

abbrev pub heartbeat_response : ℤ → ℤ → HeartbeatResponse
heartbeat_response correlation code = record {
  correlation_id = correlation;
  throttle_ms = pos 0;
  error_code = code;
}

abbrev pub leave_response : ℤ → ℤ → LeaveGroupResponse
leave_response correlation code = record { correlation_id = correlation; error_code = code }

abbrev commit_partitions_response : List (ℤ × ErrorCode) → List OffsetCommitPartitionResponse
commit_partitions_response [] = []
commit_partitions_response ((p, code) ∷ rs) =
    record { partition = p; error_code = wire_code code } ∷ commit_partitions_response rs

abbrev commit_topics_response : List (Str × List (ℤ × ErrorCode)) → List OffsetCommitTopicResponse
commit_topics_response [] = []
commit_topics_response ((name, rs) ∷ ts) =
    record { name = name; partitions = commit_partitions_response rs } ∷ commit_topics_response ts

unfoldable pub commit_response : ℤ → List (Str × List (ℤ × ErrorCode)) → OffsetCommitResponse
commit_response correlation topics = record {
  correlation_id = correlation;
  throttle_ms = pos 0;
  topics = commit_topics_response topics;
}

abbrev commit_partitions_timed_out : List CommitPartition → List OffsetCommitPartitionResponse
commit_partitions_timed_out [] = []
commit_partitions_timed_out (p ∷ ps) =
    record { partition = p.partition; error_code = request_timed_out }
    ∷ commit_partitions_timed_out ps

abbrev commit_topics_timed_out : List CommitTopic → List OffsetCommitTopicResponse
commit_topics_timed_out [] = []
commit_topics_timed_out (t ∷ ts) =
    record { name = t.name; partitions = commit_partitions_timed_out t.partitions }
    ∷ commit_topics_timed_out ts

unfoldable pub commit_timed_out : ℤ → CommitRequest → OffsetCommitResponse
commit_timed_out correlation req = record {
  correlation_id = correlation;
  throttle_ms = pos 0;
  topics = commit_topics_timed_out req.topics;
}

abbrev fetched_partitions : List FetchedOffset → List OffsetFetchPartitionResponse
fetched_partitions [] = []
fetched_partitions (f ∷ fs) =
    (record {
      partition = f.partition;
      offset = f.offset;
      leader_epoch = negsuc 0;
      metadata = some f.metadata;
      error_code = wire_code f.code;
    })
    ∷ fetched_partitions fs

abbrev fetched_topics : List (Str × List FetchedOffset) → List OffsetFetchTopicResponse
fetched_topics [] = []
fetched_topics ((name, fs) ∷ ts) =
    record { name = name; partitions = fetched_partitions fs } ∷ fetched_topics ts

abbrev pub wanted : List OffsetFetchTopic → List (Str × List ℤ)
wanted [] = []
wanted (t ∷ ts) = (t.name, t.partitions) ∷ wanted ts

abbrev pub fetch_response : ℤ → List (Str × List FetchedOffset) → OffsetFetchResponse
fetch_response correlation topics = record {
  correlation_id = correlation;
  throttle_ms = pos 0;
  topics = fetched_topics topics;
  error_code = pos 0;
}

abbrev fetch_partitions_timed_out : List ℤ → List OffsetFetchPartitionResponse
fetch_partitions_timed_out [] = []
fetch_partitions_timed_out (p ∷ ps) =
    (record {
      partition = p;
      offset = negsuc 0;
      leader_epoch = negsuc 0;
      metadata = none;
      error_code = request_timed_out;
    })
    ∷ fetch_partitions_timed_out ps

abbrev fetch_topics_timed_out : List OffsetFetchTopic → List OffsetFetchTopicResponse
fetch_topics_timed_out [] = []
fetch_topics_timed_out (t ∷ ts) =
    record { name = t.name; partitions = fetch_partitions_timed_out t.partitions }
    ∷ fetch_topics_timed_out ts

unfoldable pub fetch_timed_out : ℤ → OffsetFetchRequest → OffsetFetchResponse
fetch_timed_out correlation req = record {
  correlation_id = correlation;
  throttle_ms = pos 0;
  topics = fetch_topics_timed_out req.topics;
  error_code = request_timed_out;
}
