-- ===== src/Broker/Groups/Admin.antt =====
-- The answers to DescribeGroups, ListGroups and DeleteGroups in Handle (cmd/broker/main.go).
use kafscale.Base.{List, [], ◌∷◌, none}
use kafscale.Base.Int.{ℤ, pos}
use kafscale.Base.Maps.{Str}
use kafscale.Group.Types.{ErrorCode}
use kafscale.Group.Coordinator.Admin.{DescribedGroup, ListedGroup}
use kafscale.Protocol.Response.Groups.{
  DescribeGroupsMember, DescribeGroupsGroup, DescribeGroupsResponse, ListGroupsGroup,
  ListGroupsResponse, DeleteGroupsGroup, DeleteGroupsResponse,
}
use kafscale.Broker.Types.{wire_code, request_timed_out}

abbrev described_members : List Str → List DescribeGroupsMember
described_members [] = []
described_members (id ∷ ids) =
    (record {
      member_id = id;
      instance_id = none;
      client_id = [];
      client_host = [];
      protocol_metadata = none;
      member_assignment = none;
    })
    ∷ described_members ids

abbrev described_groups : List DescribedGroup → List DescribeGroupsGroup
described_groups [] = []
described_groups (g ∷ gs) =
    (record {
      error_code = wire_code g.code;
      group_id = g.group_id;
      state = g.state;
      protocol_type = g.protocol_type;
      protocol = g.protocol;
      members = described_members g.members;
      authorized_operations = g.authorized_operations;
    })
    ∷ described_groups gs

abbrev groups_timed_out : List Str → List DescribeGroupsGroup
groups_timed_out [] = []
groups_timed_out (id ∷ ids) =
    (record {
      error_code = request_timed_out;
      group_id = id;
      state = [];
      protocol_type = [];
      protocol = [];
      members = [];
      authorized_operations = pos 0;
    })
    ∷ groups_timed_out ids

abbrev describe_of : ℤ → List DescribeGroupsGroup → DescribeGroupsResponse
describe_of correlation groups = record {
  correlation_id = correlation;
  throttle_ms = pos 0;
  groups = groups;
}

unfoldable pub describe_response : ℤ → List DescribedGroup → DescribeGroupsResponse
describe_response correlation groups = describe_of correlation (described_groups groups)

unfoldable pub describe_timed_out : ℤ → List Str → DescribeGroupsResponse
describe_timed_out correlation ids = describe_of correlation (groups_timed_out ids)

abbrev listed_groups : List ListedGroup → List ListGroupsGroup
listed_groups [] = []
listed_groups (g ∷ gs) =
    (record {
      group_id = g.group_id;
      protocol_type = g.protocol_type;
      group_state = g.group_state;
      group_type = g.group_type;
    })
    ∷ listed_groups gs

unfoldable pub list_response : ℤ → ErrorCode × List ListedGroup → ListGroupsResponse
list_response correlation (code, groups) = record {
  correlation_id = correlation;
  throttle_ms = pos 0;
  error_code = wire_code code;
  groups = listed_groups groups;
}

unfoldable pub list_timed_out : ℤ → ListGroupsResponse
list_timed_out correlation = record {
  correlation_id = correlation;
  throttle_ms = pos 0;
  error_code = request_timed_out;
  groups = [];
}

abbrev deleted_groups : List (Str × ErrorCode) → List DeleteGroupsGroup
deleted_groups [] = []
deleted_groups ((id, code) ∷ rs) =
    record { group = id; error_code = wire_code code } ∷ deleted_groups rs

abbrev deletes_timed_out : List Str → List DeleteGroupsGroup
deletes_timed_out [] = []
deletes_timed_out (id ∷ ids) =
    record { group = id; error_code = request_timed_out } ∷ deletes_timed_out ids

abbrev delete_of : ℤ → List DeleteGroupsGroup → DeleteGroupsResponse
delete_of correlation groups = record {
  correlation_id = correlation;
  throttle_ms = pos 0;
  groups = groups;
}

unfoldable pub delete_response : ℤ → List (Str × ErrorCode) → DeleteGroupsResponse
delete_response correlation results = delete_of correlation (deleted_groups results)

unfoldable pub delete_timed_out : ℤ → List Str → DeleteGroupsResponse
delete_timed_out correlation ids = delete_of correlation (deletes_timed_out ids)
