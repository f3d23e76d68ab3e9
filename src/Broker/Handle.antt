-- ===== src/Broker/Handle.antt =====
-- Handle of cmd/broker/main.go: a request to its handler, and the response to its encoder.
use kafscale.Base.{ℕ, List, Option, none, some, Result, ok, err, if◌then◌else◌}
use kafscale.Base.Int.{ℤ, pos, ltb_ℤ}
use kafscale.Base.Bytes.{Bytes}
use kafscale.Group.Coordinator.{Coordinator, heartbeat, leave_group, sync_group}
use kafscale.Group.Coordinator.Join.{join_group}
use kafscale.Group.Coordinator.Offsets.{offset_commit}
use kafscale.Group.Coordinator.Admin.{offset_fetch, describe_groups, list_groups, delete_groups}
use kafscale.Protocol.Request.Header.{RequestHeader}
use kafscale.Protocol.Request.{
  Request, api_versions_request, produce_request, fetch_request, metadata_request,
  create_topics_request, delete_topics_request, list_offsets_request, find_coordinator_request,
  join_group_request, sync_group_request, heartbeat_request, leave_group_request,
  offset_commit_request, offset_fetch_request, leader_epoch_request, describe_configs_request,
  alter_configs_request, create_partitions_request, delete_groups_request, describe_groups_request,
  list_groups_request,
}
use kafscale.Protocol.Response.Correlation.{Response, encode}
use kafscale.Broker.Types.{
  Broker, Handler, HandlerError, group_failed, encoding_failed, wire_code, request_timed_out,
}
use kafscale.Broker.Produce.{handle_produce}
use kafscale.Broker.Wait.{Wake}
use kafscale.Broker.Fetch.{handle_fetch}
use kafscale.Broker.Topics.{handle_create_topics, handle_delete_topics}
use kafscale.Broker.Partitions.{handle_create_partitions}
use kafscale.Broker.Configs.{handle_describe_configs, handle_alter_configs}
use kafscale.Broker.Offsets.{handle_list_offsets, handle_offset_for_leader_epoch}
use kafscale.Broker.Cluster.{
  api_versions_response, coordinator_broker, find_coordinator_response, handle_metadata,
}
use kafscale.Broker.Groups.{
  join_response, join_timed_out, sync_response, sync_timed_out, heartbeat_response, leave_response,
  commit_response, commit_timed_out, fetch_response, fetch_timed_out, wanted,
}
use kafscale.Broker.Groups.Admin.{
  describe_response, describe_timed_out, list_response, list_timed_out, delete_response,
  delete_timed_out,
}

-- A response, none at all, or an error in its place.
abbrev pub Answer : Type 0
Answer = Result HandlerError (Option Response)

abbrev pub answer_with : {A : Type 0} → (A → Response) → Result HandlerError A → Answer
answer_with make (err e) = err e
answer_with make (ok r) = ok (some (make r))

abbrev pub answer_some : {A : Type 0} → (A → Response) → Option A → Answer
answer_some make none = ok none
answer_some make (some r) = ok (some (make r))

-- The coordinator's `none` is an error of the store.
abbrev pub answer_group : {A : Type 0} → (A → Response) → Option A → Answer
answer_group make none = err group_failed
answer_group make (some r) = ok (some (make r))

-- ApiVersions answers in version 0 when it is asked in one that it does not know.
unfoldable pub response_version : ℤ → Request → ℤ
response_version version (api_versions_request r) = if ltb_ℤ (pos 4) version then pos 0 else version
response_version version _ = version

unfoldable pub encode_answer : ℤ → Answer → Result HandlerError (Option Bytes)
encode_answer version (err e) = err e
encode_answer version (ok none) = ok none
encode_answer version (ok (some r)) = elim (encode r version) [
  | err e ↦ err encoding_failed
  | ok bs ↦ ok (some bs)
]

abbrev pub encoded :
    {H : Type 0} → ℤ → Option (H × Answer) → Option (H × Result HandlerError (Option Bytes))
encoded version none = none
encoded version (some (h, answer)) = some (h, encode_answer version answer)

module _ {M S : Type 0} (b : Broker M S) where
  abbrev coordinator_of : Handler M S → Coordinator M
  coordinator_of h = record { groups = h.groups; store = h.store }

  abbrev with_coordinator : Coordinator M → Handler M S → Handler M S
  with_coordinator c h = record h { groups = c.groups; store = c.store }

  -- The cases of the requests to the coordinator while the store is available. `random` is the number
  -- in the id of a new member.
  unfoldable pub handle_group : ℕ → ℤ → ℤ → Request → Coordinator M → Coordinator M × Answer
  handle_group now random cid (join_group_request r) c =
      let (c', a) = join_group b.api.groups now random r c in
      (c', answer_group (λ x. Response.join_group (join_response cid x)) a)
  handle_group now random cid (sync_group_request r) c =
      let (c', a) = sync_group b.api.groups now r.group_id r.member_id r.generation_id c in
      (c', answer_group (λ x. Response.sync_group (sync_response cid x)) a)
  handle_group now random cid (heartbeat_request r) c =
      let (c', code) = heartbeat b.api.groups now r.group_id r.member_id r.generation_id c in
      (c', ok (some (Response.heartbeat (heartbeat_response cid (wire_code code)))))
  handle_group now random cid (leave_group_request r) c =
      let (c', code) = leave_group b.api.groups now r.group_id r.member_id c in
      (c', ok (some (Response.leave_group (leave_response cid (wire_code code)))))
  handle_group now random cid (offset_commit_request r) c =
      let (c', a) = offset_commit b.api.groups now r c in
      (c', answer_group (λ x. Response.offset_commit (commit_response cid x)) a)
  handle_group now random cid (offset_fetch_request r) c =
      let topics = offset_fetch b.api.groups r.group_id (wanted r.topics) c.store in
      (c, ok (some (Response.offset_fetch (fetch_response cid topics))))
  handle_group now random cid (describe_groups_request r) c =
      let groups = describe_groups b.api.groups r.include_authorized_operations r.groups c.store in
      (c, ok (some (Response.describe_groups (describe_response cid groups))))
  handle_group now random cid (list_groups_request r) c =
      let listed = list_groups b.api.groups r.states_filter r.types_filter c.store in
      (c, ok (some (Response.list_groups (list_response cid listed))))
  handle_group now random cid (delete_groups_request ids) c =
      let (c', results) = delete_groups b.api.groups ids c in
      (c', ok (some (Response.delete_groups (delete_response cid results))))
  handle_group now random cid _ c = (c, ok none)

  -- The answers to the same requests while it is not.
  unfoldable pub group_unavailable : ℤ → Request → Answer
  group_unavailable cid (join_group_request r) =
      ok (some (Response.join_group (join_timed_out cid)))
  group_unavailable cid (sync_group_request r) =
      ok (some (Response.sync_group (sync_timed_out cid)))
  group_unavailable cid (heartbeat_request r) =
      ok (some (Response.heartbeat (heartbeat_response cid request_timed_out)))
  group_unavailable cid (leave_group_request r) =
      ok (some (Response.leave_group (leave_response cid request_timed_out)))
  group_unavailable cid (offset_commit_request r) =
      ok (some (Response.offset_commit (commit_timed_out cid r)))
  group_unavailable cid (offset_fetch_request r) =
      ok (some (Response.offset_fetch (fetch_timed_out cid r)))
  group_unavailable cid (describe_groups_request r) =
      ok (some (Response.describe_groups (describe_timed_out cid r.groups)))
  group_unavailable cid (list_groups_request r) =
      ok (some (Response.list_groups (list_timed_out cid)))
  group_unavailable cid (delete_groups_request ids) =
      ok (some (Response.delete_groups (delete_timed_out cid ids)))
  group_unavailable cid _ = ok none

  -- `if !h.etcdAvailable()` in front of the coordinator.
  unfoldable pub ask_coordinator : ℕ → ℤ → ℤ → Request → Handler M S → Handler M S × Answer
  ask_coordinator now random cid req h =
      let (c, answer) = handle_group now random cid req (coordinator_of h) in
      if b.api.available h.store
      then (with_coordinator c h, answer)
      else (h, group_unavailable cid req)

  -- The switch of Handle. `rounds` bounds the rounds of getPartitionLog, `wakes` are the sleeps of a
  -- fetch: `none` if it is not answered within them.
  unfoldable pub handle_request :
      ℕ
      → ℕ
      → List (Wake M S)
      → ℤ
      → RequestHeader
      → Request
      → Handler M S
      → Option (Handler M S × Answer)
  handle_request rounds now wakes random header (api_versions_request r) h =
      let response = api_versions_response b header.correlation_id header.api_version in
      some (h, ok (some (Response.api_versions response)))
  handle_request rounds now wakes random header (metadata_request r) h =
      let (h', answer) = handle_metadata b header.correlation_id r h in
      some (h', answer_with Response.metadata answer)
  handle_request rounds now wakes random header (find_coordinator_request r) h =
      let (m, coord) = coordinator_broker b h.store in
      let response = find_coordinator_response b header.correlation_id coord in
      some (record h { store = m }, ok (some (Response.find_coordinator response)))
  handle_request rounds now wakes random header (produce_request r) h =
      elim (handle_produce b rounds now header.correlation_id r h) [
        | none ↦ none
        | some (h', response) ↦ some (h', answer_some Response.produce response)
      ]
  handle_request rounds now wakes random header (fetch_request r) h =
      elim (handle_fetch b rounds header.correlation_id header.api_version r
        (record { now = now; handler = h; wakes = wakes })) [
          | none ↦ none
          | some (f, response) ↦ some (f.handler, answer_with Response.fetch response)
        ]
  handle_request rounds now wakes random header (list_offsets_request r) h =
      elim (handle_list_offsets b rounds now header.correlation_id header.api_version r h) [
        | none ↦ none
        | some (h', response) ↦ some (h', answer_with Response.list_offsets response)
      ]
  handle_request rounds now wakes random header (create_topics_request r) h =
      let (h', response) = handle_create_topics b header.correlation_id header.api_version r h in
      some (h', answer_with Response.create_topics response)
  handle_request rounds now wakes random header (delete_topics_request r) h =
      let (h', response) = handle_delete_topics b header.correlation_id header.api_version r h in
      some (h', answer_with Response.delete_topics response)
  handle_request rounds now wakes random header (leader_epoch_request r) h =
      let (h', response) = handle_offset_for_leader_epoch b header.correlation_id r h in
      some (h', answer_with Response.leader_epoch response)
  handle_request rounds now wakes random header (describe_configs_request r) h =
      let (h', response) = handle_describe_configs b header.correlation_id r h in
      some (h', ok (some (Response.describe_configs response)))
  handle_request rounds now wakes random header (alter_configs_request r) h =
      let (h', response) = handle_alter_configs b header.correlation_id r h in
      some (h', ok (some (Response.alter_configs response)))
  handle_request rounds now wakes random header (create_partitions_request r) h =
      let (h', response) = handle_create_partitions b header.correlation_id r h in
      some (h', ok (some (Response.create_partitions response)))
  handle_request rounds now wakes random header req h =
      some (ask_coordinator now random header.correlation_id req h)

  unfoldable pub handle :
      ℕ
      → ℕ
      → List (Wake M S)
      → ℤ
      → RequestHeader
      → Request
      → Handler M S
      → Option (Handler M S × Result HandlerError (Option Bytes))
  handle rounds now wakes random header req h =
      encoded (response_version header.api_version req)
        (handle_request rounds now wakes random header req h)
