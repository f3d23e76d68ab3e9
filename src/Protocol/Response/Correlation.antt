-- ===== src/Protocol/Response/Correlation.antt =====
-- The correlation id in front of the responses of pkg/protocol/response.go, by which a client finds
-- the request that a response answers.
use kafscale.Base.{
  ◌≡◌, ◌∙◌, ◌&&◌, List, ◌∷◌, ◌++◌, ok, Bool-cases, Result-cases, inl, inr, ok-injective,
}
use kafscale.Base.Int.{ℤ, pos, leb_ℤ, IsI32, bits32, bits32-lt, signed32, signed32-bits32}
use kafscale.Base.Bytes.{Bytes, be32, uint, uint-be32}
use kafscale.Protocol.Reader.{read, read_int32, done, bind_ok}
use kafscale.Protocol.Writer.{write_int32}
use kafscale.Protocol.RoundTrip.{read-append}
use kafscale.Protocol.Output.{Output, join, int32, supported}
use kafscale.Protocol.Response.Data.{
  ApiVersionsResponse, encode_api_versions, MetadataResponse, encode_metadata, ProduceResponse,
  encode_produce, FetchResponse, encode_fetch, ListOffsetsResponse, encode_list_offsets,
}
use kafscale.Protocol.Response.Groups.{
  FindCoordinatorResponse, encode_find_coordinator, JoinGroupResponse, encode_join_group,
  SyncGroupResponse, encode_sync_group, HeartbeatResponse, encode_heartbeat, LeaveGroupResponse,
  encode_leave_group, OffsetCommitResponse, encode_offset_commit, OffsetFetchResponse,
  encode_offset_fetch, DescribeGroupsResponse, encode_describe_groups, ListGroupsResponse,
  encode_list_groups, DeleteGroupsResponse, encode_delete_groups,
}
use kafscale.Protocol.Response.Topics.{
  CreateTopicsResponse, encode_create_topics, DeleteTopicsResponse, encode_delete_topics,
  LeaderEpochResponse, encode_offset_for_leader_epoch, DescribeConfigsResponse,
  encode_describe_configs, AlterConfigsResponse, encode_alter_configs, CreatePartitionsResponse,
  encode_create_partitions,
}

pub data Response : Type 0 where
  api_versions : ApiVersionsResponse → Response
  metadata : MetadataResponse → Response
  produce : ProduceResponse → Response
  fetch : FetchResponse → Response
  list_offsets : ListOffsetsResponse → Response
  find_coordinator : FindCoordinatorResponse → Response
  join_group : JoinGroupResponse → Response
  sync_group : SyncGroupResponse → Response
  heartbeat : HeartbeatResponse → Response
  leave_group : LeaveGroupResponse → Response
  offset_commit : OffsetCommitResponse → Response
  offset_fetch : OffsetFetchResponse → Response
  describe_groups : DescribeGroupsResponse → Response
  list_groups : ListGroupsResponse → Response
  delete_groups : DeleteGroupsResponse → Response
  create_topics : CreateTopicsResponse → Response
  delete_topics : DeleteTopicsResponse → Response
  leader_epoch : LeaderEpochResponse → Response
  describe_configs : DescribeConfigsResponse → Response
  alter_configs : AlterConfigsResponse → Response
  create_partitions : CreatePartitionsResponse → Response

-- The encoder that belongs to a response.
abbrev pub encode : Response → ℤ → Output
encode (api_versions r) v = encode_api_versions r v
encode (metadata r) v = encode_metadata r v
encode (produce r) v = encode_produce r v
encode (fetch r) v = encode_fetch r v
encode (list_offsets r) v = encode_list_offsets r v
encode (find_coordinator r) v = encode_find_coordinator r v
encode (join_group r) v = encode_join_group r v
encode (sync_group r) v = encode_sync_group r v
encode (heartbeat r) v = encode_heartbeat r v
encode (leave_group r) v = encode_leave_group r
encode (offset_commit r) v = encode_offset_commit r
encode (offset_fetch r) v = encode_offset_fetch r v
encode (describe_groups r) v = encode_describe_groups r v
encode (list_groups r) v = encode_list_groups r v
encode (delete_groups r) v = encode_delete_groups r v
encode (create_topics r) v = encode_create_topics r v
encode (delete_topics r) v = encode_delete_topics r v
encode (leader_epoch r) v = encode_offset_for_leader_epoch r v
encode (describe_configs r) v = encode_describe_configs r v
encode (alter_configs r) v = encode_alter_configs r v
encode (create_partitions r) v = encode_create_partitions r v

abbrev pub correlation_of : Response → ℤ
correlation_of (api_versions r) = r.correlation_id
correlation_of (metadata r) = r.correlation_id
correlation_of (produce r) = r.correlation_id
correlation_of (fetch r) = r.correlation_id
correlation_of (list_offsets r) = r.correlation_id
correlation_of (find_coordinator r) = r.correlation_id
correlation_of (join_group r) = r.correlation_id
correlation_of (sync_group r) = r.correlation_id
correlation_of (heartbeat r) = r.correlation_id
correlation_of (leave_group r) = r.correlation_id
correlation_of (offset_commit r) = r.correlation_id
correlation_of (offset_fetch r) = r.correlation_id
correlation_of (describe_groups r) = r.correlation_id
correlation_of (list_groups r) = r.correlation_id
correlation_of (delete_groups r) = r.correlation_id
correlation_of (create_topics r) = r.correlation_id
correlation_of (delete_topics r) = r.correlation_id
correlation_of (leader_epoch r) = r.correlation_id
correlation_of (describe_configs r) = r.correlation_id
correlation_of (alter_configs r) = r.correlation_id
correlation_of (create_partitions r) = r.correlation_id

read_int32-write_int32 :
    (v : ℤ) (rest : Bytes) → IsI32 v → read_int32 (write_int32 v ++ rest) ≡ ok (v, rest)
unfolding read_int32 write_int32 be32
read_int32-write_int32 v rest h =
    bind_ok (read (pos 4)) (λ b. done (signed32 (uint b))) (read-append (be32 (bits32 v)) rest)
    ∙ rw (uint-be32 (bits32 v) (bits32-lt v), signed32-bits32 v h)

-- The bytes begin with the correlation id.
abbrev Begins : Bytes → ℤ → Type 0
Begins bs c = (rest : Bytes) × (read_int32 bs ≡ ok (c, rest))

join-Begins :
    (c : ℤ) (os : List Output) (bs : Bytes) → IsI32 c → join (int32 c ∷ os) ≡ ok bs → Begins bs c
unfolding join
join-Begins c os bs h e = elim (Result-cases (join os)) [
  | inr (x, failed) ↦ cc (rw (failed, join) at e)
  | inl (rest, joined) ↦
      (rest, rw (← ok-injective (rw (joined, join) at e)) (read_int32-write_int32 c rest h))
]

supported-Begins :
    (low high v c : ℤ) (os : List Output) (bs : Bytes)
    → IsI32 c
    → supported low high v (join (int32 c ∷ os)) ≡ ok bs
    → Begins bs c
unfolding supported
supported-Begins low high v c os bs h e = elim (Bool-cases (leb_ℤ low v && leb_ℤ v high)) [
  | inl t ↦ join-Begins c os bs h (rw t at e)
  | inr f ↦ cc (rw f at e)
]

-- Whatever the response and its version, what is encoded without an error begins with the
-- correlation id, an int32.
pub encode-correlation :
    (r : Response) (version : ℤ) (bs : Bytes)
    → IsI32 (correlation_of r)
    → encode r version ≡ ok bs
    → (rest : Bytes) × (read_int32 bs ≡ ok (correlation_of r, rest))
unfolding encode_api_versions encode_metadata encode_produce encode_fetch encode_list_offsets
    encode_find_coordinator encode_join_group encode_sync_group encode_heartbeat encode_leave_group
    encode_offset_commit encode_offset_fetch encode_describe_groups encode_list_groups
    encode_delete_groups encode_create_topics encode_delete_topics encode_offset_for_leader_epoch
    encode_describe_configs encode_alter_configs encode_create_partitions
encode-correlation (api_versions r) v bs h e = supported-Begins _ _ v r.correlation_id _ bs h e
encode-correlation (metadata r) v bs h e = supported-Begins _ _ v r.correlation_id _ bs h e
encode-correlation (produce r) v bs h e = join-Begins r.correlation_id _ bs h e
encode-correlation (fetch r) v bs h e = supported-Begins _ _ v r.correlation_id _ bs h e
encode-correlation (list_offsets r) v bs h e = supported-Begins _ _ v r.correlation_id _ bs h e
encode-correlation (find_coordinator r) v bs h e = supported-Begins _ _ v r.correlation_id _ bs h e
encode-correlation (join_group r) v bs h e = supported-Begins _ _ v r.correlation_id _ bs h e
encode-correlation (sync_group r) v bs h e = supported-Begins _ _ v r.correlation_id _ bs h e
encode-correlation (heartbeat r) v bs h e = supported-Begins _ _ v r.correlation_id _ bs h e
encode-correlation (leave_group r) v bs h e = join-Begins r.correlation_id _ bs h e
encode-correlation (offset_commit r) v bs h e = join-Begins r.correlation_id _ bs h e
encode-correlation (offset_fetch r) v bs h e = supported-Begins _ _ v r.correlation_id _ bs h e
encode-correlation (describe_groups r) v bs h e = supported-Begins _ _ v r.correlation_id _ bs h e
encode-correlation (list_groups r) v bs h e = supported-Begins _ _ v r.correlation_id _ bs h e
encode-correlation (delete_groups r) v bs h e = supported-Begins _ _ v r.correlation_id _ bs h e
encode-correlation (create_topics r) v bs h e = supported-Begins _ _ v r.correlation_id _ bs h e
encode-correlation (delete_topics r) v bs h e = supported-Begins _ _ v r.correlation_id _ bs h e
encode-correlation (leader_epoch r) v bs h e = supported-Begins _ _ v r.correlation_id _ bs h e
encode-correlation (describe_configs r) v bs h e = supported-Begins _ _ v r.correlation_id _ bs h e
encode-correlation (alter_configs r) v bs h e = supported-Begins _ _ v r.correlation_id _ bs h e
encode-correlation (create_partitions r) v bs h e = supported-Begins _ _ v r.correlation_id _ bs h e
