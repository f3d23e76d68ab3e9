-- ===== src/Group/Types.antt =====
-- The types of pkg/broker/coordinator.go, of the stored groups and of the store's interface
-- (pkg/metadata/store.go). Durations and times are nanoseconds; time 0 is Go's zero time.
use kafscale.Base.{ℕ, Bool, List, Option}
use kafscale.Base.Int.{ℤ}
use kafscale.Base.Maps.{Str}

pub data GroupPhase : Type 0 where
  empty preparing_rebalance completing_rebalance stable dead : GroupPhase

pub GroupPhase-discrete : Discrete GroupPhase
GroupPhase-discrete = hlevel

-- The codes of pkg/protocol/errors.go that the coordinator answers with.
pub data ErrorCode : Type 0 where
  no_error unknown_server_error invalid_request illegal_generation : ErrorCode
  unknown_member_id rebalance_in_progress group_id_not_found : ErrorCode

pub record AssignmentTopic : Type 0 where
  pub name : Str
  pub partitions : List ℤ

-- A session timeout of 0 means that none is set.
pub record MemberState : Type 0 where
  pub topics : List Str
  pub session_timeout : ℕ
  pub last_heartbeat : ℕ
  pub join_generation : ℤ  -- int32

-- A nil slice of assignments is an empty list. The deadline 0 is the zero time.
pub record GroupState : Type 0 where
  pub protocol_name : Str
  pub protocol_type : Str
  pub generation_id : ℤ  -- int32
  pub leader_id : Str
  pub state : GroupPhase
  pub members : List (Str × MemberState)
  pub assignments : List (Str × List AssignmentTopic)
  pub rebalance_timeout : ℕ
  pub rebalance_deadline : ℕ

-- The protobuf messages. `heartbeat_at` is the time that the field's RFC 3339 text stands for,
-- `none` for an empty or unreadable one.
pub record GroupMember : Type 0 where
  pub subscriptions : List Str
  pub session_timeout_ms : ℤ
  pub heartbeat_at : Option ℕ
  pub member_assignments : List AssignmentTopic

pub record ConsumerGroup : Type 0 where
  pub group_id : Str
  pub state : Str
  pub protocol_type : Str
  pub protocol : Str
  pub leader : Str
  pub generation_id : ℤ
  pub members : List (Str × GroupMember)
  pub rebalance_timeout_ms : ℤ

pub record TopicPartitions : Type 0 where
  pub name : Str
  pub indexes : List ℤ

-- metadata.Store as the coordinator uses it: `none` and `false` are errors.
pub record Store (S : Type 0) : Type 0 where
  pub metadata : List Str → S → Option (List TopicPartitions)
  pub fetch_consumer_group : Str → S → Option (Option ConsumerGroup)
  pub list_consumer_groups : S → Option (List ConsumerGroup)
  pub put_consumer_group : ConsumerGroup → S → S × Bool
  pub delete_consumer_group : Str → S → S × Bool
  pub commit_consumer_offset : Str → Str → ℤ → ℤ → Str → S → S × Bool
  pub fetch_consumer_offset : Str → Str → ℤ → S → Option (ℤ × Str)
