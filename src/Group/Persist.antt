-- ===== src/Group/Persist.antt =====
-- buildConsumerGroup and restoreGroupState of pkg/broker/coordinator.go: groups in the store.
pub mod RoundTrip
use kafscale.Base.{
  ℕ, ◌+◌, ◌*◌, ◌/◌, Bool, true, false, List, [], ◌∷◌, Option, none, some, ltb, ◌==◌, if◌then◌else◌,
}
use kafscale.Base.Int.{ℤ, pos, ltb_ℤ, pos_part, wrap32}
use kafscale.Base.Maps.{Str, str_Key, str_eq, get}
use kafscale.Base.Text.{text}
use kafscale.Group.Types.{
  GroupPhase, empty, preparing_rebalance, completing_rebalance, stable, dead, MemberState,
  AssignmentTopic, GroupState, GroupMember, ConsumerGroup,
}
use kafscale.Group.State.{
  ensure_leader, no_members, default_rebalance_timeout, default_session_timeout,
}

unfoldable pub group_phase_string : GroupPhase → Str
group_phase_string preparing_rebalance = text "preparing_rebalance"
group_phase_string completing_rebalance = text "completing_rebalance"
group_phase_string stable = text "stable"
group_phase_string dead = text "dead"
group_phase_string empty = text "empty"

unfoldable pub parse_group_phase : Str → GroupPhase
parse_group_phase s =
    if str_eq s (text "preparing_rebalance")
    then preparing_rebalance
    else (if str_eq s (text "completing_rebalance")
        then completing_rebalance
        else (if str_eq s (text "stable")
            then stable
            else (if str_eq s (text "dead") then dead else empty)))

abbrev pub millisecond : ℕ
millisecond = 1000000

-- A duration in milliseconds as an int32; nothing is set for one that is not positive.
abbrev pub to_ms : ℕ → ℤ
to_ms d = if ltb 0 d then wrap32 (pos (d / millisecond)) else pos 0

abbrev pub from_ms : ℤ → ℕ → ℕ
from_ms ms default = if ltb_ℤ (pos 0) ms then pos_part ms * millisecond else default

abbrev pub to_heartbeat : ℕ → Option ℕ
to_heartbeat t = if t == 0 then none else some t

abbrev pub from_heartbeat : Option ℕ → ℕ
from_heartbeat none = 0
from_heartbeat (some t) = t

abbrev pub assigned {ℓ} : {A : Type ℓ} → Option (List A) → List A
assigned none = []
assigned (some ts) = ts

unfoldable pub store_member : GroupState → Str → MemberState → GroupMember
store_member s id m = record {
  subscriptions = m.topics;
  session_timeout_ms = to_ms m.session_timeout;
  heartbeat_at = to_heartbeat m.last_heartbeat;
  member_assignments = assigned (get id s.assignments);
}

unfoldable pub store_members : GroupState → List (Str × MemberState) → List (Str × GroupMember)
store_members s [] = []
store_members s ((id, m) ∷ ms) = (id, store_member s id m) ∷ store_members s ms

unfoldable pub build_consumer_group : Str → GroupState → ConsumerGroup
build_consumer_group group_id s = record {
  group_id = group_id;
  state = group_phase_string s.state;
  protocol_type = s.protocol_type;
  protocol = s.protocol_name;
  leader = s.leader_id;
  generation_id = s.generation_id;
  members = store_members s s.members;
  rebalance_timeout_ms = to_ms s.rebalance_timeout;
}

unfoldable pub restore_member : ℤ → GroupMember → MemberState
restore_member generation m = record {
  topics = m.subscriptions;
  session_timeout = from_ms m.session_timeout_ms default_session_timeout;
  last_heartbeat = from_heartbeat m.heartbeat_at;
  join_generation = generation;
}

unfoldable pub restore_members : ℤ → List (Str × GroupMember) → List (Str × MemberState)
restore_members generation [] = []
restore_members generation ((id, m) ∷ ms) =
    (id, restore_member generation m) ∷ restore_members generation ms

unfoldable pub restore_assignments : List (Str × GroupMember) → List (Str × List AssignmentTopic)
restore_assignments [] = []
restore_assignments ((id, m) ∷ ms) =
    if no_members m.member_assignments
    then restore_assignments ms
    else (id, m.member_assignments) ∷ restore_assignments ms

abbrev is_rebalancing : GroupPhase → Bool
is_rebalancing preparing_rebalance = true
is_rebalancing completing_rebalance = true
is_rebalancing _ = false

unfoldable pub restore_group_state : ℕ → ConsumerGroup → GroupState
restore_group_state now g =
    let timeout = from_ms g.rebalance_timeout_ms default_rebalance_timeout in
    let phase = parse_group_phase g.state in
    ensure_leader (record {
      protocol_name = g.protocol;
      protocol_type = g.protocol_type;
      generation_id = g.generation_id;
      leader_id = g.leader;
      state = phase;
      members = restore_members g.generation_id g.members;
      assignments = restore_assignments g.members;
      rebalance_timeout = timeout;
      rebalance_deadline = if is_rebalancing phase then now + timeout else 0;
    })
