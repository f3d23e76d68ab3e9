-- ===== src/Group/Coordinator/Join.antt =====
-- JoinGroup of pkg/broker/coordinator.go.
pub mod Members
use kafscale.Base.{
  ℕ, ◌*◌, Bool, true, false, ◌&&◌, ◌||◌, not, List, [], ◌∷◌, ◌++◌, Option, none, some,
  if◌then◌else◌, length, ltb, ◌==◌,
}
use kafscale.Base.Int.{ℤ, pos, ltb_ℤ, pos_part}
use kafscale.Base.Maps.{Str, str_Key, str_eq, get, has, put}
use kafscale.Base.Bytes.{Bytes}
use kafscale.Base.Decimal.{decimal}
use kafscale.Group.Types.{
  GroupPhase, empty, preparing_rebalance, completing_rebalance, stable, dead, MemberState,
  GroupState, Store, ErrorCode, no_error, unknown_server_error, rebalance_in_progress,
}
use kafscale.Group.State.{
  no_members, default_rebalance_timeout, default_session_timeout, start_rebalance,
  bump_rebalance_deadline, ensure_leader, complete_if_ready, sorted_members,
}
use kafscale.Group.Persist.{millisecond}
use kafscale.Group.Wire.{encode_subscription, parse_subscription_topics}
use kafscale.Group.Coordinator.{Coordinator, ensure_group, save_group}

pub record JoinProtocol : Type 0 where
  pub name : Str
  pub metadata : Bytes

pub record JoinRequest : Type 0 where
  pub group_id : Str
  pub member_id : Str
  pub protocol_type : Str
  pub protocols : List JoinProtocol
  pub session_timeout_ms : ℤ
  pub rebalance_timeout_ms : ℤ

pub record JoinAnswer : Type 0 where
  pub code : ErrorCode
  pub generation_id : ℤ
  pub protocol_name : Str
  pub leader_id : Str
  pub member_id : Str
  pub members : List (Str × Bytes)

-- "%s-%d", with the number that rand.Int63 gave
unfoldable pub new_member_id : Str → ℤ → Str
new_member_id group random = group ++ (45 ∷ decimal random)

abbrev pub first_metadata : List JoinProtocol → Option Bytes
first_metadata [] = none
first_metadata (p ∷ ps) = some p.metadata

abbrev pub first_name : List JoinProtocol → Str → Str
first_name [] name = name
first_name (p ∷ ps) name = p.name

abbrev pub rebalance_timeout_of : JoinRequest → ℕ
rebalance_timeout_of req =
    if ltb_ℤ (pos 0) req.rebalance_timeout_ms
    then pos_part req.rebalance_timeout_ms * millisecond
    else default_rebalance_timeout

-- The member's id, its state so far, and whether it was known.
unfoldable pub identify : JoinRequest → ℤ → GroupState → Str × MemberState × Bool
identify req random g =
    let fresh : MemberState = record {
      topics = [];
      session_timeout = 0;
      last_heartbeat = 0;
      join_generation = pos 0;
    } in
    let created : Str × MemberState × Bool = (new_member_id req.group_id random, fresh, false) in
    elim (get req.member_id g.members) [
      | none ↦ created
      | some m ↦ if str_eq req.member_id [] then created else (req.member_id, m, true)
    ]

unfoldable pub refresh : JoinRequest → ℕ → MemberState → MemberState
refresh req now m = record m {
  session_timeout =
      if ltb_ℤ (pos 0) req.session_timeout_ms
      then pos_part req.session_timeout_ms * millisecond
      else (if m.session_timeout == 0 then default_session_timeout else m.session_timeout);
  topics = parse_subscription_topics (first_metadata req.protocols);
  last_heartbeat = now;
}

abbrev one_member {ℓ} : {A : Type ℓ} → List A → Bool
one_member [] = false
one_member (x ∷ []) = true
one_member (x ∷ y ∷ xs) = false

-- The ladder that starts a rebalance or gives the running one more time.
unfoldable pub trigger : ℕ → ℕ → Str → Bool → GroupState → GroupState
trigger now timeout member known g = elim g.state [
  | empty ↦
      start_rebalance now timeout
        (if one_member g.members then record g { leader_id = member } else g)
  | stable ↦ if known then g else start_rebalance now timeout g
  | preparing_rebalance ↦ bump_rebalance_deadline now timeout g
  | completing_rebalance ↦ bump_rebalance_deadline now timeout g
  | dead ↦ g
]

abbrev pub lead_if_none : GroupState → GroupState
lead_if_none g = if str_eq g.leader_id [] then ensure_leader g else g

unfoldable pub ready_now : GroupState → GroupState × Bool
ready_now g = elim g.state [
  | stable ↦ (g, true)
  | completing_rebalance ↦ (g, true)
  | _ ↦ complete_if_ready g
]

unfoldable pub member_subscriptions : GroupState → List Str → List (Str × Bytes)
member_subscriptions g [] = []
member_subscriptions g (id ∷ ids) =
    (id, encode_subscription (elim (get id g.members) [ none ↦ [] | some m ↦ m.topics ]))
    ∷ member_subscriptions g ids

-- The request's protocol, and the member in the map.
abbrev pub enter : JoinRequest → Str → MemberState → GroupState → GroupState
enter req id m g = record g {
  protocol_type = req.protocol_type;
  protocol_name = first_name req.protocols g.protocol_name;
  members = put id m g.members;
}

-- `member.joinGeneration = state.generationID`
abbrev pub stamp : Str → MemberState → GroupState → GroupState
stamp id m g = record g {
  members = put id (record m { join_generation = g.generation_id }) g.members;
}

-- The group with the member in it, joined to the current generation, and whether it is ready.
unfoldable pub admit : JoinRequest → ℕ → ℤ → GroupState → Str × GroupState × Bool
admit req now random g =
    let (id, m, known) = identify req random g in
    let m' = refresh req now m in
    let triggered = trigger now (rebalance_timeout_of req) id known (enter req id m' g) in
    let (g', ready) = ready_now (lead_if_none (stamp id m' triggered)) in (id, g', ready)

-- `none` is an error of the store before the group was found.
unfoldable pub join_group :
    {S : Type 0} → Store S → ℕ → ℤ → JoinRequest → Coordinator S → Coordinator S × Option JoinAnswer
join_group api now random req c =
    let (c', found) = ensure_group api now req.group_id c in
    elim found [
      | none ↦ (c', none)
      | some g ↦
          let (id, g', ready) = admit req now random g in
          let (c'', saved) = save_group api now req.group_id g' c' in
          let wanted = if ready then no_error else rebalance_in_progress in
          (
            c'',
            some (record {
              code = elim saved [ no_error ↦ wanted | _ ↦ unknown_server_error ];
              generation_id = g'.generation_id;
              protocol_name = g'.protocol_name;
              leader_id = g'.leader_id;
              member_id = id;
              members =
                  if ready && str_eq id g'.leader_id
                  then member_subscriptions g' (sorted_members g')
                  else [];
            }),
          )
    ]
