-- ===== src/Group/Coordinator.antt =====
-- The handlers of pkg/broker/coordinator.go. The coordinator's lock makes each of them one step
-- (OffsetCommit lets go of it before it commits). `now` stands for time.Now, and the correlation
-- and throttle fields, which only echo the request or are 0, are left out of the answers.
pub mod Join
pub mod Offsets
pub mod Invariant
pub mod Answers
pub mod Admin
use kafscale.Base.{
  ℕ, ◌*◌, Bool, true, false, ◌&&◌, ◌||◌, not, List, [], ◌∷◌, ◌++◌, Option, none, some,
  if◌then◌else◌,
}
use kafscale.Base.Int.{ℤ, pos, eqb_ℤ}
use kafscale.Base.Maps.{Str, str_Key, str_eq, get, has, put, delete}
use kafscale.Base.Bytes.{Bytes}
use kafscale.Group.Types.{
  GroupPhase, empty, preparing_rebalance, completing_rebalance, stable, dead, MemberState,
  AssignmentTopic, GroupState, Store, ErrorCode, no_error, unknown_server_error, illegal_generation,
  unknown_member_id, rebalance_in_progress,
}
use kafscale.Group.State.{
  no_members, default_rebalance_timeout, start_rebalance, mark_stable, remove_expired_members,
  drop_rebalance_laggers,
}
use kafscale.Group.Assign.{assign_partitions}
use kafscale.Group.Persist.{build_consumer_group, restore_group_state, assigned}
use kafscale.Group.Wire.{encode_assignment}

pub record Coordinator (S : Type 0) : Type 0 where
  pub groups : List (Str × GroupState)
  pub store : S

abbrev pub code_of : Bool → ErrorCode
code_of true = no_error
code_of false = unknown_server_error

-- SyncGroup's answer: the code, and the protocol and assignment behind code no_error.
pub record SyncAnswer : Type 0 where
  pub code : ErrorCode
  pub protocol_type : Str
  pub protocol_name : Str
  pub assignment : Bytes

abbrev pub refuse_sync : ErrorCode → SyncAnswer
refuse_sync code = record { code = code; protocol_type = []; protocol_name = []; assignment = [] }

module _ {S : Type 0} (api : Store S) (now : ℕ) where
  -- loadGroupIfMissing: `none` is an error of the store, `some none` a group that does not exist.
  unfoldable pub load_group : Str → Coordinator S → Coordinator S × Option (Option GroupState)
  load_group id c = elim (get id c.groups) [
    | some g ↦ (c, some (some g))
    | none ↦ elim (api.fetch_consumer_group id c.store) [
      | none ↦ (c, none)
      | some none ↦ (c, some none)
      | some (some stored) ↦
          let g = restore_group_state now stored in
          (record c { groups = put id g c.groups }, some (some g))
    ]
  ]

  abbrev pub new_group : GroupState
  new_group = record {
    protocol_name = [];
    protocol_type = [];
    generation_id = pos 0;
    leader_id = [];
    state = empty;
    members = [];
    assignments = [];
    rebalance_timeout = default_rebalance_timeout;
    rebalance_deadline = 0;
  }

  -- ensureGroup: the group found, or a new one; `none` is an error of the store.
  unfoldable pub ensure_group : Str → Coordinator S → Coordinator S × Option GroupState
  ensure_group id c =
      let (c', found) = load_group id c in
      elim found [
        | none ↦ (c', none)
        | some (some g) ↦ (c', some g)
        | some none ↦ (record c' { groups = put id new_group c'.groups }, some new_group)
      ]

  -- persistGroupLocked, with whether it succeeded.
  unfoldable pub persist_group : Str → GroupState → S → S × Bool
  persist_group id g s =
      if no_members g.members
      then api.delete_consumer_group id s
      else api.put_consumer_group (build_consumer_group id g) s

  -- The end of a handler that changed the group: it is kept, and persisted.
  unfoldable pub save_group : Str → GroupState → Coordinator S → Coordinator S × ErrorCode
  save_group id g c =
      let (s, saved) = persist_group id g c.store in
      (record { groups = put id g c.groups; store = s }, code_of saved)

  -- Heartbeat
  unfoldable pub beat : Str → Str → ℤ → GroupState → Coordinator S → Coordinator S × ErrorCode
  beat id member generation g c = elim (get member g.members) [
    | none ↦ (c, unknown_member_id)
    | some m ↦
        if not (eqb_ℤ generation g.generation_id) then (c, illegal_generation) else elim g.state [
          | stable ↦
              save_group id
                (record g { members = put member (record m { last_heartbeat = now }) g.members }) c
          | _ ↦ (c, rebalance_in_progress)
        ]
  ]

  unfoldable pub heartbeat : Str → Str → ℤ → Coordinator S → Coordinator S × ErrorCode
  heartbeat id member generation c =
      let (c', found) = load_group id c in
      elim found [
        | none ↦ (c', unknown_server_error)
        | some none ↦ (c', unknown_member_id)
        | some (some g) ↦ beat id member generation g c'
      ]

  -- LeaveGroup
  abbrev forget_leader : Str → GroupState → GroupState
  forget_leader member g = if str_eq g.leader_id member then record g { leader_id = [] } else g

  unfoldable pub leave : Str → Str → GroupState → Coordinator S → Coordinator S × ErrorCode
  leave id member g c =
      let g' = record g {
        members = delete member g.members;
        assignments = delete member g.assignments;
      } in
      let (s, deleted) = api.delete_consumer_group id c.store in
      if not (has member g.members)
      then (c, unknown_member_id)
      else (if no_members g'.members
          then (record { groups = delete id c.groups; store = s }, code_of deleted)
          else save_group id (start_rebalance now 0 (forget_leader member g')) c)

  unfoldable pub leave_group : Str → Str → Coordinator S → Coordinator S × ErrorCode
  leave_group id member c =
      let (c', found) = load_group id c in
      elim found [
        | none ↦ (c', unknown_server_error)
        | some none ↦ (c', unknown_member_id)
        | some (some g) ↦ leave id member g c'
      ]

  -- The group after the leader's first SyncGroup of a generation.
  unfoldable pub settle : S → GroupState → GroupState
  settle s g = mark_stable (record g { assignments = assign_partitions api s g })

  unfoldable pub answer_sync : Str → Str → GroupState → Coordinator S → Coordinator S × SyncAnswer
  answer_sync id member g c =
      let topics = assigned (get member g.assignments) in
      let (c', code) = save_group id g c in
      let answer : SyncAnswer = record {
        code = code;
        protocol_type = g.protocol_type;
        protocol_name = g.protocol_name;
        assignment = encode_assignment topics;
      } in
      let refused : Coordinator S × SyncAnswer =
        (record c { groups = put id g c.groups }, refuse_sync rebalance_in_progress) in
      elim g.state [
        | stable ↦ (c', answer)
        | _ ↦ if no_members topics then refused else (c', answer)
      ]

  unfoldable pub sync_member : Str → Str → GroupState → Coordinator S → Coordinator S × SyncAnswer
  sync_member id member g c = elim g.state [
    | preparing_rebalance ↦ (c, refuse_sync rebalance_in_progress)
    | completing_rebalance ↦
        if no_members g.assignments
        then (if str_eq member g.leader_id
            then answer_sync id member (settle c.store g) c
            else (c, refuse_sync rebalance_in_progress))
        else answer_sync id member g c
    | _ ↦ answer_sync id member g c
  ]

  unfoldable pub sync_group : Str → Str → ℤ → Coordinator S → Coordinator S × Option SyncAnswer
  sync_group id member generation c =
      let (c', found) = load_group id c in
      elim found [
        | none ↦ (c', none)
        | some none ↦ (c', some (refuse_sync unknown_member_id))
        | some (some g) ↦
            let (c'', answer) = sync_member id member g c' in
            if not (eqb_ℤ generation g.generation_id)
            then (c', some (refuse_sync illegal_generation))
            else (if not (has member g.members)
                then (c', some (refuse_sync unknown_member_id))
                else (c'', some answer))
      ]

  -- cleanupGroups for one group: `none` in place of the group when it is removed. The errors of the
  -- store are ignored.
  unfoldable pub clean_group : Str → GroupState → S → S × Option GroupState
  clean_group id g s =
      let (g', removed) = remove_expired_members now g in
      let (g'', lost) = drop_rebalance_laggers now g' in
      let g''' = start_rebalance now 0 g'' in
      if no_members g''.members
      then ((api.delete_consumer_group id s).0, none)
      else (if removed || lost then ((persist_group id g''' s).0, some g''') else (s, some g''))

  unfoldable pub clean_groups : List (Str × GroupState) → S → List (Str × GroupState) × S
  clean_groups [] s = ([], s)
  clean_groups ((id, g) ∷ gs) s =
      let (s', left) = clean_group id g s in
      let (gs', s'') = clean_groups gs s' in
      (elim left [ none ↦ gs' | some g' ↦ (id, g') ∷ gs' ], s'')

  unfoldable pub cleanup_groups : Coordinator S → Coordinator S
  cleanup_groups c =
      let (groups, s) = clean_groups c.groups c.store in record { groups = groups; store = s }
