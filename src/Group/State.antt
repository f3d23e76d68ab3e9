-- ===== src/Group/State.antt =====
-- The methods of groupState in pkg/broker/coordinator.go.
pub mod Leader
use kafscale.Base.{
  ℕ, zero, suc, ◌+◌, ◌-◌, ◌*◌, Bool, true, false, ◌&&◌, ◌||◌, not, List, [], ◌∷◌, ◌++◌, Option,
  none, some, ltb, leb, ◌==◌, if◌then◌else◌, map,
}
use kafscale.Base.Int.{ℤ, pos, ◌+ℤ◌, eqb_ℤ, wrap32}
use kafscale.Base.Maps.{Str, str_Key, str_eq, get, has, put, delete}
use kafscale.Base.Sort.{sort, str_le}
use kafscale.Group.Types.{
  GroupPhase, empty, preparing_rebalance, completing_rebalance, stable, dead, MemberState,
  AssignmentTopic, GroupState,
}

-- 30 seconds
abbrev pub default_rebalance_timeout : ℕ
default_rebalance_timeout = 30 * 1000000000

abbrev pub default_session_timeout : ℕ
default_session_timeout = 30 * 1000000000

abbrev pub no_members {ℓ} : {A : Type ℓ} → List A → Bool
no_members [] = true
no_members (x ∷ xs) = false

abbrev pub keys {ℓ} : {V : Type ℓ} → List (Str × V) → List Str
keys [] = []
keys ((k, v) ∷ m) = k ∷ keys m

unfoldable pub sorted_members : GroupState → List Str
sorted_members s = sort str_le (keys s.members)

abbrev first_or_none : List Str → Str
first_or_none [] = []
first_or_none (k ∷ ks) = k

unfoldable pub ensure_leader : GroupState → GroupState
ensure_leader s =
    if not (str_eq s.leader_id []) && has s.leader_id s.members
    then s
    else record s { leader_id = first_or_none (sorted_members s) }

abbrev pub reset_join : List (Str × MemberState) → List (Str × MemberState)
reset_join [] = []
reset_join ((k, m) ∷ ms) = (k, record m { join_generation = pos 0 }) ∷ reset_join ms

-- The branch of startRebalance for a group with members, its timeout being chosen.
unfoldable pub begin_rebalance : ℕ → ℕ → GroupState → GroupState
begin_rebalance now timeout s =
    let led = ensure_leader (record s {
      rebalance_timeout = timeout;
      generation_id = wrap32 (s.generation_id +ℤ pos 1);
      state = preparing_rebalance;
      assignments = [];
      rebalance_deadline = now + timeout;
    }) in
    record led { members = reset_join led.members }

abbrev pub choose_timeout : ℕ → ℕ → ℕ
choose_timeout timeout current =
    if ltb 0 timeout then timeout else (if current == 0 then default_rebalance_timeout else current)

-- A timeout that is not positive is 0 here.
unfoldable pub start_rebalance : ℕ → ℕ → GroupState → GroupState
start_rebalance now timeout s =
    if no_members s.members
    then record s { state = empty; assignments = []; rebalance_deadline = 0; leader_id = [] }
    else begin_rebalance now (choose_timeout timeout s.rebalance_timeout) s

unfoldable pub bump_rebalance_deadline : ℕ → ℕ → GroupState → GroupState
bump_rebalance_deadline now timeout s =
    let chosen = choose_timeout timeout s.rebalance_timeout in
    record s { rebalance_timeout = chosen; rebalance_deadline = now + chosen }

abbrev pub all_joined : ℤ → List (Str × MemberState) → Bool
all_joined generation [] = true
all_joined generation ((k, m) ∷ ms) = eqb_ℤ m.join_generation generation && all_joined generation ms

unfoldable pub complete_if_ready : GroupState → GroupState × Bool
complete_if_ready s =
    if no_members s.members
    then (s, false)
    else (if all_joined s.generation_id s.members
        then (record s { state = completing_rebalance; rebalance_deadline = 0 }, true)
        else (s, false))

unfoldable pub mark_stable : GroupState → GroupState
mark_stable s = elim s.state [ dead ↦ s | _ ↦ record s { state = stable; rebalance_deadline = 0 } ]

-- The loops of removeExpiredMembers and dropRebalanceLaggers: the members for which `gone` holds
-- leave, with their assignments. The order in which Go visits the map does not matter here.
abbrev pub kept : (MemberState → Bool) → List (Str × MemberState) → List (Str × MemberState)
kept gone [] = []
kept gone ((k, m) ∷ ms) = if gone m then kept gone ms else (k, m) ∷ kept gone ms

abbrev pub left : (MemberState → Bool) → List (Str × MemberState) → List Str
left gone [] = []
left gone ((k, m) ∷ ms) = if gone m then k ∷ left gone ms else left gone ms

abbrev pub contains : Str → List Str → Bool
contains k [] = false
contains k (j ∷ js) = str_eq j k || contains k js

abbrev pub delete_all {ℓ} : {V : Type ℓ} → List Str → List (Str × V) → List (Str × V)
delete_all ks [] = []
delete_all ks ((k, v) ∷ m) = if contains k ks then delete_all ks m else (k, v) ∷ delete_all ks m

unfoldable pub drop_members : (MemberState → Bool) → GroupState → GroupState × Bool
drop_members gone s =
    let ids = left gone s.members in
    let members = kept gone s.members in
    (
      record s {
        members = members;
        assignments = delete_all ids s.assignments;
        leader_id = if contains s.leader_id ids then [] else s.leader_id;
        state = if no_members members then empty else s.state;
      },
      not (no_members ids),
    )

unfoldable pub is_expired : ℕ → MemberState → Bool
is_expired now m =
    let timeout = if m.session_timeout == 0 then default_session_timeout else m.session_timeout in
    ltb timeout (now - m.last_heartbeat)

unfoldable pub remove_expired_members : ℕ → GroupState → GroupState × Bool
remove_expired_members now s = drop_members (is_expired now) s

unfoldable pub is_lagger : ℤ → MemberState → Bool
is_lagger generation m = not (eqb_ℤ m.join_generation generation)

unfoldable pub drop_rebalance_laggers : ℕ → GroupState → GroupState × Bool
drop_rebalance_laggers now s =
    if s.rebalance_deadline == 0 || ltb now s.rebalance_deadline
    then (s, false)
    else drop_members (is_lagger s.generation_id) s
