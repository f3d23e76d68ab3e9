-- ===== src/Group/Persist/RoundTrip.antt =====
-- buildConsumerGroup and restoreGroupState of pkg/broker/coordinator.go: a group that is persisted,
-- and loaded again by a broker that does not hold it.
use kafscale.Base.{ℕ, ◌≡◌, refl, sym, ap, true, false, List, [], ◌∷◌, ◌∙◌, subst}
use kafscale.Base.Int.{ℤ}
use kafscale.Base.Maps.{Str, str_Key, str_eq, has}
use kafscale.Group.Types.{
  GroupPhase, empty, preparing_rebalance, completing_rebalance, stable, dead, MemberState,
  GroupState,
}
use kafscale.Group.State.{ensure_leader}
use kafscale.Group.Persist.{
  group_phase_string, parse_group_phase, store_member, store_members, build_consumer_group,
  restore_member, restore_members, restore_group_state,
}

phase_lem : (p : GroupPhase) → parse_group_phase (group_phase_string p) ≡ p
unfolding parse_group_phase group_phase_string
phase_lem empty = refl
phase_lem preparing_rebalance = refl
phase_lem completing_rebalance = refl
phase_lem stable = refl
phase_lem dead = refl

-- The members with what they subscribe to
abbrev pub subscribed : List (Str × MemberState) → List (Str × List Str)
subscribed [] = []
subscribed ((id, m) ∷ ms) = (id, m.topics) ∷ subscribed ms

members_lem :
    (generation : ℤ) (g : GroupState) (ms : List (Str × MemberState))
    → subscribed (restore_members generation (store_members g ms)) ≡ subscribed ms
unfolding restore_members store_members restore_member store_member
members_lem generation g [] = refl
members_lem generation g ((id, m) ∷ ms) = ap (◌∷◌ (id, m.topics)) (members_lem generation g ms)

has_lem :
    (k : Str) (generation : ℤ) (g : GroupState) (ms : List (Str × MemberState))
    → has k (restore_members generation (store_members g ms)) ≡ has k ms
unfolding has restore_members store_members
has_lem k generation g [] = refl
has_lem k generation g ((id, m) ∷ ms) = rw (has_lem k generation g ms)

keeps_leader :
    (g : GroupState)
    → str_eq g.leader_id [] ≡ false
    → has g.leader_id g.members ≡ true
    → ensure_leader g ≡ g
unfolding ensure_leader
keeps_leader g named h = rw (named, h)

-- The same phase, generation, protocol and leader, and the same members with their subscriptions.
abbrev pub Agrees : GroupState → GroupState → Type 0
Agrees g r =
    (r.state ≡ g.state)
    × (r.generation_id ≡ g.generation_id)
    × (r.protocol_name ≡ g.protocol_name)
    × (r.protocol_type ≡ g.protocol_type)
    × (r.leader_id ≡ g.leader_id)
    × (subscribed r.members ≡ subscribed g.members)

-- A group that is led by one of its members is restored from its stored form with the same phase,
-- generation, protocol and leader, and the same members with the same subscriptions, in order.
pub restore_group_state-build_consumer_group :
    (now : ℕ) (id : Str) (g : GroupState)
    → str_eq g.leader_id [] ≡ false
    → has g.leader_id g.members ≡ true
    → Agrees g (restore_group_state now (build_consumer_group id g))
unfolding restore_group_state build_consumer_group
restore_group_state-build_consumer_group now id g named h =
    subst (Agrees g)
      (sym (keeps_leader _ named (has_lem g.leader_id g.generation_id g g.members ∙ h)))
      (phase_lem g.state, refl, refl, refl, refl, members_lem g.generation_id g g.members)
