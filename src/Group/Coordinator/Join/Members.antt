-- ===== src/Group/Coordinator/Join/Members.antt =====
-- A JoinGroup leaves the group with a leader and the member in it.
use kafscale.Base.{
  ℕ, ◌≡◌, refl, true, [], ◌⊎◌, inl, inr, arith, Bool-cases, Option-cases, ◌∙◌, none, some, Bool,
  subst,
}
use kafscale.Base.Int.{ℤ}
use kafscale.Base.Maps.{Str, str_Key, str_eq, str_eq_iff, has, put, has-put}
use kafscale.Group.Types.{MemberState, GroupState, Store}
use kafscale.Group.State.{start_rebalance, bump_rebalance_deadline, complete_if_ready}
use kafscale.Group.State.Leader.{HasLeader, start_rebalance-HasLeader, ensure_leader-HasLeader}
use kafscale.Group.Coordinator.{Coordinator, load_group, ensure_group, new_group}
use kafscale.Group.Coordinator.Invariant.{AllLed, load_group-Led, save_group-AllLed, put-AllLed}
use kafscale.Group.Coordinator.Join.{
  JoinRequest, identify, refresh, trigger, lead_if_none, ready_now, admit, join_group, enter, stamp,
  rebalance_timeout_of,
}

-- A group whose leader, if it has one, is a member.
abbrev pub LeadsOrNone : GroupState → Type 0
LeadsOrNone g = (has g.leader_id g.members ≡ true) ⊎ (g.leader_id ≡ [])

put-LeadsOrNone :
    (id : Str) (m : MemberState) (g : GroupState)
    → LeadsOrNone g
    → LeadsOrNone (record g { members = put id m g.members })
put-LeadsOrNone id m g (inl h) = inl (has-put id g.leader_id m g.members ∙ rw h (ground arith))
put-LeadsOrNone id m g (inr e) = inr e

HasLeader-LeadsOrNone : (g : GroupState) → HasLeader g → LeadsOrNone g
HasLeader-LeadsOrNone g (inl h) = inl h
HasLeader-LeadsOrNone g (inr (_, e)) = inr e

trigger-LeadsOrNone :
    (now timeout : ℕ) (member : Str) (known : Bool) (g : GroupState)
    → LeadsOrNone g
    → LeadsOrNone (trigger now timeout member known g)
unfolding trigger bump_rebalance_deadline
trigger-LeadsOrNone now timeout member known g v =
    let started =
      HasLeader-LeadsOrNone (start_rebalance now timeout g)
        (start_rebalance-HasLeader now timeout g) in
    let alone =
      HasLeader-LeadsOrNone (start_rebalance now timeout (record g { leader_id = member }))
        (start_rebalance-HasLeader now timeout (record g { leader_id = member })) in
    ground arith

lead_if_none-HasLeader : (g : GroupState) → LeadsOrNone g → HasLeader (lead_if_none g)
lead_if_none-HasLeader g v = elim (Bool-cases (str_eq g.leader_id [])) [
  | inl t ↦ rw t (ensure_leader-HasLeader g)
  | inr f ↦
      rw f (elim v [ inl h ↦ inl h | inr e ↦ absurd (ground (arith, str_eq_iff g.leader_id [])) ])
]

ready_now-HasLeader : (g : GroupState) → HasLeader g → HasLeader (ready_now g).0
unfolding ready_now complete_if_ready
ready_now-HasLeader g v = ground arith

-- The member that joins leaves the group with a leader among its members.
pub admit-HasLeader :
    (req : JoinRequest) (now : ℕ) (random : ℤ) (g : GroupState)
    → HasLeader g
    → HasLeader (admit req now random g).1
unfolding admit
admit-HasLeader req now random g v =
    let (id, m, known) = identify req random g in
    let m' = refresh req now m in
    let entered = enter req id m' g in
    let triggered = trigger now (rebalance_timeout_of req) id known entered in
    let stamped = stamp id m' triggered in
    ready_now-HasLeader (lead_if_none stamped) (
      lead_if_none-HasLeader stamped (
        put-LeadsOrNone id (record m' { join_generation = triggered.generation_id }) triggered
          (trigger-LeadsOrNone now (rebalance_timeout_of req) id known entered
            (put-LeadsOrNone id m' g (HasLeader-LeadsOrNone g v)))))

module _ {S : Type 0} (api : Store S) (now : ℕ) where
  ensure_group-Led :
      (id : Str) (c : Coordinator S)
      → AllLed c.groups
      → AllLed (ensure_group api now id c).0.groups
        × ((g : GroupState) → (ensure_group api now id c).1 ≡ some g → HasLeader g)
  unfolding ensure_group
  ensure_group-Led id c v =
      let (led, found) = load_group-Led api now id c v in
      elim (Option-cases (load_group api now id c).1) [
        | inl e ↦ rw (e, ensure_group) (led, λ g h. cc)
        | inr (some x, e) ↦
            let x_led : HasLeader x = rw e at found in
            rw (e, ensure_group) (led, λ g h. let same : x ≡ g = cc in subst HasLeader same x_led)
        | inr (none, e) ↦
            rw (e, ensure_group)
              (
                put-AllLed id (new_group api now) _ (inr (refl, refl)) led,
                λ g h.
                    let same : new_group api now ≡ g = cc in
                    subst HasLeader same (inr (refl, refl)),
              )
      ]

  -- After a JoinGroup, whatever it answers, each group held by the coordinator has a leader
  -- among its members, or neither members nor a leader, if that was so before.
  pub join_group-AllLed :
      (random : ℤ) (req : JoinRequest) (c : Coordinator S)
      → AllLed c.groups
      → AllLed (join_group api now random req c).0.groups
  unfolding join_group
  join_group-AllLed random req c v =
      let (led, found) = ensure_group-Led req.group_id c v in
      elim (Option-cases (ensure_group api now req.group_id c).1) [
        | inl e ↦ rw (e, join_group) led
        | inr (g, e) ↦
            rw (e, join_group)
              (save_group-AllLed api now req.group_id _ _
                (admit-HasLeader req now random g (found g e)) led)
      ]
