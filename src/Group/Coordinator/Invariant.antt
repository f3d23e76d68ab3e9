-- ===== src/Group/Coordinator/Invariant.antt =====
-- The leaders of the groups, through the handlers of pkg/broker/coordinator.go.
use kafscale.Base.{
  ℕ, ◌≡◌, false, List, [], ◌∷◌, inl, inr, arith, Bool-cases, Option-cases, ◌∙◌, Option, none, some,
  subst,
}
use kafscale.Base.Int.{ℤ}
use kafscale.Base.Maps.{Str, str_Key, str_eq, get, has, put, delete, has-put}
use kafscale.Group.Types.{MemberState, GroupState, ConsumerGroup, Store}
use kafscale.Group.State.{
  no_members, mark_stable, remove_expired_members, drop_rebalance_laggers, is_expired, is_lagger,
}
use kafscale.Group.State.Leader.{
  HasLeader, start_rebalance-HasLeader, ensure_leader-HasLeader, drop_members_none,
}
use kafscale.Group.Persist.{restore_group_state}
use kafscale.Group.Coordinator.{
  Coordinator, load_group, save_group, beat, heartbeat, leave, leave_group, settle, answer_sync,
  sync_member, sync_group, clean_group, clean_groups, cleanup_groups,
}

-- Each of the groups has a leader among its members, or neither members nor a leader.
abbrev pub AllLed : List (Str × GroupState) → Type 0
AllLed [] = Unit {0}
AllLed ((id, g) ∷ gs) = HasLeader g × AllLed gs

pub put-AllLed :
    (id : Str) (g : GroupState) (gs : List (Str × GroupState))
    → HasLeader g
    → AllLed gs
    → AllLed (put id g gs)
unfolding put
put-AllLed id g [] v h = (v, tt)
put-AllLed id g ((j, x) ∷ gs) v h = elim (Bool-cases (str_eq j id)) [
  | inl t ↦ rw t (v, h.1)
  | inr f ↦ rw f (h.0, put-AllLed id g gs v h.1)
]

delete-AllLed : (id : Str) (gs : List (Str × GroupState)) → AllLed gs → AllLed (delete id gs)
unfolding delete
delete-AllLed id [] h = tt
delete-AllLed id ((j, x) ∷ gs) h = elim (Bool-cases (str_eq j id)) [
  | inl t ↦ rw t (delete-AllLed id gs h.1)
  | inr f ↦ rw f (h.0, delete-AllLed id gs h.1)
]

get-AllLed :
    (id : Str) (gs : List (Str × GroupState)) (g : GroupState)
    → AllLed gs
    → get id gs ≡ some g
    → HasLeader g
unfolding get
get-AllLed id [] g h e = cc
get-AllLed id ((j, x) ∷ gs) g h e = elim (Bool-cases (str_eq j id)) [
  | inl t ↦
      let e' : some x ≡ some g = rw t at e in let same : x ≡ g = cc in subst HasLeader same h.0
  | inr f ↦ get-AllLed id gs g h.1 (rw f at e)
]

put-HasLeader :
    (member : Str) (m m' : MemberState) (g : GroupState)
    → get member g.members ≡ some m
    → HasLeader g
    → HasLeader (record g { members = put member m' g.members })
put-HasLeader member m m' g e (inl h) =
    inl (has-put member g.leader_id m' g.members ∙ rw h (ground arith))
put-HasLeader member m m' g e (inr (none_left, l)) = absurd (unfold get in cc (rw none_left at e))

-- What a lookup of a group gives.
abbrev pub FoundLed : Option (Option GroupState) → Type 0
FoundLed (some (some g)) = HasLeader g
FoundLed _ = Unit {0}

module _ {S : Type 0} (api : Store S) (now : ℕ) where
  pub load_group-Led :
      (id : Str) (c : Coordinator S)
      → AllLed c.groups
      → AllLed (load_group api now id c).0.groups × FoundLed (load_group api now id c).1
  unfolding load_group
  load_group-Led id c v = elim (Option-cases (get id c.groups)) [
    | inr (g, e) ↦ rw (e, load_group) (v, get-AllLed id c.groups g v e)
    | inl e ↦ elim (Option-cases (api.fetch_consumer_group id c.store)) [
      | inl f ↦ rw (e, load_group, f) (v, tt)
      | inr (none, f) ↦ rw (e, load_group, f) (v, tt)
      | inr (some stored, f) ↦
          rw (e, load_group, f) (put-AllLed id _ c.groups (restored stored) v, restored stored)
    ]
  ]
    where
      restored : (stored : ConsumerGroup) → HasLeader (restore_group_state now stored)
      restored stored = unfold restore_group_state in ensure_leader-HasLeader _

  pub save_group-AllLed :
      (id : Str) (g : GroupState) (c : Coordinator S)
      → HasLeader g
      → AllLed c.groups
      → AllLed (save_group api now id g c).0.groups
  unfolding save_group
  save_group-AllLed id g c v h = put-AllLed id g c.groups v h

  beat-AllLed :
      (id member : Str) (generation : ℤ) (g : GroupState) (c : Coordinator S)
      → HasLeader g
      → AllLed c.groups
      → AllLed (beat api now id member generation g c).0.groups
  unfolding beat
  beat-AllLed id member generation g c v h = elim (Option-cases (get member g.members)) [
    | inl e ↦ rw (e, beat) h
    | inr (m, e) ↦
        let g' = record g { members = put member (record m { last_heartbeat = now }) g.members } in
        let saved = save_group-AllLed id g' c (put-HasLeader member m _ g e v) h in
        rw (e, beat) (ground arith)
  ]

  -- After a Heartbeat, whatever it answers, each group held by the coordinator has a leader
  -- among its members, or neither members nor a leader, if that was so before.
  pub heartbeat-AllLed :
      (id member : Str) (generation : ℤ) (c : Coordinator S)
      → AllLed c.groups
      → AllLed (heartbeat api now id member generation c).0.groups
  unfolding heartbeat
  heartbeat-AllLed id member generation c v = elim (Option-cases (load_group api now id c).1) [
    | inl e ↦ rw (e, heartbeat) loaded.0
    | inr (none, e) ↦ rw (e, heartbeat) loaded.0
    | inr (some g, e) ↦
        rw (e, heartbeat) (beat-AllLed id member generation g _ (rw e at loaded.1) loaded.0)
  ]
    where
      loaded : AllLed (load_group api now id c).0.groups × FoundLed (load_group api now id c).1
      loaded = load_group-Led id c v

  leave-AllLed :
      (id member : Str) (g : GroupState) (c : Coordinator S)
      → AllLed c.groups
      → AllLed (leave api now id member g c).0.groups
  unfolding leave
  leave-AllLed id member g c h = elim (Bool-cases (has member g.members)) [
    | inr f ↦ rw (f, leave) h
    | inl t ↦ elim (Bool-cases (no_members (delete member g.members))) [
      | inl last ↦ rw (t, leave, last) (delete-AllLed id c.groups h)
      | inr more ↦
          rw (t, leave, more) (save_group-AllLed id _ c (start_rebalance-HasLeader now 0 _) h)
    ]
  ]

  -- After a LeaveGroup, whatever it answers, each group held by the coordinator has a leader
  -- among its members, or neither members nor a leader, if that was so before.
  pub leave_group-AllLed :
      (id member : Str) (c : Coordinator S)
      → AllLed c.groups
      → AllLed (leave_group api now id member c).0.groups
  unfolding leave_group
  leave_group-AllLed id member c v = elim (Option-cases (load_group api now id c).1) [
    | inl e ↦ rw (e, leave_group) loaded.0
    | inr (none, e) ↦ rw (e, leave_group) loaded.0
    | inr (some g, e) ↦ rw (e, leave_group) (leave-AllLed id member g _ loaded.0)
  ]
    where
      loaded : AllLed (load_group api now id c).0.groups × FoundLed (load_group api now id c).1
      loaded = load_group-Led id c v

  settle-HasLeader : (s : S) (g : GroupState) → HasLeader g → HasLeader (settle api now s g)
  unfolding settle mark_stable
  settle-HasLeader s g v = ground arith

  answer_sync-AllLed :
      (id member : Str) (g : GroupState) (c : Coordinator S)
      → HasLeader g
      → AllLed c.groups
      → AllLed (answer_sync api now id member g c).0.groups
  unfolding answer_sync
  answer_sync-AllLed id member g c v h =
      let saved = save_group-AllLed id g c v h in
      let kept = put-AllLed id g c.groups v h in ground arith

  sync_member-AllLed :
      (id member : Str) (g : GroupState) (c : Coordinator S)
      → HasLeader g
      → AllLed c.groups
      → AllLed (sync_member api now id member g c).0.groups
  unfolding sync_member
  sync_member-AllLed id member g c v h =
      let answered = answer_sync-AllLed id member g c v h in
      let settled =
        answer_sync-AllLed id member (settle api now c.store g) c (settle-HasLeader c.store g v)
          h in
      ground arith

  -- After a SyncGroup, whatever it answers, each group held by the coordinator has a leader
  -- among its members, or neither members nor a leader, if that was so before.
  pub sync_group-AllLed :
      (id member : Str) (generation : ℤ) (c : Coordinator S)
      → AllLed c.groups
      → AllLed (sync_group api now id member generation c).0.groups
  unfolding sync_group
  sync_group-AllLed id member generation c v = elim (Option-cases (load_group api now id c).1) [
    | inl e ↦ rw (e, sync_group) loaded.0
    | inr (none, e) ↦ rw (e, sync_group) loaded.0
    | inr (some g, e) ↦
        let synced =
          sync_member-AllLed id member g (load_group api now id c).0 (rw e at loaded.1) loaded.0 in
        let before = loaded.0 in rw (e, sync_group) (ground arith)
  ]
    where
      loaded : AllLed (load_group api now id c).0.groups × FoundLed (load_group api now id c).1
      loaded = load_group-Led id c v

  drop_rebalance_laggers_none :
      (g : GroupState)
      → (drop_rebalance_laggers now g).1 ≡ false
      → HasLeader g
      → HasLeader (drop_rebalance_laggers now g).0
  unfolding drop_rebalance_laggers
  drop_rebalance_laggers_none g h v =
      ground (arith, drop_members_none (is_lagger g.generation_id) g)

  abbrev LeftLed : Option GroupState → Type 0
  LeftLed none = Unit {0}
  LeftLed (some g) = HasLeader g

  clean_group-Led :
      (id : Str) (g : GroupState) (s : S) → HasLeader g → LeftLed (clean_group api now id g s).1
  unfolding clean_group
  clean_group-Led id g s v =
      let expired = remove_expired_members now g in
      let dropped = drop_rebalance_laggers now expired.0 in
      elim (Bool-cases (no_members dropped.0.members)) [
        | inl gone ↦ rw (gone, clean_group) tt
        | inr some_left ↦ elim (Bool-cases expired.1) [
          | inl t ↦ rw (some_left, clean_group, t) (start_rebalance-HasLeader now 0 _)
          | inr f ↦ elim (Bool-cases dropped.1) [
            | inl t ↦ rw (some_left, clean_group, f, t) (start_rebalance-HasLeader now 0 _)
            | inr f' ↦
                rw (some_left, clean_group, f, f')
                  (drop_rebalance_laggers_none expired.0 f'
                    (unfold remove_expired_members in drop_members_none (is_expired now) g f v))
          ]
        ]
      ]

  clean_groups-AllLed :
      (gs : List (Str × GroupState)) (s : S) → AllLed gs → AllLed (clean_groups api now gs s).0
  unfolding clean_groups
  clean_groups-AllLed [] s v = tt
  clean_groups-AllLed ((id, g) ∷ gs) s v =
      let cleaned = clean_group-Led id g s v.0 in
      let rest = clean_groups-AllLed gs (clean_group api now id g s).0 v.1 in ground arith

  -- After a round of the cleanup, whoever it drops, each group held by the coordinator has a leader
  -- among its members, or neither members nor a leader, if that was so before.
  pub cleanup_groups-AllLed :
      (c : Coordinator S) → AllLed c.groups → AllLed (cleanup_groups api now c).groups
  unfolding cleanup_groups
  cleanup_groups-AllLed c v = clean_groups-AllLed c.groups c.store v
