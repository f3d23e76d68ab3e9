-- ===== src/Group/Coordinator/Answers.antt =====
-- When the coordinator answers without an error.
use kafscale.Base.{ℕ, ◌≡◌, true, false, [], inl, inr, arith, Option-cases, none, some, ◌≢◌}
use kafscale.Base.Int.{ℤ, eqb_ℤ_iff}
use kafscale.Base.Maps.{Str, str_Key, str_eq, get, has, get-has}
use kafscale.Group.Types.{
  GroupState, Store, preparing_rebalance, completing_rebalance, stable, no_error,
  rebalance_in_progress,
}
use kafscale.Group.Coordinator.{
  Coordinator, SyncAnswer, refuse_sync, load_group, beat, heartbeat, sync_member, sync_group,
}

-- The member is one of the group's, and speaks of its current generation.
abbrev pub IsCurrent : Str → ℤ → GroupState → Type 0
IsCurrent member generation g = (has member g.members ≡ true) × (generation ≡ g.generation_id)

module _ {S : Type 0} (api : Store S) (now : ℕ) where
  beat-no_error :
      (id member : Str) (generation : ℤ) (g : GroupState) (c : Coordinator S)
      → (beat api now id member generation g c).1 ≡ no_error
      → IsCurrent member generation g × (g.state ≡ stable)
  unfolding beat
  beat-no_error id member generation g c e = elim (Option-cases (get member g.members)) [
    | inl f ↦ cc (rw (f, beat) at e)
    | inr (m, f) ↦
        let known = get-has member m g.members f in
        let e' = rw (f, beat) at e in ground (arith, eqb_ℤ_iff generation g.generation_id)
  ]

  -- A heartbeat is answered without an error only to a current member of a group that is stable.
  pub heartbeat-no_error :
      (id member : Str) (generation : ℤ) (c : Coordinator S)
      → (heartbeat api now id member generation c).1 ≡ no_error
      → (g : GroupState) × ((load_group api now id c).1 ≡ some (some g))
        × IsCurrent member generation g
        × (g.state ≡ stable)
  unfolding heartbeat
  heartbeat-no_error id member generation c e = elim (Option-cases (load_group api now id c).1) [
    | inl f ↦ cc (rw (f, heartbeat) at e)
    | inr (none, f) ↦ cc (rw (f, heartbeat) at e)
    | inr (some g, f) ↦
        let (current, steady) = beat-no_error id member generation g _ (rw (f, heartbeat) at e) in
        (g, f, current, steady)
  ]

  -- SyncGroup answers without an error only to a current member, and never while the group still
  -- waits for members to join.
  pub sync_group-no_error :
      (id member : Str) (generation : ℤ) (c : Coordinator S) {a : SyncAnswer}
      → (sync_group api now id member generation c).1 ≡ some a
      → a.code ≡ no_error
      → (g : GroupState) × ((load_group api now id c).1 ≡ some (some g))
        × IsCurrent member generation g
        × (g.state ≢ preparing_rebalance)
  unfolding sync_group sync_member
  sync_group-no_error id member generation c {a} e ok_code =
      elim (Option-cases (load_group api now id c).1) [
        | inl f ↦ cc (rw (f, sync_group) at e)
        | inr (none, f) ↦ let e' = rw (f, sync_group) at e in cc
        | inr (some g, f) ↦
            let e' = rw (f, sync_group) at e in
            (g, f, ground (arith, eqb_ℤ_iff generation g.generation_id), λ p. ground arith)
      ]

  -- While the leader has not sent the assignment of a generation, SyncGroup tells every other current
  -- member to wait, and changes nothing.
  pub sync_member_waits :
      (id member : Str) (g : GroupState) (c : Coordinator S)
      → g.state ≡ completing_rebalance
      → g.assignments ≡ []
      → str_eq member g.leader_id ≡ false
      → sync_member api now id member g c ≡ (c, refuse_sync rebalance_in_progress)
  unfolding sync_member
  sync_member_waits id member g c p none_yet other = ground arith
