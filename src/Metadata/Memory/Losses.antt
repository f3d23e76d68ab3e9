-- ===== src/Metadata/Memory/Losses.antt =====
-- What InMemoryStore (pkg/metadata/store.go) gives back for what was stored.
use kafscale.Base.{ℕ, ◌≡◌, refl, ◌∷◌, some, arith}
use kafscale.Base.Maps.{Str, str_Key, get-put, same_refl}
use kafscale.Group.Types.{GroupState, ConsumerGroup}
use kafscale.Group.State.{default_rebalance_timeout, ensure_leader}
use kafscale.Group.Persist.{build_consumer_group, restore_group_state}
use kafscale.Metadata.Types.{InMemoryStore}
use kafscale.Metadata.Memory.Groups.{clone_consumer_group, put_consumer_group, fetch_consumer_group}

ensure_leader-timeout : (g : GroupState) → (ensure_leader g).rebalance_timeout ≡ g.rebalance_timeout
unfolding ensure_leader
ensure_leader-timeout g = ground arith

restore_group_state-clone :
    (now : ℕ) (g : ConsumerGroup)
    → (restore_group_state now (clone_consumer_group g)).rebalance_timeout
      ≡ default_rebalance_timeout
unfolding restore_group_state clone_consumer_group
restore_group_state-clone now g = ensure_leader-timeout _

-- A group that is stored and loaded again has the default rebalance timeout, whatever its own was.
-- Its id is not empty.
pub restored_timeout_is_default :
    (now c : ℕ) (cs : Str) (g : GroupState) (s : InMemoryStore)
    → let id = c ∷ cs in
      (stored : ConsumerGroup) × (fetch_consumer_group id
          (put_consumer_group (build_consumer_group id g) s).0
        ≡ some stored)
      × ((restore_group_state now stored).rebalance_timeout ≡ default_rebalance_timeout)
unfolding fetch_consumer_group put_consumer_group build_consumer_group
restored_timeout_is_default now c cs g s =
    let group = clone_consumer_group (build_consumer_group (c ∷ cs) g) in
    (
      clone_consumer_group group,
      rw
          (
            get-put (c ∷ cs) (c ∷ cs) group s.consumer_groups,
            fetch_consumer_group,
            same_refl (c ∷ cs),
          )
          refl,
      restore_group_state-clone now group,
    )
