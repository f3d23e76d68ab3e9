-- ===== src/Group/Coordinator/Admin/Deleted.antt =====
-- What DeleteGroups of pkg/broker/coordinator.go removes.
use kafscale.Base.{◌≡◌, refl, false, List, [], ◌∷◌, Option, none, some, arith, Bool-cases, inl, inr}
use kafscale.Base.Bytes.{All}
use kafscale.Base.Maps.{Str, str_Key, has, has-delete, same_refl}
use kafscale.Group.Types.{ConsumerGroup, Store, ErrorCode, no_error, group_id_not_found}
use kafscale.Group.Coordinator.{Coordinator}
use kafscale.Group.Coordinator.Admin.{delete_group_state, delete_one, delete_groups, is_blank}

-- The group is not in the coordinator's memory, if the answer says that it was deleted or is not
-- known to the store.
abbrev pub IsGone : {S : Type 0} → Coordinator S → Str × ErrorCode → Type 0
IsGone c (id, code) = elim code [
  | no_error ↦ has id c.groups ≡ false
  | group_id_not_found ↦ has id c.groups ≡ false
  | other ↦ Unit {0}
]

module _ {S : Type 0} (api : Store S) where
  delete_group_state-absent :
      (x id : Str) (c : Coordinator S)
      → has x c.groups ≡ false
      → has x (delete_group_state api id c).groups ≡ false
  unfolding delete_group_state
  delete_group_state-absent x id c h = ground (arith, has-delete id x c.groups)

  delete_group_state-gone :
      (id : Str) (c : Coordinator S) → has id (delete_group_state api id c).groups ≡ false
  unfolding delete_group_state
  delete_group_state-gone id c = ground (arith, has-delete id id c.groups, same_refl id)

  delete_found-absent :
      (x id : Str) (c : Coordinator S) (found : Option (Option ConsumerGroup))
      → api.fetch_consumer_group id c.store ≡ found
      → has x c.groups ≡ false
      → has x (delete_one api id c).0.groups ≡ false
  unfolding delete_one
  delete_found-absent x id c none e h = rw (e, delete_one) (ground (arith, h))
  delete_found-absent x id c (some none) e h =
      rw (e, delete_one) (ground (arith, h, delete_group_state-absent x id c h))
  delete_found-absent x id c (some (some g)) e h =
      rw (e, delete_one)
        (ground (
          arith,
          h,
          delete_group_state-absent x id
              (record c { store = (api.delete_consumer_group id c.store).0 }) h,
        ))

  delete_named-IsGone :
      (id : Str) (c : Coordinator S) (found : Option (Option ConsumerGroup))
      → is_blank id ≡ false
      → api.fetch_consumer_group id c.store ≡ found
      → IsGone (delete_one api id c).0 (id, (delete_one api id c).1)
  unfolding delete_one
  delete_named-IsGone id c none named e = rw (named, e, delete_one) tt
  delete_named-IsGone id c (some none) named e =
      rw (named, e, delete_one) (delete_group_state-gone id c)
  delete_named-IsGone id c (some (some g)) named e =
      let (s, deleted) = api.delete_consumer_group id c.store in
      elim (Bool-cases deleted) [
        | inl t ↦ rw (named, e, delete_one, t) (delete_group_state-gone id (record c { store = s }))
        | inr f ↦ rw (named, e, delete_one, f) tt
      ]

  delete_found-IsGone :
      (id : Str) (c : Coordinator S) (found : Option (Option ConsumerGroup))
      → api.fetch_consumer_group id c.store ≡ found
      → IsGone (delete_one api id c).0 (id, (delete_one api id c).1)
  unfolding delete_one
  delete_found-IsGone id c found e = elim (Bool-cases (is_blank id)) [
    | inl blank ↦ rw (blank, delete_one) tt
    | inr named ↦ delete_named-IsGone id c found named e
  ]

  delete_groups-absent :
      (x : Str) (ids : List Str) (c : Coordinator S)
      → has x c.groups ≡ false
      → has x (delete_groups api ids c).0.groups ≡ false
  unfolding delete_groups
  delete_groups-absent x [] c h = h
  delete_groups-absent x (id ∷ ids) c h =
      delete_groups-absent x ids (delete_one api id c).0
        (delete_found-absent x id c (api.fetch_consumer_group id c.store) refl h)

  IsGone-delete_groups :
      (id : Str) (code : ErrorCode) (ids : List Str) (c : Coordinator S)
      → IsGone c (id, code)
      → IsGone (delete_groups api ids c).0 (id, code)
  IsGone-delete_groups id no_error ids c h = delete_groups-absent id ids c h
  IsGone-delete_groups id group_id_not_found ids c h = delete_groups-absent id ids c h
  IsGone-delete_groups id _ ids c h = tt

  -- After DeleteGroups no group that it reports as deleted, or as unknown to the store, is left in
  -- the coordinator's memory, whatever the other groups of the request and whatever the store does.
  pub delete_groups-IsGone :
      (ids : List Str) (c : Coordinator S)
      → let (c', codes) = delete_groups api ids c in All (IsGone c') codes
  unfolding delete_groups
  delete_groups-IsGone [] c = tt
  delete_groups-IsGone (id ∷ ids) c =
      let (c', code) = delete_one api id c in
      (
        IsGone-delete_groups id code ids c'
            (delete_found-IsGone id c (api.fetch_consumer_group id c.store) refl),
        delete_groups-IsGone ids c',
      )
