-- ===== src/Group/State/Leader.antt =====
-- A group with members has one of them as its leader.
use kafscale.Base.{
  ℕ, ◌≡◌, refl, sym, true, false, ◌||◌, ◌&&◌, not, List, [], ◌∷◌, ◌⊎◌, inl, inr, arith, Bool-cases,
  ◌∙◌, Bool,
}
use kafscale.Base.Maps.{Str, str_Key, str_eq, str_eq_iff, has}
use kafscale.Base.Sort.{sort, insert, str_le}
use kafscale.Group.Types.{MemberState, GroupState}
use kafscale.Group.State.{
  keys, contains, no_members, sorted_members, ensure_leader, begin_rebalance, start_rebalance,
  reset_join, drop_members, kept, left, first_or_none,
}

abbrev pub HasLeader : GroupState → Type 0
HasLeader g = (has g.leader_id g.members ≡ true) ⊎ ((g.members ≡ []) × (g.leader_id ≡ []))

pub has-contains : (k : Str) (ms : List (Str × MemberState)) → has k ms ≡ contains k (keys ms)
unfolding has
has-contains k [] = refl
has-contains k ((j, m) ∷ ms) = rw (has-contains k ms)

contains-insert :
    (k x : Str) (xs : List Str) → contains k (insert str_le x xs) ≡ (str_eq x k || contains k xs)
unfolding insert
contains-insert k x [] = refl
contains-insert k x (y ∷ ys) = ground (arith, contains-insert k x ys)

contains-sort : (k : Str) (xs : List Str) → contains k (sort str_le xs) ≡ contains k xs
unfolding sort
contains-sort k [] = refl
contains-sort k (x ∷ xs) = contains-insert k x (sort str_le xs) ∙ rw (contains-sort k xs)

contains-first : (x : Str) (xs : List Str) → contains (first_or_none (x ∷ xs)) (x ∷ xs) ≡ true
contains-first x xs = ground (arith, str_eq_iff x x)

insert_nonempty :
    (x : Str) (xs : List Str) → (y : Str) × (ys : List Str) × (insert str_le x xs ≡ y ∷ ys)
unfolding insert
insert_nonempty x [] = (x, [], refl)
insert_nonempty x (z ∷ zs) = elim (Bool-cases (str_le x z)) [
  | inl t ↦ rw t (x, z ∷ zs, refl)
  | inr f ↦ rw f (z, insert str_le x zs, refl)
]

first-sort :
    (x : Str) (xs : List Str) → contains (first_or_none (sort str_le (x ∷ xs))) (x ∷ xs) ≡ true
unfolding sort
first-sort x xs =
    let (y, ys, e) = insert_nonempty x (sort str_le xs) in
    sym (contains-sort (first_or_none (sort str_le (x ∷ xs))) (x ∷ xs)) ∙ rw e (contains-first y ys)

picked :
    (ms : List (Str × MemberState))
    → (has (first_or_none (sort str_le (keys ms))) ms ≡ true)
      ⊎ ((ms ≡ []) × (first_or_none (sort str_le (keys ms)) ≡ []))
unfolding sort
picked [] = inr (refl, refl)
picked ((k, m) ∷ ms) = inl (has-contains _ ((k, m) ∷ ms) ∙ first-sort k (keys ms))

and_right : (a b : Bool) → (a && b) ≡ true → b ≡ true
and_right a b h = ground arith

-- Choosing a leader gives the group one, whatever it was before.
pub ensure_leader-HasLeader : (g : GroupState) → HasLeader (ensure_leader g)
unfolding ensure_leader sorted_members
ensure_leader-HasLeader g =
    elim (Bool-cases (not (str_eq g.leader_id []) && has g.leader_id g.members)) [
      | inl t ↦ rw t (inl (and_right _ _ t))
      | inr f ↦ rw f (picked g.members)
    ]

has-reset_join : (k : Str) (ms : List (Str × MemberState)) → has k (reset_join ms) ≡ has k ms
unfolding has
has-reset_join k [] = refl
has-reset_join k ((j, m) ∷ ms) = rw (has-reset_join k ms)

reset_join-nil : (ms : List (Str × MemberState)) → ms ≡ [] → reset_join ms ≡ []
reset_join-nil [] e = refl
reset_join-nil (x ∷ ms) e = cc

begin_rebalance-HasLeader :
    (now timeout : ℕ) (g : GroupState) → HasLeader (begin_rebalance now timeout g)
unfolding begin_rebalance
begin_rebalance-HasLeader now timeout g = elim (ensure_leader-HasLeader _) [
  | inl h ↦ inl (has-reset_join _ _ ∙ h)
  | inr (e, l) ↦ inr (reset_join-nil _ e, l)
]

no_members-nil {ℓ} : {A : Type ℓ} (xs : List A) → no_members xs ≡ true → xs ≡ []
no_members-nil [] h = refl
no_members-nil (x ∷ xs) h = cc

-- Starting a rebalance gives the group a leader, whatever it was before.
pub start_rebalance-HasLeader :
    (now timeout : ℕ) (g : GroupState) → HasLeader (start_rebalance now timeout g)
unfolding start_rebalance
start_rebalance-HasLeader now timeout g = elim (Bool-cases (no_members g.members)) [
  | inl t ↦ rw t (inr (no_members-nil g.members t, refl))
  | inr f ↦ rw f (begin_rebalance-HasLeader now _ g)
]

kept_none :
    (gone : MemberState → Bool) (ms : List (Str × MemberState))
    → no_members (left gone ms) ≡ true
    → kept gone ms ≡ ms
kept_none gone [] h = refl
kept_none gone ((k, m) ∷ ms) h = ground (arith, kept_none gone ms)

-- Where nobody leaves, the group keeps its members and its leader.
pub drop_members_none :
    (gone : MemberState → Bool) (g : GroupState)
    → (drop_members gone g).1 ≡ false
    → HasLeader g
    → HasLeader (drop_members gone g).0
unfolding drop_members
drop_members_none gone g h v =
    let none_left : no_members (left gone g.members) ≡ true = ground arith in
    rw (kept_none gone g.members none_left, no_members-nil (left gone g.members) none_left) v
