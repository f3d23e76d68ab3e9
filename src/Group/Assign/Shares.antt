-- ===== src/Group/Assign/Shares.antt =====
-- How the partitions of a topic are dealt out.
use mathlib.Core.List.{append_assoc, append-nil}
use kafscale.Base.{
  ℕ, ◌+◌, ◌%◌, ◌≡◌, refl, sym, false, ◌&&◌, List, [], ◌∷◌, ◌++◌, inl, inr, arith, Bool-cases, ◌∙◌,
  if◌then◌else◌, length, get_or,
}
use kafscale.Base.Int.{ℤ}
use kafscale.Base.Maps.{Str, str_Key, str_eq, str_eq_iff, put, get-put}
use kafscale.Group.Assign.{Result, inner, given, give, give_partitions}

given-give :
    (id topic : Str) (p : ℤ) (r : Result) (i t : Str)
    → given i t (give id topic p r)
      ≡ (if str_eq id i && str_eq topic t then given i t r ++ p ∷ [] else given i t r)
unfolding give
given-give id topic p r i t = ground (
  arith,
  get-put id i (put topic (given id topic r ++ p ∷ []) (inner id r)) r,
  get-put topic t (given id topic r ++ p ∷ []) (inner id r),
  str_eq_iff id i,
  str_eq_iff topic t,
)

-- The partitions, the first of which has index idx, that the round robin gives to a member.
pub share : List Str → Str → ℕ → List ℤ → List ℤ
share eligible id idx [] = []
share eligible id idx (p ∷ ps) =
    let rest = share eligible id (idx + 1) ps in
    if str_eq (get_or eligible (idx % length eligible) []) id then p ∷ rest else rest

-- The loop over a topic's partitions appends to what a member has of the topic the partitions at
-- the member's turns, in order, whatever was handed out before.
pub give_partitions-given :
    (eligible : List Str) (topic : Str) (ps : List ℤ) (idx : ℕ) (r : Result) (id : Str)
    → given id topic (give_partitions eligible topic ps idx r)
      ≡ given id topic r ++ share eligible id idx ps
unfolding give_partitions share
give_partitions-given eligible topic [] idx r id = sym (append-nil _)
give_partitions-given eligible topic (p ∷ ps) idx r id =
    let member = get_or eligible (idx % length eligible) [] in
    give_partitions-given eligible topic ps (idx + 1) (give member topic p r) id
    ∙ elim (Bool-cases (str_eq member id)) [
      | inl t ↦
          rw (given-give member topic p r id topic, t, (str_eq_iff topic topic).1 refl)
            (append_assoc (given id topic r) (p ∷ []) (share eligible id (idx + 1) ps))
      | inr f ↦ rw (given-give member topic p r id topic, f) refl
    ]

give_partitions_other :
    (eligible : List Str) (topic t : Str) (ps : List ℤ) (idx : ℕ) (r : Result) (id : Str)
    → str_eq topic t ≡ false
    → given id t (give_partitions eligible topic ps idx r) ≡ given id t r
unfolding give_partitions
give_partitions_other eligible topic t [] idx r id h = refl
give_partitions_other eligible topic t (p ∷ ps) idx r id h =
    give_partitions_other eligible topic t ps (idx + 1) _ id h
    ∙ given-give (get_or eligible (idx % length eligible) []) topic p r id t
    ∙ ground arith
