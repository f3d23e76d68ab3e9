-- ===== src/Metadata/Memory/WellFormed.antt =====
-- Topics with distinct names and numbered partitions, as the methods of InMemoryStore
-- (pkg/metadata/store.go) keep them.
use kafscale.Base.{
  ℕ, zero, suc, ◌+◌, ◌-◌, ◌≡◌, refl, sym, subst, false, ◌||◌, ◌&&◌, List, [], ◌∷◌, ◌++◌, Option,
  none, some, ltb, leb, if◌then◌else◌, length, arith, Bool-cases, inl, inr, ◌∙◌,
}
use kafscale.Base.Int.{ℤ, pos, pos_part, leb_ℤ, ltb_ℤ}
use kafscale.Base.Bytes.{Bytes, All, All-append_one}
use kafscale.Base.Maps.{Str, str_Key, str_eq, str_eq_iff}
use kafscale.Metadata.Types.{MetadataPartition, MetadataTopic, TopicSpec, InMemoryStore}
use kafscale.Metadata.Memory.{
  has_topic, find_topic, new_partitions, default_leader_id, new_topic, create_topic,
}
use kafscale.Metadata.Memory.Topics.{set_topic, remove_topic, create_partitions, delete_topic}
use kafscale.Metadata.Memory.Offsets.{has_partition, topic_has_partition}

abbrev pub Distinct : List MetadataTopic → Type 0
Distinct [] = Unit {0}
Distinct (t ∷ ts) = (has_topic t.name ts ≡ false) × Distinct ts

-- The partitions have the indexes from n on, in order.
abbrev pub Indexed : ℕ → List MetadataPartition → Type 0
Indexed n [] = Unit {0}
Indexed n (p ∷ ps) = (p.partition_index ≡ pos n) × Indexed (suc n) ps

abbrev pub IsIndexed : MetadataTopic → Type 0
IsIndexed t = Indexed 0 t.partitions

-- No two topics have the same name, and the partitions of each are numbered from 0 on.
pub record WellFormed (s : InMemoryStore) : Type 0 where
  pub distinct : Distinct s.state.topics
  pub indexed : All IsIndexed s.state.topics

Indexed-new_partitions :
    (leader : ℤ) (first count : ℕ) → Indexed first (new_partitions leader first count)
unfolding new_partitions
Indexed-new_partitions leader first zero = tt
Indexed-new_partitions leader first (suc count) =
    (refl, Indexed-new_partitions leader (suc first) count)

Indexed-append :
    (n m : ℕ) (ps qs : List MetadataPartition)
    → Indexed n ps
    → n + length ps ≡ m
    → Indexed m qs
    → Indexed n (ps ++ qs)
Indexed-append n m [] qs h e k = subst (λ x. Indexed x qs) (omega arith) k
Indexed-append n m (p ∷ ps) qs h e k = (h.0, Indexed-append (suc n) m ps qs h.1 (omega arith) k)

pub has_topic-append :
    (x : Str) (ts : List MetadataTopic) (t : MetadataTopic)
    → has_topic x (ts ++ t ∷ []) ≡ (has_topic x ts || str_eq t.name x)
has_topic-append x [] t = ground arith
has_topic-append x (u ∷ ts) t = ground (arith, has_topic-append x ts t)

str_eq_comm : (a b : Str) → str_eq a b ≡ str_eq b a
str_eq_comm a b = ground (arith, str_eq_iff a b, str_eq_iff b a)

Distinct-append :
    (ts : List MetadataTopic) (t : MetadataTopic)
    → has_topic t.name ts ≡ false
    → Distinct ts
    → Distinct (ts ++ t ∷ [])
Distinct-append [] t h d = (refl, tt)
Distinct-append (u ∷ ts) t h d = (
  has_topic-append u.name ts t ∙ ground (arith, str_eq_comm t.name u.name),
  Distinct-append ts t (ground (arith, h)) d.1,
)

set_topic-has_topic :
    (name x : Str) (t : MetadataTopic) (ts : List MetadataTopic)
    → t.name ≡ name
    → has_topic x (set_topic name t ts) ≡ has_topic x ts
set_topic-has_topic name x t [] e = refl
set_topic-has_topic name x t (u ∷ ts) e =
    ground (arith, str_eq_iff u.name name, set_topic-has_topic name x t ts e)

set_topic-Distinct :
    (name : Str) (t : MetadataTopic) (ts : List MetadataTopic)
    → t.name ≡ name
    → Distinct ts
    → Distinct (set_topic name t ts)
set_topic-Distinct name t [] e d = tt
set_topic-Distinct name t (u ∷ ts) e d = elim (Bool-cases (str_eq u.name name)) [
  | inl same ↦
      rw same
        (subst (λ x. has_topic x ts ≡ false) ((str_eq_iff u.name name).0 same ∙ sym e) d.0, d.1)
  | inr other ↦
      rw other (set_topic-has_topic name u.name t ts e ∙ d.0, set_topic-Distinct name t ts e d.1)
]

set_topic-IsIndexed :
    (name : Str) (t : MetadataTopic) (ts : List MetadataTopic)
    → IsIndexed t
    → All IsIndexed ts
    → All IsIndexed (set_topic name t ts)
set_topic-IsIndexed name t [] h all = tt
set_topic-IsIndexed name t (u ∷ ts) h all = elim (Bool-cases (str_eq u.name name)) [
  | inl same ↦ rw same (h, all.1)
  | inr other ↦ rw other (all.0, set_topic-IsIndexed name t ts h all.1)
]

remove_topic-has_topic :
    (name x : Str) (ts : List MetadataTopic)
    → has_topic x ts ≡ false
    → has_topic x (remove_topic name ts) ≡ false
remove_topic-has_topic name x [] h = refl
remove_topic-has_topic name x (u ∷ ts) h = ground (arith, remove_topic-has_topic name x ts)

remove_topic-Distinct :
    (name : Str) (ts : List MetadataTopic) → Distinct ts → Distinct (remove_topic name ts)
remove_topic-Distinct name [] d = tt
remove_topic-Distinct name (u ∷ ts) d = elim (Bool-cases (str_eq u.name name)) [
  | inl same ↦ rw same d.1
  | inr other ↦
      rw other (remove_topic-has_topic name u.name ts d.0, remove_topic-Distinct name ts d.1)
]

remove_topic-IsIndexed :
    (name : Str) (ts : List MetadataTopic) → All IsIndexed ts → All IsIndexed (remove_topic name ts)
remove_topic-IsIndexed name [] all = tt
remove_topic-IsIndexed name (u ∷ ts) all = elim (Bool-cases (str_eq u.name name)) [
  | inl same ↦ rw same all.1
  | inr other ↦ rw other (all.0, remove_topic-IsIndexed name ts all.1)
]

find_topic-found :
    (name : Str) (ts : List MetadataTopic) {t : MetadataTopic}
    → find_topic name ts ≡ some t
    → All IsIndexed ts
    → (t.name ≡ name) × IsIndexed t
find_topic-found name [] e all = cc
find_topic-found name (u ∷ ts) {t} e all = elim (Bool-cases (str_eq u.name name)) [
  | inl same ↦
      let found : ◌≡◌ {A = Option MetadataTopic} (some u) (some t) = rw same at e in
      let same_topic : u ≡ t = cc in
      subst (λ (x : MetadataTopic). (x.name ≡ name) × IsIndexed x) same_topic
        ((str_eq_iff u.name name).0 same, all.0)
  | inr other ↦ find_topic-found name ts (rw other at e) all.1
]

has_topic-absent :
    (name : Str) (ts : List MetadataTopic) → find_topic name ts ≡ none → has_topic name ts ≡ false
has_topic-absent name [] e = refl
has_topic-absent name (t ∷ ts) e = ground (arith, has_topic-absent name ts)

module _ (sha1 : Bytes → Bytes) where
  pub create_topic-WellFormed :
      (created : Str) (spec : TopicSpec) (s : InMemoryStore)
      → WellFormed s
      → WellFormed (create_topic sha1 created spec s).0
  unfolding create_topic
  create_topic-WellFormed created spec s w =
      let topic = new_topic sha1 (default_leader_id s) spec in
      elim (Bool-cases (str_eq spec.name [] || leb_ℤ spec.num_partitions (pos 0))) [
        | inl bad ↦ rw bad w
        | inr good ↦ elim (Bool-cases (has_topic spec.name s.state.topics)) [
          | inl old ↦ rw (good, old) w
          | inr new ↦
              elim (Bool-cases (
                ltb_ℤ (pos (length s.state.brokers)) (
                  if leb_ℤ spec.replication_factor (pos 0)
                  then pos 1
                  else spec.replication_factor))) [
                    | inl many ↦ rw (good, new, many) w
                    | inr few ↦
                        rw (good, new, few)
                          (record {
                            distinct = Distinct-append s.state.topics topic new w.distinct;
                            indexed = All-append_one IsIndexed s.state.topics topic w.indexed (
                                Indexed-new_partitions (default_leader_id s) 0
                                  (pos_part spec.num_partitions));
                          })
                  ]
        ]
      ]

pub create_partitions-WellFormed :
    (created topic : Str) (count : ℤ) (s : InMemoryStore) (found : Option MetadataTopic)
    → find_topic topic s.state.topics ≡ found
    → WellFormed s
    → WellFormed (create_partitions created topic count s).0
unfolding create_partitions
create_partitions-WellFormed created topic count s none e w =
    elim (Bool-cases (str_eq topic [] || leb_ℤ count (pos 0))) [
      | inl bad ↦ rw bad w
      | inr good ↦ rw (good, e) w
    ]
create_partitions-WellFormed created topic count s (some t) e w =
    let (name, indexed) = find_topic-found topic s.state.topics e w.indexed in
    let more =
      new_partitions (default_leader_id s) (length t.partitions)
        (pos_part count - length t.partitions) in
    let t' : MetadataTopic = record t { partitions = t.partitions ++ more } in
    let indexed' : IsIndexed t' =
      Indexed-append 0 (length t.partitions) t.partitions more indexed (omega arith)
        (Indexed-new_partitions (default_leader_id s) (length t.partitions) _) in
    elim (Bool-cases (str_eq topic [] || leb_ℤ count (pos 0))) [
      | inl bad ↦ rw bad w
      | inr good ↦ elim (Bool-cases (leb_ℤ count (pos (length t.partitions)))) [
        | inl fewer ↦ rw (good, e, fewer) w
        | inr more' ↦
            rw (good, e, more')
              (record {
                distinct = set_topic-Distinct topic t' s.state.topics name w.distinct;
                indexed = set_topic-IsIndexed topic t' s.state.topics indexed' w.indexed;
              })
      ]
    ]

pub delete_topic-WellFormed :
    (name : Str) (s : InMemoryStore) → WellFormed s → WellFormed (delete_topic name s).0
unfolding delete_topic
delete_topic-WellFormed name s w = elim (Bool-cases (has_topic name s.state.topics)) [
  | inl there ↦ rw there (record {
    distinct = remove_topic-Distinct name s.state.topics w.distinct;
    indexed = remove_topic-IsIndexed name s.state.topics w.indexed;
  })
  | inr absent ↦ rw absent w
]

has_partition-Indexed :
    (n i : ℕ) (ps : List MetadataPartition)
    → Indexed n ps
    → has_partition (pos i) ps ≡ (leb n i && ltb i (n + length ps))
has_partition-Indexed n i [] h = ground arith
has_partition-Indexed n i (p ∷ ps) h =
    rw (h.0, has_partition-Indexed (suc n) i ps h.1) (ground arith)

-- A partition of a well-formed store exists if and only if its index is below the number of
-- partitions of the topic.
pub topic_has_partition-WellFormed :
    (s : InMemoryStore) (name : Str) (t : MetadataTopic) (i : ℕ)
    → WellFormed s
    → find_topic name s.state.topics ≡ some t
    → topic_has_partition s.state.topics name (pos i) ≡ ltb i (length t.partitions)
unfolding topic_has_partition
topic_has_partition-WellFormed s name t i w e =
    rw
      (
        e,
        topic_has_partition,
        has_partition-Indexed 0 i t.partitions (find_topic-found name s.state.topics e w.indexed).1,
      )
      (ground arith)
