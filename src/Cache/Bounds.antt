-- ===== src/Cache/Bounds.antt =====
-- The size of the cache stays within its capacity.
use kafscale.Base.{
  ℕ, zero, suc, ◌+◌, ◌≤◌, ◌<◌, ◌≡◌, refl, List, [], ◌∷◌, ◌++◌, some, ltb, arith, length, Bool-cases,
  Option-cases, inl, inr, ap,
}
use kafscale.Base.Int.{ℤ}
use kafscale.Base.Bytes.{Bytes}
use kafscale.Base.Maps.{Str}
use kafscale.Cache.{
  CacheEntry, SegmentCache, new_segment_cache, make_key, find, without, get_segment, split_last,
  evict_loop, evict_if_needed, set_segment, place,
}

abbrev pub total : List CacheEntry → ℕ
total [] = 0
total (e ∷ es) = length e.bytes + total es

-- The size is the sum of the entries' lengths.
abbrev pub IsCounted : SegmentCache → Type 0
IsCounted c = c.size ≡ total c.entries

-- Counted, and within the capacity.
pub record Inv (c : SegmentCache) : Type 0 where
  pub counted : IsCounted c
  pub bounded : c.size ≤ c.capacity

total-append : (xs ys : List CacheEntry) → total (xs ++ ys) ≡ total xs + total ys
total-append [] ys = omega arith
total-append (x ∷ xs) ys = omega (arith, total-append xs ys)

pub split_last-append :
    (e : CacheEntry) (es : List CacheEntry)
    → (split_last e es).0 ++ (split_last e es).1 ∷ [] ≡ e ∷ es
unfolding split_last
split_last-append e [] = refl
split_last-append e (f ∷ es) = ap (◌∷◌ e) (split_last-append f es)

pub length-split_last :
    (e : CacheEntry) (es : List CacheEntry) → length (split_last e es).0 ≡ length es
unfolding split_last
length-split_last e [] = refl
length-split_last e (f ∷ es) = ap suc (length-split_last f es)

pub total-split_last :
    (e : CacheEntry) (es : List CacheEntry)
    → total (split_last e es).0 + length (split_last e es).1.bytes ≡ total (e ∷ es)
total-split_last e es = omega (
  arith,
  ap total (split_last-append e es),
  total-append (split_last e es).0 ((split_last e es).1 ∷ []),
)

pub evict_loop-capacity :
    (fuel : ℕ) (c : SegmentCache) (es : List CacheEntry)
    → (evict_loop fuel c es).capacity ≡ c.capacity
unfolding evict_loop
evict_loop-capacity fuel c [] = refl
evict_loop-capacity zero c (e ∷ es) = refl
evict_loop-capacity (suc fuel) c (e ∷ es) = elim (Bool-cases (ltb c.capacity c.size)) [
  | inl over ↦ rw over (evict_loop-capacity fuel _ (split_last e es).0)
  | inr fits ↦ rw fits
]

evict_loop-Inv :
    (fuel : ℕ) (c : SegmentCache) (es : List CacheEntry)
    → c.entries ≡ es
    → length es ≤ fuel
    → IsCounted c
    → Inv (evict_loop fuel c es)
unfolding evict_loop
evict_loop-Inv fuel c [] s h v = record { counted = v; bounded = omega (arith, ap total s) }
evict_loop-Inv zero c (e ∷ es) s h v = absurd (omega arith)
evict_loop-Inv (suc fuel) c (e ∷ es) s h v = elim (Bool-cases (ltb c.capacity c.size)) [
  | inl over ↦ rw over (
      evict_loop-Inv fuel _ (split_last e es).0 refl (omega (arith, length-split_last e es))
        (omega (arith, total-split_last e es, ap total s)))
  | inr fits ↦ rw fits (record { counted = v; bounded = ground arith })
]

evict_if_needed-Inv : (c : SegmentCache) → IsCounted c → Inv (evict_if_needed c)
unfolding evict_if_needed
evict_if_needed-Inv c v = evict_loop-Inv (length c.entries) c c.entries refl (omega arith) v

pub total-without :
    (key : Str) (es : List CacheEntry) (e : CacheEntry)
    → find key es ≡ some e
    → total (without key es) + length e.bytes ≡ total es
unfolding find without
total-without key [] e h = cc
total-without key (x ∷ es) e h = ground (arith, total-without key es e)

-- A new cache is empty and within its capacity, which is positive.
pub new_segment_cache-Inv :
    (capacity_bytes : ℕ)
    → Inv (new_segment_cache capacity_bytes) × (0 < (new_segment_cache capacity_bytes).capacity)
unfolding new_segment_cache
new_segment_cache-Inv n = ground arith

-- A lookup in a cache whose size is the sum of the cached lengths and at most the capacity leaves
-- it so.
pub get_segment-Inv :
    (c : SegmentCache) (topic : Str) (partition base_offset : ℤ)
    → Inv c
    → Inv (get_segment c topic partition base_offset).0
unfolding get_segment
get_segment-Inv c topic partition base_offset v =
    elim (Option-cases (find (make_key topic partition base_offset) c.entries)) [
      | inl e ↦ rw (e, get_segment) v
      | inr (x, e) ↦
          rw (e, get_segment)
            (record {
              counted = omega (arith, v.counted, total-without _ c.entries x e);
              bounded = v.bounded;
            })
    ]

pub place-IsCounted :
    (c : SegmentCache) (topic : Str) (partition base_offset : ℤ) (bytes : Bytes)
    → IsCounted c
    → IsCounted (place c topic partition base_offset bytes)
unfolding place
place-IsCounted c topic partition base_offset bytes v =
    elim (Option-cases (find (make_key topic partition base_offset) c.entries)) [
      | inl e ↦ rw (e, place) (omega arith)
      | inr (x, e) ↦ rw (e, place) (omega (arith, total-without _ c.entries x e))
    ]

-- If the size was the sum of the cached lengths it is so after a store, and then it is at most the
-- capacity.
pub set_segment-Inv :
    (c : SegmentCache) (topic : Str) (partition base_offset : ℤ) (bytes : Bytes)
    → IsCounted c
    → Inv (set_segment c topic partition base_offset bytes)
unfolding set_segment
set_segment-Inv c topic partition base_offset bytes v =
    evict_if_needed-Inv _ (place-IsCounted c topic partition base_offset bytes v)
