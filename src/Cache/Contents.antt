-- ===== src/Cache/Contents.antt =====
-- What a store leaves in the cache.
use mathlib.Core.List.{append_assoc, append-nil}
use kafscale.Base.{
  ℕ, zero, suc, ◌+◌, ◌-◌, ◌≤◌, ◌<◌, ◌≡◌, refl, true, List, [], ◌∷◌, ◌++◌, some, ltb, arith, length,
  Bool-cases, Option-cases, inl, inr, ap, ◌∙◌, sym, ltb→lt,
}
use kafscale.Base.Int.{ℤ}
use kafscale.Base.Bytes.{Bytes}
use kafscale.Base.Maps.{Str, str_eq, str_eq_iff}
use kafscale.Cache.{
  CacheEntry, SegmentCache, make_key, find, get_segment, split_last, evict_loop, evict_if_needed,
  set_segment, place,
}
use kafscale.Cache.Bounds.{
  IsCounted, total, split_last-append, total-split_last, evict_loop-capacity, place-IsCounted,
}

-- The first entry dropped would not fit beside those that are kept.
abbrev pub IsTight : SegmentCache → List CacheEntry → Type 0
IsTight kept [] = Unit {0}
IsTight kept (d ∷ ds) = kept.capacity < total kept.entries + length d.bytes

abbrev pub Evicts : List CacheEntry → SegmentCache → Type 0
Evicts before kept =
    (dropped : List CacheEntry) × (kept.entries ++ dropped ≡ before) × IsTight kept dropped

IsTight-append :
    (kept : SegmentCache) (ds : List CacheEntry) (d : CacheEntry)
    → IsTight kept ds
    → (ds ≡ [] → kept.capacity < total kept.entries + length d.bytes)
    → IsTight kept (ds ++ d ∷ [])
IsTight-append kept [] d t h = h refl
IsTight-append kept (x ∷ ds) d t h = t

evict_loop-Evicts :
    (fuel : ℕ) (c : SegmentCache) (es : List CacheEntry)
    → c.entries ≡ es
    → IsCounted c
    → Evicts es (evict_loop fuel c es)
unfolding evict_loop
evict_loop-Evicts fuel c [] s v = ([], rw append-nil s, tt)
evict_loop-Evicts zero c (e ∷ es) s v = ([], rw append-nil s, tt)
evict_loop-Evicts (suc fuel) c (e ∷ es) s v = elim (Bool-cases (ltb c.capacity c.size)) [
  | inr fits ↦ rw fits ([], rw append-nil s, tt)
  | inl over ↦
      let (front, last) = split_last e es in
      let smaller : SegmentCache = record c {
        entries = front;
        size = c.size - length last.bytes;
      } in
      let (dropped, whole, tight) =
        evict_loop-Evicts fuel smaller front refl
          (omega (arith, total-split_last e es, ap total s)) in
      rw over (
        dropped ++ last ∷ [],
        sym (append_assoc _ dropped (last ∷ []))
            ∙ (ap (λ x. x ++ last ∷ []) whole ∙ split_last-append e es),
        IsTight-append (evict_loop fuel smaller front) dropped last tight (λ none_dropped.
            let same : (evict_loop fuel smaller front).entries ≡ front =
              sym (append-nil _)
              ∙ (ap (λ x. (evict_loop fuel smaller front).entries ++ x) (sym none_dropped)
                  ∙ whole) in
            omega (
              arith,
              evict_loop-capacity fuel smaller front,
              ap total same,
              ltb→lt c.capacity c.size over,
              total-split_last e es,
              ap total s,
            )),
      )
]

find-key :
    (key : Str) (es : List CacheEntry) (e : CacheEntry)
    → find key es ≡ some e
    → str_eq e.key key ≡ true
unfolding find
find-key key [] e h = cc
find-key key (x ∷ es) e h = ground (arith, find-key key es e)

-- Once the entry is placed, a store drops the end of the list, if anything, and already the first
-- of the dropped entries would not fit beside those kept. The size before the store is the sum of
-- the cached lengths.
pub set_segment-Evicts :
    (c : SegmentCache) (topic : Str) (partition base_offset : ℤ) (bytes : Bytes)
    → IsCounted c
    → Evicts
        (place c topic partition base_offset bytes).entries
        (set_segment c topic partition base_offset bytes)
unfolding set_segment evict_if_needed
set_segment-Evicts c topic partition base_offset bytes v =
    evict_loop-Evicts _ _ _ refl (place-IsCounted c topic partition base_offset bytes v)

place_front :
    (c : SegmentCache) (topic : Str) (partition base_offset : ℤ) (bytes : Bytes)
    → (e : CacheEntry) × (es : List CacheEntry) × ((place c topic partition base_offset
          bytes).entries
        ≡ e ∷ es)
      × (e.bytes ≡ bytes)
      × (str_eq e.key (make_key topic partition base_offset) ≡ true)
unfolding place
place_front c topic partition base_offset bytes =
    elim (Option-cases (find (make_key topic partition base_offset) c.entries)) [
      | inl e ↦
          rw (e, place)
            (_, c.entries, refl, refl, (str_eq_iff (make_key topic partition base_offset) _).1 refl)
      | inr (x, e) ↦ rw (e, place) (_, _, refl, refl, find-key _ c.entries x e)
    ]

get_segment_front :
    (r : SegmentCache) (kept dropped : List CacheEntry) (e : CacheEntry) (es : List CacheEntry)
    (topic : Str) (partition base_offset : ℤ)
    → r.entries ≡ kept
    → kept ++ dropped ≡ e ∷ es
    → IsTight r dropped
    → length e.bytes ≤ r.capacity
    → str_eq e.key (make_key topic partition base_offset) ≡ true
    → (get_segment r topic partition base_offset).1 ≡ some e.bytes
unfolding get_segment find
get_segment_front r [] [] e es t p b s whole tight fits key = cc
get_segment_front r [] (d ∷ ds) e es t p b s whole tight fits key =
    absurd (ground (arith, ap total s))
get_segment_front r (x ∷ kept) dropped e es t p b s whole tight fits key = ground arith

set_segment-capacity :
    (c : SegmentCache) (topic : Str) (partition base_offset : ℤ) (bytes : Bytes)
    → (set_segment c topic partition base_offset bytes).capacity ≡ c.capacity
unfolding set_segment evict_if_needed place
set_segment-capacity c topic partition base_offset bytes =
    evict_loop-capacity _ (place c topic partition base_offset bytes) _
    ∙ elim (Option-cases (find (make_key topic partition base_offset) c.entries)) [
      | inl e ↦ rw (e, place)
      | inr (x, e) ↦ rw (e, place)
    ]

-- A segment that fits the capacity is returned by the next lookup, if the size before the store is
-- the sum of the cached lengths.
pub get_segment-set_segment :
    (c : SegmentCache) (topic : Str) (partition base_offset : ℤ) (bytes : Bytes)
    → IsCounted c
    → length bytes ≤ c.capacity
    → (get_segment (set_segment c topic partition base_offset bytes) topic partition base_offset).1
      ≡ some bytes
get_segment-set_segment c topic partition base_offset bytes v fits =
    let (e, es, front, stored, key) = place_front c topic partition base_offset bytes in
    let (dropped, whole, tight) = set_segment-Evicts c topic partition base_offset bytes v in
    get_segment_front (set_segment c topic partition base_offset bytes) _ dropped e es topic
      partition base_offset refl (whole ∙ front) tight
      (omega (arith, set_segment-capacity c topic partition base_offset bytes, ap length stored))
      key
    ∙ ap some stored
