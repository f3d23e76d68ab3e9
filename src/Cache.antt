-- ===== src/Cache.antt =====
-- pkg/cache/segment_cache.go: segment bytes, least recently used out first. The lock is held around
-- each operation, so an operation is one step. The list and the map of the source hold the same
-- elements; the list stands for both, and the map's lookup is a search by key.
pub mod Bounds
pub mod Contents
use kafscale.Base.{
  ℕ, zero, suc, ◌+◌, ◌-◌, Bool, true, false, List, [], ◌∷◌, ◌++◌, Option, none, some, ltb, leb,
  ◌==◌, if◌then◌else◌, length,
}
use kafscale.Base.Int.{ℤ, pos}
use kafscale.Base.Bytes.{Bytes}
use kafscale.Base.Maps.{Str, str_eq}
use kafscale.Base.Decimal.{decimal}

pub record CacheEntry : Type 0 where
  pub key : Str
  pub topic : Str
  pub partition : ℤ  -- int32
  pub base_offset : ℤ  -- int64
  pub bytes : Bytes

-- The front of the list comes first. A subtraction from the size does not go below 0, since the
-- size is the sum of the entries' lengths.
pub record SegmentCache : Type 0 where
  pub capacity : ℕ
  pub size : ℕ
  pub entries : List CacheEntry

unfoldable pub new_segment_cache : ℕ → SegmentCache
new_segment_cache capacity_bytes = record {
  capacity = if capacity_bytes == 0 then 1 else capacity_bytes;
  size = 0;
  entries = [];
}

-- "%s:%d:%d"
unfoldable pub make_key : Str → ℤ → ℤ → Str
make_key topic partition base_offset =
    topic ++ (58 ∷ (decimal partition ++ (58 ∷ decimal base_offset)))

-- `c.items[key]`
unfoldable pub find : Str → List CacheEntry → Option CacheEntry
find key [] = none
find key (e ∷ es) = if str_eq e.key key then some e else find key es

-- The list without the element of the key.
unfoldable pub without : Str → List CacheEntry → List CacheEntry
without key [] = []
without key (e ∷ es) = if str_eq e.key key then es else e ∷ without key es

unfoldable pub get_segment : SegmentCache → Str → ℤ → ℤ → SegmentCache × Option Bytes
get_segment c topic partition base_offset =
    let key = make_key topic partition base_offset in
    elim (find key c.entries) [
      | none ↦ (c, none)
      | some e ↦ (record c { entries = e ∷ without key c.entries }, some e.bytes)
    ]

-- The last element, and those before it.
unfoldable pub split_last : CacheEntry → List CacheEntry → List CacheEntry × CacheEntry
split_last e [] = ([], e)
split_last e (f ∷ es) = let (front, last) = split_last f es in (e ∷ front, last)

-- The loop of evictIfNeeded; each round takes one element, so their number is fuel enough.
unfoldable pub evict_loop : ℕ → SegmentCache → List CacheEntry → SegmentCache
evict_loop fuel c [] = c
evict_loop zero c (e ∷ es) = c
evict_loop (suc fuel) c (e ∷ es) =
    let (front, last) = split_last e es in
    let rest =
      evict_loop fuel (record c { entries = front; size = c.size - length last.bytes }) front in
    if ltb c.capacity c.size then rest else c

unfoldable pub evict_if_needed : SegmentCache → SegmentCache
unfolding evict_loop
evict_if_needed c = evict_loop (length c.entries) c c.entries

-- SetSegment up to the call of evictIfNeeded: the entry goes to the front, old or new.
unfoldable pub place : SegmentCache → Str → ℤ → ℤ → Bytes → SegmentCache
place c topic partition base_offset bytes =
    let key = make_key topic partition base_offset in
    elim (find key c.entries) [
      | some e ↦ record c {
        size = c.size - length e.bytes + length bytes;
        entries = record e { bytes = bytes } ∷ without key c.entries;
      }
      | none ↦ record c {
        size = c.size + length bytes;
        entries =
            (record {
              key = key;
              topic = topic;
              partition = partition;
              base_offset = base_offset;
              bytes = bytes;
            })
            ∷ c.entries;
      }
    ]

unfoldable pub set_segment : SegmentCache → Str → ℤ → ℤ → Bytes → SegmentCache
set_segment c topic partition base_offset bytes =
    evict_if_needed (place c topic partition base_offset bytes)
