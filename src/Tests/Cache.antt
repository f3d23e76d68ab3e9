-- ===== src/Tests/Cache.antt =====
-- Runs of the segment cache.
use kafscale.Base.{ℕ, zero, suc, ◌≤◌, ◌≡◌, refl, List, [], ◌∷◌, Option, some, none, arith, length}
use kafscale.Base.Int.{pos}
use kafscale.Base.Bytes.{Bytes}
use kafscale.Base.Maps.{Str}
use kafscale.Cache.{
  SegmentCache, make_key, find, without, get_segment, split_last, evict_loop, evict_if_needed,
  place, set_segment,
}
use kafscale.Cache.Bounds.{Inv, set_segment-Inv}
use kafscale.Cache.Contents.{Evicts, set_segment-Evicts}

abbrev four_bytes : SegmentCache
four_bytes = record { capacity = 4; size = 0; entries = [] }

abbrev topic : Str
topic = 116 ∷ []

abbrev three : Bytes
three = 1 ∷ 2 ∷ 3 ∷ []

abbrev two : Bytes
two = 8 ∷ 9 ∷ []

abbrev filled : SegmentCache
filled = set_segment four_bytes topic (pos 0) (pos 0) three

-- The second segment drives the first one out.
evicted :
    (get_segment (set_segment filled topic (pos 0) (pos 7) two) topic (pos 0) (pos 0)).1 ≡ none
unfolding set_segment place get_segment evict_if_needed evict_loop split_last find without make_key
    kafscale.Base.Decimal.decimal
evicted = refl

filled-Inv : Inv filled
filled-Inv = set_segment-Inv four_bytes topic (pos 0) (pos 0) three refl

set_segment-Inv_example : Inv (set_segment filled topic (pos 0) (pos 7) two)
set_segment-Inv_example = set_segment-Inv filled topic (pos 0) (pos 7) two filled-Inv.counted

set_segment-Evicts_example :
    Evicts
      (place filled topic (pos 0) (pos 7) two).entries
      (set_segment filled topic (pos 0) (pos 7) two)
set_segment-Evicts_example = set_segment-Evicts filled topic (pos 0) (pos 7) two filled-Inv.counted

filled-capacity : length two ≤ filled.capacity
unfolding set_segment place evict_if_needed evict_loop split_last find without make_key
    kafscale.Base.Decimal.decimal
filled-capacity = omega arith
