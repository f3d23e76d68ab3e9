-- ===== src/Storage/Lookup.antt =====
-- findIndexEntry and computeSegmentRange of pkg/storage/log.go: where a read starts and ends.
pub mod Search
pub mod Range
use kafscale.Base.{
  ℕ, zero, suc, ◌+◌, ◌-◌, ◌/◌, ◌≡◌, refl, Bool, true, false, ◌&&◌, ◌||◌, List, [], ◌∷◌, Option,
  none, some, ltb, ◌==◌, if◌then◌else◌, length, get_or, get_elem?,
}
use kafscale.Base.Int.{ℤ, pos, negsuc, ◌+ℤ◌, ◌-ℤ◌, leb_ℤ, ltb_ℤ, eqb_ℤ, wrap64}
use kafscale.Storage.Types.{IndexEntry}
use kafscale.Storage.Segment.{segment_footer_len}

pub record SegmentRange : Type 0 where
  pub base_offset : ℤ
  pub last_offset : ℤ
  pub size : ℤ  -- int64

abbrev pub zero_entry : IndexEntry
zero_entry = record { offset = pos 0; position = pos 0 }

-- `entries[i]`, at an index that the loop keeps in range
abbrev pub at : List IndexEntry → ℕ → IndexEntry
at entries i = get_or entries i zero_entry

-- The loop of findIndexEntry. `end` is the source's `hi + 1`, since `hi` falls to -1. `none` means
-- that the fuel ran out.
unfoldable pub search_loop : ℕ → List IndexEntry → ℤ → ℕ → ℕ → Option IndexEntry
search_loop zero entries offset lo end = none
search_loop (suc fuel) entries offset lo end =
    let mid = (lo + end - 1) / 2 in
    let right = search_loop fuel entries offset (mid + 1) end in
    let left = search_loop fuel entries offset lo mid in
    if ltb lo end
    then (if eqb_ℤ (at entries mid).offset offset
        then some (at entries mid)
        else (if ltb_ℤ (at entries mid).offset offset
            then (if ltb (mid + 1) end && ltb_ℤ offset (at entries (mid + 1)).offset
                then some (at entries mid)
                else right)
            else left))
    else some (at entries 0)

-- Each round shortens the interval, so one round more than there are entries is enough.
unfoldable pub find_index_entry : List IndexEntry → ℤ → Option IndexEntry
find_index_entry [] offset = some zero_entry
find_index_entry (e ∷ es) offset =
    let entries = e ∷ es in
    if leb_ℤ offset e.offset
    then some e
    else (if leb_ℤ (at entries (length es)).offset offset
        then some (at entries (length es))
        else search_loop (suc (length entries)) entries offset 0 (length entries))

abbrev footer_z : ℤ
footer_z = pos segment_footer_len

-- The range of bytes for a read from the entry found; (-1, -1) where there is none.
unfoldable pub range_from : SegmentRange → IndexEntry → ℤ → ℤ × ℤ
range_from seg entry max_bytes =
    let start = entry.position in
    let end_limit = wrap64 (seg.size -ℤ footer_z) in
    let max_end = wrap64 (wrap64 (start +ℤ max_bytes) -ℤ pos 1) in
    let end = wrap64 (end_limit -ℤ pos 1) in
    if leb_ℤ seg.size footer_z || leb_ℤ end_limit start
    then (negsuc 0, negsuc 0)
    else (start, if ltb_ℤ (pos 0) max_bytes && ltb_ℤ max_end end then max_end else end)

unfoldable pub compute_segment_range : SegmentRange → List IndexEntry → ℤ → ℤ → Option (ℤ × ℤ)
compute_segment_range seg entries offset max_bytes = elim (find_index_entry entries offset) [
  | none ↦ none
  | some entry ↦ some (range_from seg entry max_bytes)
]
