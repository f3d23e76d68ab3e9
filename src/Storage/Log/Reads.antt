-- ===== src/Storage/Log/Reads.antt =====
-- Read of pkg/storage/log.go: which bytes a fetch gets.
use kafscale.Base.{
  ℕ, ◌+◌, ◌-◌, ◌&&◌, ◌||◌, List, [], ◌∷◌, Option, none, some, Result, ok, err, ltb, if◌then◌else◌,
  length, take,
}
use kafscale.Base.Int.{ℤ, ℤ_Key, pos, ◌+ℤ◌, leb_ℤ, ltb_ℤ, eqb_ℤ, pos_part, ◌-ℤ◌}
use kafscale.Base.Bytes.{Bytes, slice}
use kafscale.Base.Maps.{get}
use kafscale.Cache.{get_segment}
use kafscale.Storage.Types.{IndexEntry, Error, offset_out_of_range, s3_failed, panic}
use kafscale.Storage.Segment.{segment_footer_len, header_len}
use kafscale.Storage.Index.{is_empty}
use kafscale.Storage.Lookup.{SegmentRange, compute_segment_range}
use kafscale.Storage.S3.{S3Client, ByteRange}
use kafscale.Storage.Log.{
  PartitionLog, World, segment_key, cache_topic_key, start_prefetch, cache_segment,
}

-- The loop of Read: the first segment that holds the offset.
unfoldable pub find_segment : ℤ → List SegmentRange → Option SegmentRange
find_segment offset [] = none
find_segment offset (s ∷ ss) =
    if leb_ℤ s.base_offset offset && leb_ℤ offset s.last_offset
    then some s
    else find_segment offset ss

-- segmentIndex(base) + 1, with -1 for a segment that is not there
unfoldable pub index_after : ℤ → List SegmentRange → ℕ → ℕ
index_after base [] i = 0
index_after base (s ∷ ss) i =
    if eqb_ℤ s.base_offset base then i + 1 else index_after base ss (i + 1)

unfoldable pub slice_full_segment_data : Bytes → ℤ → Bytes
slice_full_segment_data bs max_bytes =
    let start = if ltb (length bs) header_len then length bs else header_len in
    let cut_end =
      if ltb segment_footer_len (length bs) then length bs - segment_footer_len else length bs in
    let end = if ltb cut_end start then length bs else cut_end in
    let body = slice start end bs in
    if ltb_ℤ (pos 0) max_bytes && ltb_ℤ max_bytes (pos (length body))
    then take (pos_part max_bytes) body
    else body

-- `data[start:end+1]` panics where the start lies behind the end. `none` in place of the range says
-- that the search ran out of fuel, which it does not.
unfoldable pub slice_range : Option (ℤ × ℤ) → Bytes → Result Error Bytes
slice_range none bs = err panic
slice_range (some (start, end)) bs =
    let end' = if leb_ℤ (pos (length bs)) end then pos (length bs) -ℤ pos 1 else end in
    let stop = end' +ℤ pos 1 in
    if ltb_ℤ start (pos 0) || ltb_ℤ end start
    then err offset_out_of_range
    else (if ltb_ℤ stop start then err panic else ok (slice (pos_part start) (pos_part stop) bs))

unfoldable pub slice_cached_segment :
    SegmentRange → List IndexEntry → ℤ → ℤ → Bytes → Result Error Bytes
slice_cached_segment seg entries offset max_bytes bs =
    if is_empty entries
    then ok (slice_full_segment_data bs max_bytes)
    else slice_range (compute_segment_range seg entries offset max_bytes) bs

abbrev valid_range : Option (ℤ × ℤ) → Option ByteRange
valid_range none = none
valid_range (some (start, end)) =
    if ltb_ℤ start (pos 0) || ltb_ℤ end start
    then none
    else some (record { start = start; end = end })

unfoldable pub segment_range_for_offset : SegmentRange → List IndexEntry → ℤ → ℤ → Option ByteRange
segment_range_for_offset seg entries offset max_bytes =
    if leb_ℤ seg.size (pos 0) || is_empty entries
    then none
    else valid_range (compute_segment_range seg entries offset max_bytes)

abbrev pub entries_of : PartitionLog → SegmentRange → List IndexEntry
entries_of l seg = elim (get seg.base_offset l.index_entries) [ none ↦ [] | some es ↦ es ]

-- The cache's answer, if there is a cache in use.
unfoldable pub cached :
    {S : Type 0} → PartitionLog → SegmentRange → World S → World S × Option Bytes
cached l seg w = elim w.cache [
  | none ↦ (w, none)
  | some c ↦
      let (c', hit) = get_segment c (cache_topic_key l) l.partition seg.base_offset in
      if l.cfg.cache_enabled then (record w { cache = some c' }, hit) else (w, none)
]

abbrev or_failed : Option Bytes → Result Error Bytes
or_failed none = err s3_failed
or_failed (some bs) = ok bs

-- The part of Read behind a cache miss. A range is returned as it comes; a whole segment is cached
-- and cut. A failed download returns before the prefetch.
unfoldable pub read_remote :
    {S : Type 0}
    → S3Client S
    → PartitionLog
    → SegmentRange
    → ℤ
    → ℤ
    → World S
    → World S × Result Error Bytes
read_remote s3 l seg offset max_bytes w =
    let entries = entries_of l seg in
    let next = index_after seg.base_offset l.segments 0 in
    let key = segment_key l seg.base_offset in
    elim (segment_range_for_offset seg entries offset max_bytes) [
      | some rng ↦
          let (s, got) = s3.download_segment key (some rng) w.s3 in
          let w' = record w { s3 = s } in
          elim got [ none ↦ (w', err s3_failed) | some bs ↦ (start_prefetch l next w', ok bs) ]
      | none ↦
          let (s, got) = s3.download_segment key none w.s3 in
          let w' = record w { s3 = s } in
          elim got [
            | none ↦ (w', err s3_failed)
            | some bs ↦ (
              start_prefetch l next (cache_segment l seg.base_offset bs w'),
              slice_cached_segment seg entries offset max_bytes bs,
            )
          ]
    ]

unfoldable pub read_segment :
    {S : Type 0}
    → S3Client S
    → PartitionLog
    → SegmentRange
    → ℤ
    → ℤ
    → World S
    → World S × Result Error Bytes
read_segment s3 l seg offset max_bytes w =
    let (w', hit) = cached l seg w in
    elim hit [
      | some bs ↦ (
        start_prefetch l (index_after seg.base_offset l.segments 0) w',
        slice_cached_segment seg (entries_of l seg) offset max_bytes bs,
      )
      | none ↦ read_remote s3 l seg offset max_bytes w'
    ]

unfoldable pub read_log :
    {S : Type 0} → S3Client S → PartitionLog → ℤ → ℤ → World S → World S × Result Error Bytes
read_log s3 l offset max_bytes w = elim (find_segment offset l.segments) [
  | none ↦ (w, err offset_out_of_range)
  | some seg ↦ read_segment s3 l seg offset max_bytes w
]

-- A goroutine started by startPrefetch: the first segment still to fetch, with no effect if the
-- download fails.
unfoldable pub prefetch_step : {S : Type 0} → S3Client S → PartitionLog → World S → World S
prefetch_step s3 l w = elim w.prefetches [
  | [] ↦ w
  | seg ∷ segs ↦
      let (s, got) = s3.download_segment (segment_key l seg.base_offset) none w.s3 in
      let w' = record w { s3 = s; prefetches = segs } in
      elim got [ none ↦ w' | some bs ↦ cache_segment l seg.base_offset bs w' ]
]
