-- ===== src/Storage/Log/Restore.antt =====
-- RestoreFromS3 of pkg/storage/log.go: a log found again in the object store.
pub mod Keys
pub mod Recovery
pub mod Uploads
pub mod Restart
pub mod Recorded
pub mod Survival
use kafscale.Base.{
  ℕ, ◌+◌, ◌-◌, Bool, true, false, ◌&&◌, ◌||◌, not, List, [], ◌∷◌, ◌++◌, Option, none, some, Result,
  ok, err, ◌==◌, if◌then◌else◌, length, take, drop,
}
use kafscale.Base.Int.{ℤ, pos, negsuc, ◌+ℤ◌, ◌-ℤ◌, leb_ℤ, ltb_ℤ, wrap64, ℤ_Key}
use kafscale.Base.Bytes.{Bytes}
use kafscale.Base.Maps.{Str, str_eq, put}
use kafscale.Base.Sort.{sort}
use kafscale.Base.Decimal.{parse_int64}
use kafscale.Storage.Types.{IndexEntry, Error, s3_failed}
use kafscale.Storage.Index.{parse_index}
use kafscale.Storage.Segment.{segment_footer_len, parse_segment_footer}
use kafscale.Storage.Lookup.{SegmentRange}
use kafscale.Storage.S3.{ByteRange, S3Object, S3Client, has_prefix}
use kafscale.Storage.Log.{PartitionLog, segment_prefix, index_key}

abbrev pub has_suffix : Str → Str → Bool
has_suffix suffix [] = str_eq suffix []
has_suffix suffix (c ∷ cs) = str_eq suffix (c ∷ cs) || has_suffix suffix cs

-- `path.Base` of a key that does not end in a slash: what follows the last slash.
unfoldable pub base_from : Str → Str → Str
base_from acc [] = acc
base_from acc (c ∷ cs) =
    let next = base_from [] cs in
    let longer = base_from (acc ++ c ∷ []) cs in if c == 47 then next else longer

-- ".kfs"
abbrev pub segment_suffix : Str
segment_suffix = 46 ∷ 107 ∷ 102 ∷ 115 ∷ []

-- "segment-"
abbrev pub segment_start : Str
segment_start = 115 ∷ 101 ∷ 103 ∷ 109 ∷ 101 ∷ 110 ∷ 116 ∷ 45 ∷ []

-- The base offset in the name of a segment, `none` for other names.
unfoldable pub parse_segment_base_offset : Str → Option ℤ
parse_segment_base_offset key =
    let name = base_from [] key in
    let trimmed = drop (length segment_start) name in
    let raw = take (length trimmed - length segment_suffix) trimmed in
    if not (has_prefix segment_start name) || not (has_suffix segment_suffix name)
    then none
    else parse_int64 raw

-- A segment found: the base from its name, the last offset from its footer.
abbrev found_at : ℤ → ℤ → ℤ → SegmentRange
found_at base last size = record { base_offset = base; last_offset = last; size = size }

abbrev pub by_base : SegmentRange → SegmentRange → Bool
by_base a b = leb_ℤ a.base_offset b.base_offset

abbrev some_segment : Result Error SegmentRange → Result Error (Option SegmentRange)
some_segment (err e) = err e
some_segment (ok seg) = ok (some seg)

abbrev pub with_found : Option SegmentRange → List SegmentRange → List SegmentRange
with_found none segs = segs
with_found (some seg) segs = seg ∷ segs

abbrev pub last_of : SegmentRange → List SegmentRange → ℤ
last_of seg [] = seg.last_offset
last_of seg (next ∷ segs) = last_of next segs

-- The log's new fields, under the lock.
unfoldable pub install :
    PartitionLog → List SegmentRange → List (ℤ × List IndexEntry) → ℤ → PartitionLog
install l segs by_offset last = record l {
  segments = segs;
  index_entries = by_offset;
  next_offset = if leb_ℤ l.next_offset last then wrap64 (last +ℤ pos 1) else l.next_offset;
}

module _ {S : Type 0} (s3 : S3Client S) where
  unfoldable pub read_footer : S3Object → ℤ → S → S × Result Error SegmentRange
  read_footer obj base s =
      let footer_range : ByteRange = record {
        start = obj.size -ℤ pos segment_footer_len;
        end = obj.size -ℤ pos 1;
      } in
      let (s', downloaded) = s3.download_segment obj.key (some footer_range) s in
      (
        s',
        elim downloaded [
          | none ↦ err s3_failed
          | some footer ↦ elim (parse_segment_footer footer) [
            | err e ↦ err e
            | ok last ↦ ok (found_at base last obj.size)
          ]
        ],
      )

  -- The body of the loop over the objects: `ok none` is a `continue`.
  unfoldable pub find_segment : S3Object → S → S × Result Error (Option SegmentRange)
  find_segment obj s =
      let small = ltb_ℤ obj.size (pos segment_footer_len) in
      let after_name : S × Result Error (Option SegmentRange) =
        elim (parse_segment_base_offset obj.key) [
          | none ↦ (s, ok none)
          | some base ↦
              let (s', footer) = read_footer obj base s in
              if small then (s, ok none) else (s', some_segment footer)
        ] in
      if not (has_suffix segment_suffix obj.key) then (s, ok none) else after_name

  unfoldable pub find_segments : List S3Object → S → S × Result Error (List SegmentRange)
  find_segments [] s = (s, ok [])
  find_segments (obj ∷ objs) s =
      let (s', found) = find_segment obj s in
      let (s'', rest) = find_segments objs s' in
      elim found [
        | err e ↦ (s', err e)
        | ok seg ↦ (s'', elim rest [ err e ↦ err e | ok segs ↦ ok (with_found seg segs) ])
      ]

  unfoldable pub read_index : PartitionLog → SegmentRange → S → S × Result Error (List IndexEntry)
  read_index l seg s =
      let (s', downloaded) = s3.download_index (index_key l seg.base_offset) s in
      (s', elim downloaded [ none ↦ err s3_failed | some bs ↦ parse_index bs ])

  unfoldable pub read_indexes :
      PartitionLog
      → List SegmentRange
      → List (ℤ × List IndexEntry)
      → S
      → S × Result Error (List (ℤ × List IndexEntry))
  read_indexes l [] by_offset s = (s, ok by_offset)
  read_indexes l (seg ∷ segs) by_offset s =
      let (s', index) = read_index l seg s in
      elim index [
        | err e ↦ (s', err e)
        | ok entries ↦ read_indexes l segs (put seg.base_offset entries by_offset) s'
      ]

  -- The last offset found, -1 in an empty store.
  unfoldable pub restore_from_s3 : PartitionLog → S → S × PartitionLog × Result Error ℤ
  restore_from_s3 l s =
      let (s', listed) = s3.list_segments (segment_prefix l) s in
      elim listed [
        | none ↦ (s', l, err s3_failed)
        | some objects ↦
            let (s'', found) = find_segments objects s' in
            elim found [
              | err e ↦ (s'', l, err e)
              | ok unsorted ↦ elim (sort by_base unsorted) [
                | [] ↦ (s'', l, ok (negsuc 0))
                | seg ∷ segs ↦
                    let (s3', indexes) = read_indexes l (seg ∷ segs) [] s'' in
                    let last = last_of seg segs in
                    elim indexes [
                      | err e ↦ (s3', l, err e)
                      | ok by_offset ↦ (s3', install l (seg ∷ segs) by_offset last, ok last)
                    ]
              ]
            ]
      ]
