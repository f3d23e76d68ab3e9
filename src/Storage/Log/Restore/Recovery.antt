-- ===== src/Storage/Log/Restore/Recovery.antt =====
-- What RestoreFromS3 of pkg/storage/log.go finds in a store that holds the segments of a log.
use kafscale.Base.{
  ℕ, ◌+◌, ◌-◌, ◌≤◌, ◌<◌, ◌≡◌, refl, true, false, List, [], ◌∷◌, some, ok, map, length, take, drop,
  length-drop, arith, ap, sym, ◌∙◌, Bool-cases, inl, inr,
}
use kafscale.Base.Int.{ℤ, pos, ltb_ℤ, ◌-ℤ◌, -ℤ_pos, ℤ_Key}
use kafscale.Base.Bytes.{Bytes, All, slice}
use kafscale.Base.Maps.{Str, str_Key, get, put}
use kafscale.Base.Sort.{sort, insert}
use kafscale.Base.Shuffle.{
  Shuffle, none_left, keep, exchange, after, Shuffle-refl, Shuffle-All, Shuffle-map, Shuffle-unmap,
  AllApart, sort-Shuffle,
}
use kafscale.Storage.Types.{SegmentArtifact, IndexEntry}
use kafscale.Storage.Index.{parse_index}
use kafscale.Storage.Segment.{segment_footer_len, parse_segment_footer}
use kafscale.Storage.Lookup.{SegmentRange}
use kafscale.Storage.S3.{S3Object, MemoryS3, cut, has_prefix, objects_under, memory_s3}
use kafscale.Storage.Log.{PartitionLog, segment_prefix, segment_key, index_key}
use kafscale.Storage.Log.Restore.{
  by_base, read_footer, find_segment, find_segments, read_index, read_indexes, install,
  restore_from_s3, last_of, parse_segment_base_offset,
}
use kafscale.Storage.Log.Restore.Keys.{
  parse_segment_base_offset-segment_key, has_suffix-segment_key,
}

abbrev pub range_of : SegmentArtifact → SegmentRange
range_of a = record {
  base_offset = a.base_offset;
  last_offset = a.last_offset;
  size = pos (length a.segment_bytes);
}

abbrev pub object_of : PartitionLog → SegmentArtifact → S3Object
object_of l a = record { key = segment_key l a.base_offset; size = pos (length a.segment_bytes) }

-- The index entries that a log keeps for its segments.
abbrev pub indexes_of :
    List SegmentArtifact → List (ℤ × List IndexEntry) → List (ℤ × List IndexEntry)
indexes_of [] m = m
indexes_of (a ∷ arts) m = indexes_of arts (put a.base_offset a.relative_index m)

-- The artifact is readable: its footer and its index say what it says.
pub record IsReadable (a : SegmentArtifact) : Type 0 where
  pub base : ℕ
  pub base_is : a.base_offset ≡ pos base
  pub base_fits : base < 9223372036854775808
  pub long : segment_footer_len ≤ length a.segment_bytes
  pub footer :
      parse_segment_footer (drop (length a.segment_bytes - segment_footer_len) a.segment_bytes)
      ≡ ok a.last_offset
  pub index : parse_index a.index_bytes ≡ ok a.relative_index

-- Both objects of a segment are in the store, and can be read.
pub record IsHeld (l : PartitionLog) (s : MemoryS3) (a : SegmentArtifact) : Type 0 where
  pub readable : IsReadable a
  pub segment_stored : get (segment_key l a.base_offset) s.objects ≡ some a.segment_bytes
  pub index_stored : get (index_key l a.base_offset) s.index ≡ some a.index_bytes

-- The store's segments of this partition are these, all of them held. Visiting the store's map meets
-- each of its entries once, in whatever order.
pub record Holds (l : PartitionLog) (s : MemoryS3) (arts : List SegmentArtifact) : Type 0 where
  pub listed : objects_under (segment_prefix l) s.objects ≡ map (object_of l) arts
  pub held : All (IsHeld l s) arts
  pub visited : (m : List (Str × Bytes)) → Shuffle m (s.visit m)

take_all {ℓ} : {A : Type ℓ} (xs : List A) → take (length xs) xs ≡ xs
take_all [] = refl
take_all (x ∷ xs) = ap (◌∷◌ x) (take_all xs)

cut_tail :
    (bs : Bytes)
    → segment_footer_len ≤ length bs
    → cut (record { start = pos (length bs - segment_footer_len); end = pos (length bs - 1) }) bs
      ≡ some (
          take
            (length bs - 1 + 1 - (length bs - segment_footer_len))
            (drop (length bs - segment_footer_len) bs))
unfolding cut slice
cut_tail bs h = ground arith

cut_footer :
    (bs : Bytes)
    → segment_footer_len ≤ length bs
    → cut
        (record {
          start = pos (length bs) -ℤ pos segment_footer_len;
          end = pos (length bs) -ℤ pos 1;
        })
        bs
      ≡ some (drop (length bs - segment_footer_len) bs)
cut_footer bs h =
    let tail : Bytes = drop (length bs - segment_footer_len) bs in
    let all : length bs - 1 + 1 - (length bs - segment_footer_len) ≡ length tail =
      omega (arith, length-drop (length bs - segment_footer_len) bs) in
    rw
      (
        -ℤ_pos (length bs) segment_footer_len h,
        -ℤ_pos (length bs) 1 (omega arith),
        cut_tail bs h,
        all,
      )
      (ap some (take_all tail))

module _ (l : PartitionLog) (s : MemoryS3) where
  key_parses :
      (a : SegmentArtifact)
      → IsHeld l s a
      → parse_segment_base_offset (segment_key l a.base_offset) ≡ some a.base_offset
  key_parses a h =
      rw h.readable.base_is
        (parse_segment_base_offset-segment_key l h.readable.base h.readable.base_fits)

  read_footer-held :
      (a : SegmentArtifact)
      → IsHeld l s a
      → read_footer memory_s3 (object_of l a) a.base_offset s ≡ (s, ok (range_of a))
  unfolding read_footer memory_s3
  read_footer-held a h =
      rw (h.segment_stored, cut_footer a.segment_bytes h.readable.long, h.readable.footer)

  find_segment-held :
      (a : SegmentArtifact)
      → IsHeld l s a
      → find_segment memory_s3 (object_of l a) s ≡ (s, ok (some (range_of a)))
  unfolding find_segment
  find_segment-held a h =
      let big : ltb_ℤ (pos (length a.segment_bytes)) (pos segment_footer_len) ≡ false =
        ground (arith, h.readable.long) in
      rw (has_suffix-segment_key l a.base_offset, key_parses a h, big, read_footer-held a h)

  find_segments-held :
      (arts : List SegmentArtifact)
      → All (IsHeld l s) arts
      → find_segments memory_s3 (map (object_of l) arts) s ≡ (s, ok (map range_of arts))
  unfolding find_segments
  find_segments-held [] h = refl
  find_segments-held (a ∷ arts) h =
      rw (
        find_segment-held a h.0,
        find_segments,
        find_segment-held a h.0,
        find_segments-held arts h.1,
      )

  read_index-held :
      (a : SegmentArtifact)
      → IsHeld l s a
      → read_index memory_s3 l (range_of a) s ≡ (s, ok a.relative_index)
  unfolding read_index memory_s3
  read_index-held a h = rw (h.index_stored, h.readable.index)

  read_indexes-held :
      (arts : List SegmentArtifact) (m : List (ℤ × List IndexEntry))
      → All (IsHeld l s) arts
      → read_indexes memory_s3 l (map range_of arts) m s ≡ (s, ok (indexes_of arts m))
  unfolding read_indexes
  read_indexes-held [] m h = refl
  read_indexes-held (a ∷ arts) m h =
      rw (read_index-held a h.0, read_indexes, read_index-held a h.0)
        (read_indexes-held arts (put a.base_offset a.relative_index m) h.1)

abbrev pub Ordered : List SegmentRange → Type 0
Ordered [] = Unit {0}
Ordered (a ∷ []) = Unit {0}
Ordered (a ∷ b ∷ ss) = (by_base a b ≡ true) × Ordered (b ∷ ss)

sort-Ordered : (ss : List SegmentRange) → Ordered ss → sort by_base ss ≡ ss
unfolding sort insert
sort-Ordered [] h = refl
sort-Ordered (a ∷ []) h = refl
sort-Ordered (a ∷ b ∷ ss) h = rw (sort-Ordered (b ∷ ss) h.1, insert) (rw h.0 refl)

by_base-total : (a b : SegmentRange) → by_base a b ≡ false → by_base b a ≡ true
by_base-total a b h = ground arith

by_base_trans :
    (a b c : SegmentRange) → by_base a b ≡ true → by_base b c ≡ true → by_base a c ≡ true
by_base_trans a b c h k = ground arith

objects_under-Shuffle :
    (prefix : Str) {m m' : List (Str × Bytes)}
    → Shuffle m m'
    → Shuffle (objects_under prefix m) (objects_under prefix m')
unfolding objects_under
objects_under-Shuffle prefix none_left = none_left
objects_under-Shuffle prefix (keep (key, bs) s) = elim (Bool-cases (has_prefix prefix key)) [
  | inl under ↦ rw under (keep _ (objects_under-Shuffle prefix s))
  | inr other ↦ rw other (objects_under-Shuffle prefix s)
]
objects_under-Shuffle prefix (exchange (k, b) (k', b') m) =
    elim (Bool-cases (has_prefix prefix k)) [
      | inl under ↦ elim (Bool-cases (has_prefix prefix k')) [
        | inl under' ↦ rw (under, under') (exchange _ _ (objects_under prefix m))
        | inr other' ↦ rw (under, other') (Shuffle-refl _)
      ]
      | inr other ↦ elim (Bool-cases (has_prefix prefix k')) [
        | inl under' ↦ rw (other, under') (Shuffle-refl _)
        | inr other' ↦ rw (other, other') (Shuffle-refl _)
      ]
    ]
objects_under-Shuffle prefix (after s t) =
    after (objects_under-Shuffle prefix s) (objects_under-Shuffle prefix t)

-- A listing has the partition's segments in some order.
list_held :
    (l : PartitionLog) (s : MemoryS3) (arts : List SegmentArtifact)
    → Holds l s arts
    → (found : List SegmentArtifact) × Shuffle arts found
      × (memory_s3.list_segments (segment_prefix l) s ≡ (s, some (map (object_of l) found)))
unfolding memory_s3
list_held l s arts h =
    let (found, listed, order) =
      Shuffle-unmap (object_of l) (objects_under-Shuffle (segment_prefix l) (h.visited s.objects))
        arts h.listed in
    (found, order, rw listed refl)

-- Sorting brings the ranges found into the order of the log.
sort-found :
    (arts found : List SegmentArtifact)
    → Shuffle arts found
    → Ordered (map range_of arts)
    → AllApart by_base (map range_of arts)
    → sort by_base (map range_of found) ≡ map range_of arts
sort-found arts found order o apart =
    sym (sort-Shuffle by_base by_base-total by_base_trans (Shuffle-map range_of order) apart)
    ∙ sort-Ordered (map range_of arts) o

-- A store that holds the segments of a partition, at least one, gives back their ranges and their
-- index entries, in whatever order it lists them; the log goes on behind the last of them, unless it was
-- further on already.
pub restore_from_s3-Holds :
    (l : PartitionLog) (s : MemoryS3) (a : SegmentArtifact) (arts : List SegmentArtifact)
    → Holds l s (a ∷ arts)
    → Ordered (map range_of (a ∷ arts))
    → AllApart by_base (map range_of (a ∷ arts))
    → let last = last_of (range_of a) (map range_of arts) in
      restore_from_s3 memory_s3 l s
      ≡ (s, install l (map range_of (a ∷ arts)) (indexes_of (a ∷ arts) []) last, ok last)
unfolding restore_from_s3
restore_from_s3-Holds l s a arts h o apart =
    let (found, order, listed) = list_held l s (a ∷ arts) h in
    let read = find_segments-held l s found (Shuffle-All (IsHeld l s) order h.held) in
    let sorted = sort-found (a ∷ arts) found order o apart in
    let indexed = read_indexes-held l s (a ∷ arts) [] h.held in
    rw (listed, restore_from_s3, listed, read, sorted, listed, read, indexed, listed, read, indexed)
