-- ===== src/Storage/Log/Restore/Restart.antt =====
-- A partition log of pkg/storage/log.go that is lost and restored from the store it was flushed to.
use kafscale.Base.{
  ℕ, suc, ◌+◌, ◌/◌, ◌≤◌, ◌<◌, ◌≡◌, ◌≢◌, refl, List, [], ◌∷◌, ◌++◌, ok, map, length, length-append,
  arith, ap, sym, ◌∙◌, Bool-cases, Result-cases, inl, inr,
}
use mathlib.Core.List.{map-append}
use kafscale.Base.Int.{ℤ, pos, negsuc, pos_part, ℤ_Key}
use kafscale.Base.Bytes.{Bytes, All}
use kafscale.Base.Maps.{put}
use kafscale.Storage.Types.{RecordBatch, SegmentArtifact, IndexEntry}
use kafscale.Storage.Segment.{build_segment}
use kafscale.Storage.Segment.RoundTrip.{parse_segment_footer-build_segment}
use kafscale.Storage.Segment.Readable.{HasOffset, parse_index-build_segment, build_segment_long}
use kafscale.Storage.Lookup.{SegmentRange}
use kafscale.Storage.Buffer.{WriteBuffer, drain, append, should_flush}
use kafscale.Storage.S3.{MemoryS3, memory_s3}
use kafscale.Storage.Log.{
  PartitionLog, World, segment_prefix, segment_key, index_key, add_segment, cache_segment,
  start_prefetch, upload_artifact, flush_locked, buffer_batch, append_batch,
}
use kafscale.Storage.Log.Order.{Chain, Ranges, Chain-le}
use kafscale.Storage.Log.Offsets.{Inv, artifact-Chain, buffer_batch-Inv, buffer_batch-ok}
use kafscale.Storage.Log.Restore.{by_base, last_of, install, restore_from_s3}
use kafscale.Base.Shuffle.{Apart, AllApart}
use kafscale.Storage.Log.Restore.Recovery.{
  range_of, object_of, indexes_of, IsReadable, IsHeld, Holds, Ordered, restore_from_s3-Holds,
}
use kafscale.Storage.Log.Restore.Uploads.{stored, stored-Holds}

-- The store holds exactly the segments of the log, with their index entries.
pub record Mirrors (l : PartitionLog) (s : MemoryS3) : Type 0 where
  pub arts : List SegmentArtifact
  pub holds : Holds l s arts
  pub segments_are : l.segments ≡ map range_of arts
  pub indexes_are : l.index_entries ≡ indexes_of arts []

HasOffset-Chain :
    (n m : ℕ) (bs : List RecordBatch) → Chain n bs m → m < 9223372036854775808 → All HasOffset bs
HasOffset-Chain n m [] c h = tt
HasOffset-Chain n m (b ∷ bs) (d, base, delta, c) h = (
  rw base (omega (arith, Chain-le (n + d + 1) m bs c), omega arith),
  HasOffset-Chain (n + d + 1) m bs c h,
)

-- What a log in order makes of its buffer can be read back.
build_segment-IsReadable :
    (l : PartitionLog) (created : ℤ) {a : SegmentArtifact}
    → Inv l
    → length l.buffer.batches < 2147483648
    → build_segment l.cfg.segment l.buffer.batches created ≡ ok a
    → IsReadable a
build_segment-IsReadable l created v few built =
    let (e, base, _, le, m) =
      artifact-Chain l created v.start v.next l.buffer.batches v.buffered v.next_fits built in
    record {
      base = v.start;
      base_is = base;
      base_fits = omega (arith, v.next_fits);
      long = build_segment_long l.cfg.segment l.buffer.batches created built;
      footer = parse_segment_footer-build_segment l.cfg.segment l.buffer.batches created built;
      index =
          parse_index-build_segment l.cfg.segment l.buffer.batches created built
            (HasOffset-Chain v.start v.next l.buffer.batches v.buffered v.next_fits) few;
    }

-- Only the names of a log matter to where its segments are.
All-IsHeld :
    (l l' : PartitionLog) (s : MemoryS3) (arts : List SegmentArtifact)
    → segment_prefix l' ≡ segment_prefix l
    → All (IsHeld l s) arts
    → All (IsHeld l' s) arts
unfolding segment_key index_key
All-IsHeld l l' s [] e h = tt
All-IsHeld l l' s (a ∷ arts) e (held, h) = (
  record {
    readable = held.readable;
    segment_stored = rw e held.segment_stored;
    index_stored = rw e held.index_stored;
  },
  All-IsHeld l l' s arts e h,
)

objects_same :
    (l l' : PartitionLog) (arts : List SegmentArtifact)
    → segment_prefix l' ≡ segment_prefix l
    → map (object_of l') arts ≡ map (object_of l) arts
unfolding segment_key
objects_same l l' [] e = refl
objects_same l l' (a ∷ arts) e = rw (e, objects_same l l' arts e) refl

Holds-rename :
    (l l' : PartitionLog) (s : MemoryS3) (arts : List SegmentArtifact)
    → segment_prefix l' ≡ segment_prefix l
    → Holds l s arts
    → Holds l' s arts
Holds-rename l l' s arts e h = record {
  listed = rw e (h.listed ∙ sym (objects_same l l' arts e));
  held = All-IsHeld l l' s arts e h.held;
  visited = h.visited;
}

-- A change of the buffer and of the next offset is no change of what was flushed.
Mirrors-buffered :
    (l : PartitionLog) (next : ℤ) (buffer : WriteBuffer) (s : MemoryS3)
    → Mirrors l s
    → Mirrors (record l { next_offset = next; buffer = buffer }) s
unfolding segment_prefix
Mirrors-buffered l next buffer s m = record {
  arts = m.arts;
  holds = Holds-rename l _ s m.arts refl m.holds;
  segments_are = m.segments_are;
  indexes_are = m.indexes_are;
}

pub Ranges-le : (lo hi : ℕ) (ss : List SegmentRange) → Ranges lo ss hi → lo ≤ hi
Ranges-le lo hi [] r = omega arith
Ranges-le lo hi (s ∷ ss) (b, e, _, _, le, le', r) = omega (arith, Ranges-le (suc e) hi ss r)

-- Every segment in order begins before the end.
bases_differ :
    (lo hi : ℕ) (arts : List SegmentArtifact) (base : ℤ)
    → Ranges lo (map range_of arts) hi
    → base ≡ pos hi
    → All (λ (b : SegmentArtifact). b.base_offset ≢ base) arts
bases_differ lo hi [] base r e = tt
bases_differ lo hi (a ∷ arts) base (b, last, base_b, _, _, le, r) e =
    let below : suc last ≤ hi = Ranges-le (suc last) hi (map range_of arts) r in
    (
      λ x. absurd (omega (arith, ap pos_part (sym base_b ∙ x ∙ e))),
      bases_differ (suc last) hi arts base r e,
    )

indexes_of-append :
    (arts : List SegmentArtifact) (a : SegmentArtifact) (m : List (ℤ × List IndexEntry))
    → indexes_of (arts ++ a ∷ []) m ≡ put a.base_offset a.relative_index (indexes_of arts m)
indexes_of-append [] a m = refl
indexes_of-append (b ∷ arts) a m = indexes_of-append arts a (put b.base_offset b.relative_index m)

Ranges-Ordered : (lo hi : ℕ) (ss : List SegmentRange) → Ranges lo ss hi → Ordered ss
Ranges-Ordered lo hi [] r = tt
Ranges-Ordered lo hi (a ∷ []) r = tt
Ranges-Ordered lo hi (a ∷ b ∷ ss) (x, e, base, _, _, le, r) =
    (rw (base, r.2) (ground arith), Ranges-Ordered (suc e) hi (b ∷ ss) r)

Ranges-above :
    (a : SegmentRange) (b lo hi : ℕ) (ss : List SegmentRange)
    → a.base_offset ≡ pos b
    → b < lo
    → Ranges lo ss hi
    → All (Apart by_base a) ss
Ranges-above a b lo hi [] base below r = tt
Ranges-above a b lo hi (s ∷ ss) base below (x, e, base', _, le, le', r) =
    (rw (base, base') (ground arith), Ranges-above a b (suc e) hi ss base (omega arith) r)

Ranges-AllApart : (lo hi : ℕ) (ss : List SegmentRange) → Ranges lo ss hi → AllApart by_base ss
Ranges-AllApart lo hi [] r = tt
Ranges-AllApart lo hi (a ∷ ss) (x, e, base, _, _, le, r) =
    (Ranges-above a x (suc e) hi ss base (omega arith) r, Ranges-AllApart (suc e) hi ss r)

Mirrors-add :
    (l : PartitionLog) (a : SegmentArtifact) (s : MemoryS3) (hi : ℕ) (r : IsReadable a)
    → Ranges 0 l.segments hi
    → a.base_offset ≡ pos hi
    → Mirrors l s
    → Mirrors (add_segment l a) (stored l a r s)
unfolding add_segment segment_prefix
Mirrors-add l a s hi r ranges base m =
    let apart = bases_differ 0 hi m.arts a.base_offset (rw (← m.segments_are) ranges) base in
    let added = stored-Holds l a r s m.arts m.holds apart in
    record {
      arts = m.arts ++ a ∷ [];
      holds = Holds-rename l (add_segment l a) (stored l a r s) (m.arts ++ a ∷ []) refl added;
      segments_are = rw m.segments_are (sym (map-append range_of m.arts (a ∷ [])));
      indexes_are = rw m.indexes_are (sym (indexes_of-append m.arts a []));
    }

pub start_prefetch-s3 :
    (l : PartitionLog) (n : ℕ) (w : World MemoryS3) → (start_prefetch l n w).s3 ≡ w.s3
unfolding start_prefetch
start_prefetch-s3 l n w = ground arith

pub cache_segment-s3 :
    (l : PartitionLog) (base : ℤ) (bs : Bytes) (w : World MemoryS3)
    → (cache_segment l base bs w).s3 ≡ w.s3
unfolding cache_segment
cache_segment-s3 l base bs w = ground arith

pub length-append_buffer :
    (x : WriteBuffer) (b : RecordBatch) → length (append x b).batches ≡ suc (length x.batches)
unfolding append
length-append_buffer x b = omega (arith, length-append x.batches (b ∷ []))

module _ (now : ℕ) where
  upload_artifact-Mirrors :
      (l : PartitionLog) (a : SegmentArtifact) (w : World MemoryS3) (hi : ℕ)
      → IsReadable a
      → Ranges 0 l.segments hi
      → a.base_offset ≡ pos hi
      → Mirrors l w.s3
      → let (l', w', answer) = upload_artifact memory_s3 l a w in Mirrors l' w'.s3
  unfolding upload_artifact memory_s3
  upload_artifact-Mirrors l a w hi r ranges base m =
      rw (start_prefetch-s3 (add_segment l a), cache_segment-s3 l a.base_offset a.segment_bytes)
        (Mirrors-add l a w.s3 hi r ranges base m)

  pub flush_batches-Mirrors :
      (l : PartitionLog) (w : World MemoryS3) (bs : List RecordBatch)
      → l.buffer.batches ≡ bs
      → Inv l
      → length l.buffer.batches < 2147483648
      → Mirrors l w.s3
      → let (l', w', answer) = flush_locked memory_s3 now l w in Mirrors l' w'.s3
  unfolding flush_locked drain
  flush_batches-Mirrors l w [] e v few m =
      rw (e, flush_locked) (Mirrors-buffered l l.next_offset _ w.s3 m)
  flush_batches-Mirrors l w (b ∷ bs) e v few m =
      let drained : Mirrors (record l { buffer = (drain l.buffer now).0 }) w.s3 =
        Mirrors-buffered l l.next_offset _ w.s3 m in
      elim (Result-cases (build_segment l.cfg.segment (b ∷ bs) (pos (now / 1000000)))) [
        | inr (x, failed) ↦ rw (e, flush_locked, failed) drained
        | inl (a, built) ↦
            let built' : build_segment l.cfg.segment l.buffer.batches (pos (now / 1000000)) ≡ ok a =
              rw e built in
            rw (e, flush_locked, built)
              (upload_artifact-Mirrors _ a w v.start (build_segment-IsReadable l _ v few built')
                v.ordered
                (artifact-Chain l _ v.start v.next l.buffer.batches v.buffered v.next_fits built').1
                drained)
      ]

  -- Appending to a log whose segments the memory store holds, and flushing it or not, leaves a log
  -- whose segments the store holds. The offsets of the log are in order before the append, the
  -- batch has a last offset delta of d, the offsets fit an int64, and there is room for the batch
  -- among 2^31.
  pub append_batch-Mirrors :
      (l : PartitionLog) (batch : RecordBatch) (w : World MemoryS3) (d : ℕ)
      → (v : Inv l) → batch.last_offset_delta ≡ pos d
      → v.next + d + 1 < 9223372036854775808
      → suc (length l.buffer.batches) < 2147483648
      → Mirrors l w.s3
      → let (l', w', answer) = append_batch memory_s3 now l batch w in Mirrors l' w'.s3
  unfolding append_batch
  append_batch-Mirrors l batch w d v delta fits few m = elim (Result-cases (buffer_batch l batch)) [
    | inr (x, failed) ↦ rw (failed, append_batch) m
    | inl ((l', r), buffered) ↦
        let (v', _, _, _) = buffer_batch-Inv l batch d v delta fits buffered in
        let (b, _, shape, _, _) = buffer_batch-ok l batch buffered in
        let m' : Mirrors l' w.s3 = rw shape (Mirrors-buffered l _ (append l.buffer b) w.s3 m) in
        let few' : length l'.buffer.batches < 2147483648 =
          rw (shape, length-append_buffer l.buffer b) few in
        rw (buffered, append_batch)
          (elim (Bool-cases (should_flush l'.buffer now)) [
            | inr f ↦ rw f m'
            | inl t ↦ rw t (flush_batches-Mirrors l' w l'.buffer.batches refl v' few' m')
          ])
  ]

-- The last offset in the segments, -1 without any.
abbrev pub last_in : List SegmentRange → ℤ
last_in [] = negsuc 0
last_in (seg ∷ segs) = last_of seg segs

restore-Holds :
    (l : PartitionLog) (s : MemoryS3) (arts : List SegmentArtifact)
    → Holds l s arts
    → Ordered (map range_of arts)
    → AllApart by_base (map range_of arts)
    → 0 < length (map range_of arts)
    → let ranges = map range_of arts in
      restore_from_s3 memory_s3 l s
      ≡ (s, install l ranges (indexes_of arts []) (last_in ranges), ok (last_in ranges))
restore-Holds l s [] h o apart long = absurd (omega arith)
restore-Holds l s (a ∷ arts) h o apart long = restore_from_s3-Holds l s a arts h o apart

-- A log that is lost is found again: a new log of the same names, restored from the store, gets the
-- segments and the index entries of the lost one, and the answer is their last offset, in whatever order
-- the store lists its objects. The store holds the segments of the lost log, at least one, and its offsets
-- are in order.
pub restore_from_s3-Mirrors :
    (l fresh : PartitionLog) (s : MemoryS3)
    → segment_prefix fresh ≡ segment_prefix l
    → Inv l
    → 0 < length l.segments
    → Mirrors l s
    → restore_from_s3 memory_s3 fresh s
      ≡ (s, install fresh l.segments l.index_entries (last_in l.segments), ok (last_in l.segments))
restore_from_s3-Mirrors l fresh s names v long m =
    let holds = Holds-rename l fresh s m.arts names m.holds in
    let ordered = rw m.segments_are at (Ranges-Ordered 0 v.start l.segments v.ordered) in
    let apart = rw m.segments_are at (Ranges-AllApart 0 v.start l.segments v.ordered) in
    let long' : 0 < length (map range_of m.arts) = rw m.segments_are at long in
    rw (m.segments_are, m.indexes_are) (restore-Holds fresh s m.arts holds ordered apart long')
