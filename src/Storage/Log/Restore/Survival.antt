-- ===== src/Storage/Log/Restore/Survival.antt =====
-- A batch that is appended and flushed is found again by a log restored from the store (pkg/storage/log.go).
use kafscale.Base.{
  some, ℕ, suc, ◌+◌, ◌≤◌, ◌<◌, ◌≡◌, refl, sym, ap, ◌∙◌, List, [], ◌∷◌, Option, ok, arith,
  Bool-cases, inl, inr, Result-cases, ◌/◌, length,
}
use kafscale.Base.Int.{ℤ, pos}
use kafscale.Storage.Types.{RecordBatch, SegmentArtifact}
use kafscale.Storage.Lookup.{SegmentRange}
use kafscale.Storage.S3.{S3Client, MemoryS3, memory_s3}
use kafscale.Storage.Buffer.{drain, should_flush}
use kafscale.Storage.Segment.{build_segment}
use kafscale.Storage.Log.{
  PartitionLog, World, AppendResult, upload_artifact, flush_locked, append_batch, buffer_batch,
  add_segment, segment_prefix,
}
use kafscale.Storage.Log.Reads.{find_segment}
use kafscale.Storage.Log.Offsets.{Inv, buffer_batch-ok, append_batch-Inv, flush_locked-Inv}
use kafscale.Storage.Log.Restore.Recorded.{
  Recorded, Recorded-as, flush_batches-empties, append-flush-Recorded,
}
use kafscale.Storage.RecordBatch.{patch_base_offset}
use kafscale.Base.Bytes.{Bytes}
use kafscale.Storage.Log.Restore.{restore_from_s3, install}
use kafscale.Storage.Log.Restore.Restart.{
  Mirrors, append_batch-Mirrors, flush_batches-Mirrors, length-append_buffer,
  restore_from_s3-Mirrors,
}

module _ {S : Type 0} (s3 : S3Client S) (now : ℕ) where
  append_batch-length :
      (l : PartitionLog) (batch : RecordBatch) (w : World S)
      → length (append_batch s3 now l batch w).0.buffer.batches ≤ suc (length l.buffer.batches)
  unfolding append_batch
  append_batch-length l batch w = elim (Result-cases (buffer_batch l batch)) [
    | inr (x, failed) ↦ rw (failed, append_batch) (omega arith)
    | inl ((l', r), buffered) ↦
        let (b, _, shape, _, _) = buffer_batch-ok l batch buffered in
        elim (Bool-cases (should_flush l'.buffer now)) [
          | inr small ↦
              rw (buffered, append_batch, small, shape)
                (omega (arith, length-append_buffer l.buffer b))
          | inl full ↦
              rw (buffered, append_batch, full)
                (omega (arith, flush_batches-empties s3 now l' w l'.buffer.batches refl))
        ]
  ]

module _ {S : Type 0} (s3 : S3Client S) (now : ℕ) where
  upload_artifact-prefix :
      (l : PartitionLog) (a : SegmentArtifact) (w : World S)
      → segment_prefix (upload_artifact s3 l a w).0 ≡ segment_prefix l
  unfolding upload_artifact add_segment segment_prefix
  upload_artifact-prefix l a w = ground arith

  flush_batches-prefix :
      (l : PartitionLog) (w : World S) (bs : List RecordBatch)
      → l.buffer.batches ≡ bs
      → segment_prefix (flush_locked s3 now l w).0 ≡ segment_prefix l
  unfolding flush_locked drain segment_prefix
  flush_batches-prefix l w [] e = rw (e, flush_locked) refl
  flush_batches-prefix l w (b ∷ bs) e =
      elim (Result-cases (build_segment l.cfg.segment (b ∷ bs) (pos (now / 1000000)))) [
        | inr (x, failed) ↦ rw (e, flush_locked, failed) refl
        | inl (a, built) ↦ rw (e, flush_locked, built) (upload_artifact-prefix _ a w)
      ]

  append_batch-prefix :
      (l : PartitionLog) (batch : RecordBatch) (w : World S)
      → segment_prefix (append_batch s3 now l batch w).0 ≡ segment_prefix l
  unfolding append_batch segment_prefix
  append_batch-prefix l batch w = elim (Result-cases (buffer_batch l batch)) [
    | inr (x, failed) ↦ rw (failed, append_batch) refl
    | inl ((l', r), buffered) ↦
        let (b, _, shape, _, _) = buffer_batch-ok l batch buffered in
        elim (Bool-cases (should_flush l'.buffer now)) [
          | inr small ↦ rw (buffered, append_batch, small, shape) refl
          | inl full ↦
              rw (buffered, append_batch, full)
                (flush_batches-prefix l' w l'.buffer.batches refl ∙ ap segment_prefix shape)
        ]
  ]

Recorded-length :
    (l : PartitionLog) (s : MemoryS3) (o : ℤ) (bytes : Bytes)
    → Recorded l s o bytes
    → 0 < length l.segments
unfolding find_segment
Recorded-length l s o bytes (seg, object, found, stored, holds) = some_found l.segments found
  where
    some_found : (segs : List SegmentRange) → find_segment o segs ≡ some seg → 0 < length segs
    some_found [] e = cc
    some_found (x ∷ xs) e = omega arith

module _ (now : ℕ) (l : PartitionLog) (batch : RecordBatch) (w : World MemoryS3) where
  -- The log and the world after the append.
  abbrev pub appended : PartitionLog
  appended = (append_batch memory_s3 now l batch w).0

  abbrev pub world : World MemoryS3
  world = (append_batch memory_s3 now l batch w).1

  -- The log and the store after the flush behind it.
  abbrev pub flushed : PartitionLog
  flushed = (flush_locked memory_s3 now appended world).0

  abbrev pub stored : MemoryS3
  stored = (flush_locked memory_s3 now appended world).1.s3

  flushed-prefix : segment_prefix flushed ≡ segment_prefix l
  flushed-prefix =
      flush_batches-prefix memory_s3 now appended world appended.buffer.batches refl
      ∙ append_batch-prefix memory_s3 now l batch w

  flushed-Inv :
      (d : ℕ)
      → (v : Inv l) → batch.last_offset_delta ≡ pos d
      → v.next + d + 1 < 9223372036854775808
      → Inv flushed
  flushed-Inv d v delta fits =
      flush_locked-Inv memory_s3 now appended world
        (append_batch-Inv memory_s3 now l batch w d v delta fits)

  flushed-Mirrors :
      (d : ℕ)
      → (v : Inv l) → batch.last_offset_delta ≡ pos d
      → v.next + d + 1 < 9223372036854775808
      → suc (length l.buffer.batches) < 2147483648
      → Mirrors l w.s3
      → Mirrors flushed stored
  flushed-Mirrors d v delta fits few m =
      flush_batches-Mirrors now appended world appended.buffer.batches refl
        (append_batch-Inv memory_s3 now l batch w d v delta fits)
        (omega (arith, append_batch-length memory_s3 now l batch w))
        (append_batch-Mirrors now l batch w d v delta fits few m)

  -- An append and a flush that succeed: a log of the same names, restored from the store, finds a segment
  -- for the batch, whose object in the store holds its bytes.
  pub append-flush_survives :
      (d : ℕ) (fresh : PartitionLog) (r : AppendResult) (a a' : Option SegmentArtifact)
      → (v : Inv l) → batch.last_offset_delta ≡ pos d
      → v.next + d + 1 < 9223372036854775808
      → suc (length l.buffer.batches) < 2147483648
      → Mirrors l w.s3
      → (append_batch memory_s3 now l batch w).2 ≡ ok (r, a)
      → (flush_locked memory_s3 now appended world).2 ≡ ok a'
      → segment_prefix fresh ≡ segment_prefix l
      → (l' : PartitionLog) × (last : ℤ) × (b : RecordBatch) × (restore_from_s3 memory_s3 fresh
            stored
          ≡ (stored, l', ok last))
        × (patch_base_offset batch r.base_offset ≡ ok b)
        × Recorded l' stored r.base_offset b.bytes
  unfolding install segment_prefix
  append-flush_survives d fresh r a a' v delta fits few m done all names =
      let (b, patched, recorded) =
        append-flush-Recorded now l batch w d r a a' v delta fits done all in
      let names' = names ∙ sym flushed-prefix in
      (
        _,
        _,
        b,
        restore_from_s3-Mirrors flushed fresh stored names' (flushed-Inv d v delta fits)
            (Recorded-length flushed stored r.base_offset b.bytes recorded)
            (flushed-Mirrors d v delta fits few m),
        patched,
        Recorded-as flushed _ stored r.base_offset b.bytes names' refl recorded,
      )
