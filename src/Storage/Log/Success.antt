-- ===== src/Storage/Log/Success.antt =====
-- When a partition log accepts a batch.
use kafscale.Base.{
  ℕ, ◌/◌, ◌≤◌, ◌≡◌, refl, true, false, List, [], ◌∷◌, ◌++◌, Option, none, some, ok, arith, inl, inr,
  Bool-cases, length, ltb, drop,
}
use kafscale.Base.Int.{ℤ, pos, bits64}
use kafscale.Base.Bytes.{All-append_one, Bytes, All, be64}
use kafscale.Base.Maps.{Str}
use kafscale.Storage.Types.{RecordBatch, SegmentArtifact}
use kafscale.Storage.RecordBatch.{patch_base_offset}
use kafscale.Storage.Index.{is_empty}
use kafscale.Storage.Segment.{
  Progress, add_batch, add_batches, build_segment, start, artifact, last_batch,
}
use kafscale.Storage.Buffer.{drain, append, should_flush}
use kafscale.Storage.S3.{S3Client}
use kafscale.Storage.Log.{
  PartitionLog, World, AppendResult, upload_artifact, flush_locked, buffer_batch, append_batch,
}

abbrev pub HasBytes : RecordBatch → Type 0
HasBytes b = is_empty b.bytes ≡ false

-- The store takes every segment and every index.
pub record Accepts {S : Type 0} (s3 : S3Client S) : Type 0 where
  pub segments : (key : Str) (bs : Bytes) (s : S) → (s3.upload_segment key bs s).1 ≡ true
  pub indexes : (key : Str) (bs : Bytes) (s : S) → (s3.upload_index key bs s).1 ≡ true

add_batches_succeeds :
    (bs : List RecordBatch) (p : Progress)
    → All HasBytes bs
    → (q : Progress) × (add_batches p bs ≡ ok q)
unfolding add_batches add_batch
add_batches_succeeds [] p h = (p, refl)
add_batches_succeeds (b ∷ bs) p h = rw (h.0) (add_batches_succeeds bs _ h.1)

build_segment_succeeds :
    (l : PartitionLog) (created : ℤ) (b : RecordBatch) (bs : List RecordBatch)
    → All HasBytes (b ∷ bs)
    → (a : SegmentArtifact) × (build_segment l.cfg.segment (b ∷ bs) created ≡ ok a)
unfolding build_segment
build_segment_succeeds l created b bs h =
    let (p, e) = add_batches_succeeds (b ∷ bs) (start l.cfg.segment) h in
    (artifact b (last_batch b bs) created p, rw e refl)

module _ {S : Type 0} (s3 : S3Client S) (now : ℕ) (accepts : Accepts s3) where
  flush_batches_succeeds :
      (l : PartitionLog) (w : World S) (bs : List RecordBatch)
      → l.buffer.batches ≡ bs
      → All HasBytes bs
      → (f : Option SegmentArtifact) × ((flush_locked s3 now l w).2 ≡ ok f)
  unfolding flush_locked drain upload_artifact
  flush_batches_succeeds l w [] e h = rw (e, flush_locked) (none, refl)
  flush_batches_succeeds l w (b ∷ bs) e h =
      let (a, built) = build_segment_succeeds l (pos (now / 1000000)) b bs h in
      rw (e, flush_locked, built, accepts.segments, accepts.indexes) (some a, refl)

be64_bytes : (n : ℕ) (rest : Bytes) → is_empty (be64 n ++ rest) ≡ false
unfolding be64
be64_bytes n rest = refl

buffer_batch_succeeds :
    (l : PartitionLog) (batch : RecordBatch)
    → 8 ≤ length batch.bytes
    → All HasBytes l.buffer.batches
    → (l' : PartitionLog) × (r : AppendResult) × (buffer_batch l batch ≡ ok (l', r))
      × All HasBytes l'.buffer.batches
unfolding buffer_batch patch_base_offset append
buffer_batch_succeeds l batch long h =
    let fits : ltb (length batch.bytes) 8 ≡ false = ground arith in
    rw (buffer_batch, fits)
      (
        _,
        _,
        refl,
        All-append_one HasBytes l.buffer.batches _ h
            (be64_bytes (bits64 l.next_offset) (drop 8 batch.bytes)),
      )

-- An append succeeds, whether it flushes or not, if the store takes every upload, the batch has the
-- 8 bytes of its base offset and no batch in the buffer is empty.
pub append_batch_succeeds :
    {S : Type 0} (s3 : S3Client S) (now : ℕ) (l : PartitionLog) (batch : RecordBatch) (w : World S)
    → Accepts s3
    → 8 ≤ length batch.bytes
    → All HasBytes l.buffer.batches
    → (r : AppendResult) × (a : Option SegmentArtifact) × ((append_batch s3 now l batch w).2
        ≡ ok (r, a))
unfolding append_batch
append_batch_succeeds s3 now l batch w accepts long h =
    let (l', r, buffered, h') = buffer_batch_succeeds l batch long h in
    let (f, flushed) = flush_batches_succeeds s3 now accepts l' w l'.buffer.batches refl h' in
    rw (buffered, append_batch)
      (elim (Bool-cases (should_flush l'.buffer now)) [
        | inr f ↦ rw f (r, none, refl)
        | inl t ↦ rw (t, flushed) (r, f, refl)
      ])
