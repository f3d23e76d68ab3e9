-- ===== src/Storage/Log/Restore/Recorded.antt =====
-- The bytes of a batch in the object store behind the segments of a log (pkg/storage/log.go): an append that
-- is followed by a flush puts them there.
use kafscale.Base.{
  ℕ, suc, ◌+◌, ◌≤◌, ◌<◌, ◌≡◌, refl, ap, ◌∙◌, true, false, ◌&&◌, List, [], ◌∷◌, ◌++◌, Option, some,
  ok, arith, Bool-cases, inl, inr, Result-cases, ◌/◌, length,
}
use kafscale.Base.Int.{ℤ, pos, leb_ℤ}
use kafscale.Base.Bytes.{Bytes}
use kafscale.Base.Maps.{str_Key, get, get-put_self}
use kafscale.Storage.Types.{RecordBatch, SegmentArtifact}
use kafscale.Storage.RecordBatch.{patch_base_offset}
use kafscale.Storage.Lookup.{SegmentRange}
use kafscale.Storage.S3.{S3Client, MemoryS3, memory_s3}
use kafscale.Storage.Buffer.{drain, append, should_flush}
use kafscale.Storage.Segment.{build_segment}
use kafscale.Storage.Segment.Positions.{Contains, build_segment-Contains}
use kafscale.Storage.Log.{
  PartitionLog, World, AppendResult, upload_artifact, flush_locked, append_batch, buffer_batch,
  add_segment, segment_prefix, segment_key,
}
use kafscale.Storage.Log.Reads.{find_segment}
use kafscale.Storage.Log.Order.{Chain, Ranges, Chain-append, Chain-le}
use kafscale.Storage.Log.Offsets.{Inv, artifact-Chain, buffer_batch-ok, patch_base_offset-ok}
use kafscale.Storage.Log.Restore.Restart.{Ranges-le, start_prefetch-s3, cache_segment-s3}

-- Read finds a segment for the offset, and the store has an object for it that holds the bytes.
abbrev pub Recorded : PartitionLog → MemoryS3 → ℤ → Bytes → Type 0
Recorded l s offset bytes =
    (seg : SegmentRange) × (object : Bytes) × (find_segment offset l.segments ≡ some seg)
    × (get (segment_key l seg.base_offset) s.objects ≡ some object)
    × Contains object bytes

-- Only the segments and the names of a log matter to it.
pub Recorded-as :
    (l l' : PartitionLog) (s : MemoryS3) (o : ℤ) (bytes : Bytes)
    → segment_prefix l' ≡ segment_prefix l
    → l'.segments ≡ l.segments
    → Recorded l s o bytes
    → Recorded l' s o bytes
unfolding segment_key
Recorded-as l l' s o bytes names segs (seg, object, found, stored, holds) =
    (seg, object, rw segs found, rw names stored, holds)

-- An offset behind the segments is found in the one that is added for it.
find_segment-last :
    (lo hi o : ℕ) (xs : List SegmentRange) (y : SegmentRange)
    → Ranges lo xs hi
    → hi ≤ o
    → leb_ℤ y.base_offset (pos o) && leb_ℤ (pos o) y.last_offset ≡ true
    → find_segment (pos o) (xs ++ y ∷ []) ≡ some y
unfolding find_segment
find_segment-last lo hi o [] y r le h = rw h refl
find_segment-last lo hi o (x ∷ xs) y (b, e, base, last, _, _, r) le h =
    let before : suc e ≤ hi = Ranges-le (suc e) hi xs r in
    let passed : leb_ℤ x.base_offset (pos o) && leb_ℤ (pos o) x.last_offset ≡ false =
      rw last (ground arith) in
    rw passed (find_segment-last (suc e) hi o xs y r le h)

module _ {S : Type 0} (s3 : S3Client S) (now : ℕ) where
  upload_artifact-buffer :
      (l : PartitionLog) (a : SegmentArtifact) (w : World S)
      → (upload_artifact s3 l a w).0.buffer ≡ l.buffer
  unfolding upload_artifact add_segment
  upload_artifact-buffer l a w = ground arith

  pub flush_batches-empties :
      (l : PartitionLog) (w : World S) (bs : List RecordBatch)
      → l.buffer.batches ≡ bs
      → length (flush_locked s3 now l w).0.buffer.batches ≡ 0
  unfolding flush_locked drain
  flush_batches-empties l w [] e = rw (e, flush_locked) refl
  flush_batches-empties l w (b ∷ bs) e =
      elim (Result-cases (build_segment l.cfg.segment (b ∷ bs) (pos (now / 1000000)))) [
        | inr (x, failed) ↦ rw (e, flush_locked, failed) refl
        | inl (a, built) ↦
            rw (e, flush_locked, built) (ap (λ b. length b.batches) (upload_artifact-buffer _ a w))
      ]

none_of : {A : Type 0} (xs : List A) → length xs ≡ 0 → xs ≡ []
none_of [] e = refl
none_of (x ∷ xs) e = absurd (omega arith)

module _ (now : ℕ) where
  upload_artifact-Recorded :
      (l : PartitionLog) (a : SegmentArtifact) (w : World MemoryS3) (start e o : ℕ) (bytes : Bytes)
      → Ranges 0 l.segments start
      → a.base_offset ≡ pos start
      → a.last_offset ≡ pos e
      → start ≤ o
      → o ≤ e
      → Contains a.segment_bytes bytes
      → let (l', w', answer) = upload_artifact memory_s3 l a w in Recorded l' w'.s3 (pos o) bytes
  unfolding upload_artifact memory_s3 add_segment segment_key segment_prefix
  upload_artifact-Recorded l a w start e o bytes ordered base last above below holds =
      rw (start_prefetch-s3 (add_segment l a), cache_segment-s3 l a.base_offset a.segment_bytes)
        (
          _,
          a.segment_bytes,
          find_segment-last 0 start o l.segments _ ordered above (rw (base, last) (ground arith)),
          get-put_self (segment_key l a.base_offset) a.segment_bytes w.s3.objects,
          holds,
        )

  -- A flush that succeeds records each batch of the buffer at its offsets.
  flush_batches-Recorded :
      (l : PartitionLog) (w : World MemoryS3) (bs before after : List RecordBatch) (b : RecordBatch)
      (start next o : ℕ) (r : Option SegmentArtifact)
      → l.buffer.batches ≡ bs
      → l.buffer.batches ≡ before ++ b ∷ after
      → Ranges 0 l.segments start
      → Chain start l.buffer.batches next
      → next < 9223372036854775808
      → start ≤ o
      → o < next
      → (flush_locked memory_s3 now l w).2 ≡ ok r
      → let (l', w', answer) = flush_locked memory_s3 now l w in Recorded l' w'.s3 (pos o) b.bytes
  unfolding flush_locked drain
  flush_batches-Recorded l w [] before after b start next o r e split ordered c fits above below
        done =
      let same : start ≡ next = rw e at c in absurd (omega arith)
  flush_batches-Recorded l w (x ∷ bs) before after b start next o r e split ordered c fits above
        below done =
      elim (Result-cases (build_segment l.cfg.segment (x ∷ bs) (pos (now / 1000000)))) [
        | inr (y, failed) ↦ cc (rw (e, flush_locked, failed) at done)
        | inl (a, built) ↦
            let built' : build_segment l.cfg.segment l.buffer.batches (pos (now / 1000000)) ≡ ok a =
              rw e built in
            let (last, base_is, last_is, le, e') =
              artifact-Chain l _ start next l.buffer.batches c fits built' in
            rw (e, flush_locked, built)
              (upload_artifact-Recorded _ a w start last o b.bytes ordered base_is last_is above
                (omega arith)
                (build_segment-Contains l.cfg.segment before after b _ (rw split at built')))
      ]

  -- A flush of an empty buffer changes neither the segments nor the store.
  flush_nothing :
      (l : PartitionLog) (w : World MemoryS3) (o : ℤ) (bytes : Bytes)
      → l.buffer.batches ≡ []
      → Recorded l w.s3 o bytes
      → let (l', w', answer) = flush_locked memory_s3 now l w in Recorded l' w'.s3 o bytes
  unfolding flush_locked drain segment_prefix
  flush_nothing l w o bytes e h = rw (e, flush_locked) (Recorded-as l _ w.s3 o bytes refl refl h)

  buffered-Chain :
      (l l1 : PartitionLog) (batch b : RecordBatch) (d start next : ℕ)
      → l1.buffer.batches ≡ l.buffer.batches ++ b ∷ []
      → patch_base_offset batch l.next_offset ≡ ok b
      → l.next_offset ≡ pos next
      → batch.last_offset_delta ≡ pos d
      → Chain start l.buffer.batches next
      → Chain start l1.buffer.batches (next + d + 1)
  buffered-Chain l l1 batch b d start next more patched next_is delta c =
      let (base', delta') = patch_base_offset-ok batch l.next_offset patched in
      rw more (
        Chain-append start next d (next + d + 1) l.buffer.batches b c (base' ∙ next_is)
          (delta' ∙ delta) refl)

  -- The batch of an append that succeeds is in the store after a flush that succeeds, with the base offset
  -- that the answer has written into it.
  pub append-flush-Recorded :
      (l : PartitionLog) (batch : RecordBatch) (w : World MemoryS3) (d : ℕ) (r : AppendResult)
      (a a' : Option SegmentArtifact)
      → (v : Inv l) → batch.last_offset_delta ≡ pos d
      → v.next + d + 1 < 9223372036854775808
      → (append_batch memory_s3 now l batch w).2 ≡ ok (r, a)
      → let (l', w', answer) = append_batch memory_s3 now l batch w in
        (flush_locked memory_s3 now l' w').2 ≡ ok a'
        → (b : RecordBatch) × (patch_base_offset batch r.base_offset ≡ ok b)
          × Recorded
              (flush_locked memory_s3 now l' w').0
              (flush_locked memory_s3 now l' w').1.s3
              r.base_offset
              b.bytes
  unfolding append_batch append
  append-flush-Recorded l batch w d r a a' v delta fits appended flushed =
      elim (Result-cases (buffer_batch l batch)) [
        | inr (x, failed) ↦ cc (rw (failed, append_batch) at appended)
        | inl ((l1, r1), buffered) ↦
            let (b, patched, shape, base, _) = buffer_batch-ok l batch buffered in
            let more : l1.buffer.batches ≡ l.buffer.batches ++ b ∷ [] = rw shape refl in
            let ordered : Ranges 0 l1.segments v.start = rw shape v.ordered in
            let chain =
              buffered-Chain l l1 batch b d v.start v.next more patched v.next_is delta
                v.buffered in
            let above : v.start ≤ v.next = Chain-le v.start v.next l.buffer.batches v.buffered in
            elim (Bool-cases (should_flush l1.buffer now)) [
              | inr small ↦
                  let base_is : r.base_offset ≡ l.next_offset =
                    (let same = rw (buffered, append_batch, small) at appended in cc) in
                  (
                    b,
                    rw base_is patched,
                    rw (base_is ∙ v.next_is, buffered, append_batch, small)
                        (flush_batches-Recorded l1 w l1.buffer.batches l.buffer.batches [] b v.start
                          (v.next + d + 1) v.next a' refl more ordered chain fits above
                          (omega arith) (rw (buffered, append_batch, small) at flushed)),
                  )
              | inl full ↦ elim (Result-cases (flush_locked memory_s3 now l1 w).2) [
                | inr (x, failed) ↦ cc (rw (buffered, append_batch, full, failed) at appended)
                | inl (a1, first) ↦
                    let base_is : r.base_offset ≡ l.next_offset =
                      (let same = rw (buffered, append_batch, full, first) at appended in cc) in
                    let recorded =
                      flush_batches-Recorded l1 w l1.buffer.batches l.buffer.batches [] b v.start
                        (v.next + d + 1) v.next a1 refl more ordered chain fits above (omega arith)
                        first in
                    (
                      b,
                      rw base_is patched,
                      rw (base_is ∙ v.next_is, buffered, append_batch, full)
                          (flush_nothing (flush_locked memory_s3 now l1 w).0
                            (flush_locked memory_s3 now l1 w).1 (pos v.next) b.bytes
                            (none_of _
                              (flush_batches-empties memory_s3 now l1 w l1.buffer.batches refl))
                            recorded),
                    )
              ]
            ]
      ]
