-- ===== src/Storage/Log/Offsets.antt =====
-- The offsets of a partition log: of its segments, of its buffered batches, and the next one.
use kafscale.Base.{
  ◌-◌, ℕ, suc, ◌+◌, ◌≤◌, ◌<◌, ◌≡◌, refl, ap, List, [], ◌∷◌, Option, Result, ok, err, subst, ◌/◌,
  arith, inl, inr, Bool-cases, Result-cases, ◌∙◌,
}
use kafscale.Base.Int.{ℤ, pos, ◌+ℤ◌, ◌-ℤ◌, wrap64, wrap64_pos, +ℤ_pos, -ℤ_pos}
use kafscale.Storage.Types.{RecordBatch, SegmentArtifact, Error}
use kafscale.Storage.RecordBatch.{patch_base_offset}
use kafscale.Storage.Segment.{build_segment, artifact}
use kafscale.Storage.Segment.RoundTrip.{build_segment-ok}
use kafscale.Storage.Buffer.{drain, append, should_flush}
use kafscale.Storage.S3.{S3Client}
use kafscale.Storage.Log.{
  PartitionLog, World, AppendResult, add_segment, segment_key, index_key, upload_artifact,
  flush_locked, buffer_batch, append_batch,
}
use kafscale.Storage.Log.Order.{
  Chain, Ranges, Chain-append, Chain-le, last_batch-Chain, Ranges-mono, Ranges-append,
}

-- The segments come first, in order; behind them the buffered batches, with no gap up to the next
-- offset, which is an int64.
pub record Inv (l : PartitionLog) : Type 0 where
  pub start : ℕ
  pub next : ℕ
  pub next_is : l.next_offset ≡ pos next
  pub next_fits : next < 9223372036854775808
  pub ordered : Ranges 0 l.segments start
  pub buffered : Chain start l.buffer.batches next

-- The artifact of a chain of batches covers exactly their offsets.
pub artifact-Chain :
    (l : PartitionLog) (created : ℤ) (n m : ℕ) (bs : List RecordBatch) {a : SegmentArtifact}
    → Chain n bs m
    → m < 9223372036854775808
    → build_segment l.cfg.segment bs created ≡ ok a
    → (e : ℕ) × (a.base_offset ≡ pos n) × (a.last_offset ≡ pos e) × (n ≤ e) × (suc e ≡ m)
unfolding artifact
artifact-Chain l created n m bs c fits built =
    let (b, rest, p, split, _, shape) = build_segment-ok l.cfg.segment bs created built in
    let c' : Chain n (b ∷ rest) m = subst (λ x. Chain n x m) split c in
    let (k, d, base, delta, le, e) = last_batch-Chain n m b rest c' in
    (
      k + d,
      rw shape c'.1,
      rw (shape, base, delta, +ℤ_pos k d) (wrap64_pos (k + d) (omega arith)),
      omega arith,
      omega arith,
    )

module _ {S : Type 0} (s3 : S3Client S) (now : ℕ) where
  drained-Inv : (l : PartitionLog) (v : Inv l) → Inv (record l { buffer = (drain l.buffer now).0 })
  unfolding drain
  drained-Inv l v = record {
    start = v.next;
    next = v.next;
    next_is = v.next_is;
    next_fits = v.next_fits;
    ordered =
        Ranges-mono 0 v.start v.next l.segments
          (Chain-le v.start v.next l.buffer.batches v.buffered) v.ordered;
    buffered = refl;
  }

  added-Inv :
      (l : PartitionLog) (a : SegmentArtifact) (v : Inv l)
      → build_segment l.cfg.segment l.buffer.batches (pos (now / 1000000)) ≡ ok a
      → Inv (add_segment (record l { buffer = (drain l.buffer now).0 }) a)
  unfolding drain add_segment
  added-Inv l a v built =
      let (e, base, last, le, m) =
        artifact-Chain l _ v.start v.next l.buffer.batches v.buffered v.next_fits built in
      record {
        start = v.next;
        next = v.next;
        next_is = v.next_is;
        next_fits = v.next_fits;
        ordered =
            subst (Ranges 0 _) m
              (Ranges-append 0 v.start v.start e l.segments _ v.ordered base last (omega arith) le);
        buffered = refl;
      }

  upload_artifact-Inv :
      (l : PartitionLog) (a : SegmentArtifact) (w : World S)
      → Inv l
      → Inv (add_segment l a)
      → Inv (upload_artifact s3 l a w).0
  unfolding upload_artifact
  upload_artifact-Inv l a w v v' =
      elim (Bool-cases (s3.upload_segment (segment_key l a.base_offset) a.segment_bytes w.s3).1) [
        | inr f ↦ rw f v
        | inl t ↦
            rw t
              (elim (Bool-cases
                (s3.upload_index (index_key l a.base_offset) a.index_bytes
                  (s3.upload_segment (segment_key l a.base_offset) a.segment_bytes w.s3).0).1) [
                    | inr f ↦ rw f v
                    | inl t' ↦ rw t' v'
                  ])
      ]

  flush_batches-Inv :
      (l : PartitionLog) (w : World S) (bs : List RecordBatch)
      → l.buffer.batches ≡ bs
      → Inv l
      → Inv (flush_locked s3 now l w).0
  unfolding flush_locked drain
  flush_batches-Inv l w [] e v = rw (e, flush_locked) (drained-Inv l v)
  flush_batches-Inv l w (b ∷ bs) e v =
      elim (Result-cases (build_segment l.cfg.segment (b ∷ bs) (pos (now / 1000000)))) [
        | inr (x, failed) ↦ rw (e, flush_locked, failed) (drained-Inv l v)
        | inl (a, built) ↦
            rw (e, flush_locked, built)
              (upload_artifact-Inv _ a w (drained-Inv l v) (added-Inv l a v (rw e built)))
      ]

  -- A flush of a log whose offsets are in order leaves them in order, whether it succeeds or fails.
  pub flush_locked-Inv : (l : PartitionLog) (w : World S) → Inv l → Inv (flush_locked s3 now l w).0
  flush_locked-Inv l w v = flush_batches-Inv l w l.buffer.batches refl v

pub patch_base_offset-ok :
    (b : RecordBatch) (base : ℤ) {b' : RecordBatch}
    → patch_base_offset b base ≡ ok b'
    → (b'.base_offset ≡ base) × (b'.last_offset_delta ≡ b.last_offset_delta)
unfolding patch_base_offset
patch_base_offset-ok b base e = ground arith

after_lem :
    (n d : ℕ)
    → n + d + 1 < 9223372036854775808
    → wrap64 (wrap64 (pos n +ℤ pos d) +ℤ pos 1) ≡ pos (n + d + 1)
after_lem n d h =
    rw (+ℤ_pos n d, wrap64_pos (n + d) (omega arith), +ℤ_pos (n + d) 1) (wrap64_pos (n + d + 1) h)

last_lem :
    (n d : ℕ) → n + d + 1 < 9223372036854775808 → wrap64 (pos (n + d + 1) -ℤ pos 1) ≡ pos (n + d)
last_lem n d h =
    rw (-ℤ_pos (n + d + 1) 1 (omega arith), wrap64_pos (n + d + 1 - 1) (omega arith))
      (ap pos (omega arith))

pub buffer_batch-ok :
    (l : PartitionLog) (batch : RecordBatch) {l' : PartitionLog} {r : AppendResult}
    → buffer_batch l batch ≡ ok (l', r)
    → let next = wrap64 (wrap64 (l.next_offset +ℤ batch.last_offset_delta) +ℤ pos 1) in
      (b : RecordBatch) × (patch_base_offset batch l.next_offset ≡ ok b)
      × (l' ≡ record l { next_offset = next; buffer = append l.buffer b })
      × (r.base_offset ≡ l.next_offset)
      × (r.last_offset ≡ wrap64 (next -ℤ pos 1))
unfolding buffer_batch
buffer_batch-ok l batch e = elim (Result-cases (patch_base_offset batch l.next_offset)) [
  | inr (x, failed) ↦ cc (rw (failed, buffer_batch) at e)
  | inl (b, patched) ↦ let e' = rw (patched, buffer_batch) at e in (b, patched, cc, cc, cc)
]

-- A batch whose last offset delta is d gets d + 1 offsets, beginning with the next one.
pub buffer_batch-Inv :
    (l : PartitionLog) (batch : RecordBatch) (d : ℕ) {l' : PartitionLog} {r : AppendResult}
    → (v : Inv l) → batch.last_offset_delta ≡ pos d
    → v.next + d + 1 < 9223372036854775808
    → buffer_batch l batch ≡ ok (l', r)
    → Inv l'
      × (r.base_offset ≡ pos v.next)
      × (r.last_offset ≡ pos (v.next + d))
      × (l'.next_offset ≡ pos (v.next + d + 1))
unfolding append
buffer_batch-Inv l batch d v delta fits e =
    let (b, patched, shape, base, last) = buffer_batch-ok l batch e in
    let (base', delta') = patch_base_offset-ok batch l.next_offset patched in
    let next_lem : wrap64 (wrap64 (l.next_offset +ℤ batch.last_offset_delta) +ℤ pos 1)
        ≡ pos (v.next + d + 1) =
      rw (v.next_is, delta) (after_lem v.next d fits) in
    (
      rw shape (record {
        start = v.start;
        next = v.next + d + 1;
        next_is = next_lem;
        next_fits = fits;
        ordered = v.ordered;
        buffered =
            Chain-append v.start v.next d (v.next + d + 1) l.buffer.batches b v.buffered
              (base' ∙ v.next_is) (delta' ∙ delta) refl;
      }),
      base ∙ v.next_is,
      last ∙ (rw next_lem (last_lem v.next d fits)),
      rw shape next_lem,
    )

pub flushed_result :
    (f : Result Error (Option SegmentArtifact)) {r r' : AppendResult} {a : Option SegmentArtifact}
    {x y : ℤ}
    → ◌≡◌ {A = Result Error (AppendResult × Option SegmentArtifact)}
        (elim f [ err e ↦ err e | ok artifact ↦ ok (r, artifact) ])
        (ok (r', a))
    → r.base_offset ≡ x
    → r.last_offset ≡ y
    → (r'.base_offset ≡ x) × (r'.last_offset ≡ y)
flushed_result (ok b) e base last = ground arith
flushed_result (err x) e base last = cc

append_batch_lem :
    {S : Type 0} (s3 : S3Client S) (now : ℕ) (l : PartitionLog) (batch : RecordBatch) (w : World S)
    (d : ℕ)
    → (v : Inv l) → batch.last_offset_delta ≡ pos d
    → v.next + d + 1 < 9223372036854775808
    → Inv (append_batch s3 now l batch w).0
      × ((r : AppendResult) (a : Option SegmentArtifact)
          → (append_batch s3 now l batch w).2 ≡ ok (r, a)
          → (r.base_offset ≡ pos v.next) × (r.last_offset ≡ pos (v.next + d)))
unfolding append_batch
append_batch_lem s3 now l batch w d v delta fits = elim (Result-cases (buffer_batch l batch)) [
  | inr (x, failed) ↦ rw (failed, append_batch) (v, λ r a e. cc)
  | inl ((l', r), buffered) ↦
      let (v', base, last, _) = buffer_batch-Inv l batch d v delta fits buffered in
      rw (buffered, append_batch)
        (elim (Bool-cases (should_flush l'.buffer now)) [
          | inr f ↦ rw f (v', λ r' a e. (ground arith, ground arith))
          | inl t ↦ rw t (
            flush_locked-Inv s3 now l' w v',
            λ r' a e. flushed_result (flush_locked s3 now l' w).2 e base last,
          )
        ])
]

-- An append of a batch to a log whose offsets are in order leaves them in order, with or without a
-- flush, and whether the flush succeeds or not. The batch has a last offset delta of d, not
-- negative, and the offsets stay in the range of an int64.
pub append_batch-Inv :
    {S : Type 0} (s3 : S3Client S) (now : ℕ) (l : PartitionLog) (batch : RecordBatch) (w : World S)
    (d : ℕ)
    → (v : Inv l) → batch.last_offset_delta ≡ pos d
    → v.next + d + 1 < 9223372036854775808
    → Inv (append_batch s3 now l batch w).0
append_batch-Inv s3 now l batch w d v delta fits =
    (append_batch_lem s3 now l batch w d v delta fits).0

-- An append that is accepted answers with the next d + 1 offsets of the log, whether it flushes or
-- not. The offsets of the log are in order, the batch has a last offset delta of d, not negative,
-- and the offsets stay in the range of an int64.
pub append_batch_offsets :
    {S : Type 0} (s3 : S3Client S) (now : ℕ) (l : PartitionLog) (batch : RecordBatch) (w : World S)
    (d : ℕ) (r : AppendResult) (a : Option SegmentArtifact)
    → (v : Inv l) → batch.last_offset_delta ≡ pos d
    → v.next + d + 1 < 9223372036854775808
    → (append_batch s3 now l batch w).2 ≡ ok (r, a)
    → (r.base_offset ≡ pos v.next) × (r.last_offset ≡ pos (v.next + d))
append_batch_offsets s3 now l batch w d r a v delta fits e =
    (append_batch_lem s3 now l batch w d v delta fits).1 r a e
