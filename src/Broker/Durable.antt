-- ===== src/Broker/Durable.antt =====
-- What Produce acknowledges (cmd/broker/main.go) is there after a restart: the append, its flush, and the log
-- that another broker restores.
use kafscale.Base.{
  ℕ, suc, ◌+◌, ◌<◌, ◌≡◌, refl, sym, ap, ◌∙◌, true, Option, none, some, ok, arith, inl, inr,
  Result-cases, length,
}
use kafscale.Base.Int.{ℤ, pos}
use kafscale.Base.Maps.{Str}
use kafscale.Storage.Types.{RecordBatch, SegmentArtifact}
use kafscale.Storage.S3.{S3Client, MemoryS3, memory_s3}
use kafscale.Storage.Log.{
  PartitionLog, World, AppendResult, append_batch, flush_locked, Flushed, flush, segment_prefix,
  new_partition_log,
}
use kafscale.Storage.Log.Offsets.{Inv}
use kafscale.Storage.RecordBatch.{patch_base_offset}
use kafscale.Storage.Log.Restore.Recorded.{Recorded}
use kafscale.Storage.Log.Restore.{restore_from_s3}
use kafscale.Storage.Log.Restore.Restart.{Mirrors}
use kafscale.Storage.Log.Restore.Survival.{appended, world, stored, append-flush_survives}
use kafscale.Broker.Types.{Broker, Handler, observe, backpressure_error_code}
use kafscale.Broker.Logs.{found, put_log, check_health, open_log}
use kafscale.Broker.Produce.{
  append_to_log, finish_append, refuse_by_health, on_flush, flushed_to, artifact_to,
}
use kafscale.Broker.Monitored.{forget, append_batch-forget, flush-forget, restore_from_s3-forget}

abbrev pub on_memory : {M : Type 0} → Broker M MemoryS3 → Broker M MemoryS3
on_memory b = record b { s3 = memory_s3 }

refuse_by_health-error :
    {M S : Type 0} (now : ℕ) (partition : ℤ) (b : Broker M S) (h : Handler M S)
    → (refuse_by_health b now partition h).1.error_code ≡ pos 0
    → ⊥
unfolding refuse_by_health backpressure_error_code check_health
refuse_by_health-error now partition b h e = ground arith

flush-ok :
    {S : Type 0} (s3 : S3Client S) (now : ℕ) (l : PartitionLog) (w : World S) (f : Flushed)
    → (flush s3 now l w).2 ≡ ok f
    → (a : Option SegmentArtifact) × ((flush_locked s3 now l w).2 ≡ ok a)
unfolding flush
flush-ok s3 now l w f e = elim (Result-cases (flush_locked s3 now l w).2) [
  | inl (a, done) ↦ (a, done)
  | inr (x, failed) ↦ cc (rw (failed, flush) at e)
]

module _ {M : Type 0} (b : Broker M MemoryS3) (now : ℕ) (topic : Str) (partition : ℤ) where
  on_flush-world :
      (last : Option ℤ) (h : Handler M MemoryS3)
      → (on_flush (on_memory b) topic partition last h).world ≡ h.world
  unfolding on_flush
  on_flush-world none h = refl
  on_flush-world (some last) h = refl

  finish_append-acknowledged :
      (l : PartitionLog) (r : AppendResult) (h : Handler M MemoryS3)
      → b.flush_on_ack ≡ true
      → let out = finish_append (on_memory b) now true topic partition l r h in
        out.1.error_code ≡ pos 0
        → (a : Option SegmentArtifact) × ((flush_locked memory_s3 now l (forget h.world)).2 ≡ ok a)
          × (out.0.world.s3.objects ≡ (flush_locked memory_s3 now l (forget h.world)).1.s3)
          × (out.1.base_offset ≡ r.base_offset)
  unfolding finish_append put_log flush
  finish_append-acknowledged l r h on_ack e =
      let monitored = flush (observe now b.latency memory_s3) now l h.world in
      let same = flush-forget now b.latency memory_s3 now l h.world in
      elim (Result-cases monitored.2) [
        | inr (x, failed) ↦ absurd (
            refuse_by_health-error now partition (on_memory b) _
              (rw (on_ack, finish_append, failed) at e))
        | inl (f, done) ↦
            let (a, flushed_ok) =
              flush-ok memory_s3 now l (forget h.world) f (sym (ap (λ z. z.2) same) ∙ done) in
            (
              a,
              flushed_ok,
              rw (on_ack, finish_append, done)
                  (ap (λ w. w.s3.objects) (on_flush-world (flushed_to f) _)
                    ∙ ap (λ z. z.1.s3) same),
              rw (on_ack, finish_append, done) refl,
            )
      ]

  -- An acknowledged append: both calls of the log succeeded, and the handler's store is the one after them.
  append_to_log-acknowledged :
      (l : PartitionLog) (batch : RecordBatch) (h : Handler M MemoryS3)
      → b.flush_on_ack ≡ true
      → let out = append_to_log (on_memory b) now true topic partition l batch h in
        out.1.error_code ≡ pos 0
        → let w = forget h.world in
          (r : AppendResult) × (a : Option SegmentArtifact) × (a' : Option SegmentArtifact)
          × ((append_batch memory_s3 now l batch w).2 ≡ ok (r, a))
          × ((flush_locked memory_s3 now (appended now l batch w) (world now l batch w)).2 ≡ ok a')
          × (out.0.world.s3.objects ≡ stored now l batch w)
          × (out.1.base_offset ≡ r.base_offset)
  unfolding append_to_log put_log
  append_to_log-acknowledged l batch h on_ack e =
      let monitored = append_batch (observe now b.latency memory_s3) now l batch h.world in
      let same = append_batch-forget now b.latency memory_s3 now l batch h.world in
      elim (Result-cases monitored.2) [
        | inr (x, failed) ↦
            absurd (
              refuse_by_health-error now partition (on_memory b) _
                (rw (failed, append_to_log) at e))
        | inl ((r, a), done) ↦
            let after : Handler M MemoryS3 =
              on_flush (on_memory b) topic partition (artifact_to a)
                (put_log topic partition monitored.0 (record h { world = monitored.1 })) in
            let (a', all, objects, base) =
              finish_append-acknowledged monitored.0 r after on_ack
                (rw (done, append_to_log) at e) in
            let same_flush =
              ap (λ x. flush_locked memory_s3 now monitored.0 (forget x))
                (on_flush-world (artifact_to a)
                  (put_log topic partition monitored.0 (record h { world = monitored.1 })))
              ∙ ap (λ z. flush_locked memory_s3 now z.0 z.1) same in
            (
              r,
              a,
              a',
              sym (ap (λ z. z.2) same) ∙ done,
              sym (ap (λ z. z.2) same_flush) ∙ all,
              rw (done, append_to_log) (objects ∙ ap (λ z. z.1.s3) same_flush),
              rw (done, append_to_log) base,
            )
      ]

  -- What is acknowledged survives a restart: if Produce answers for a batch without an error, where
  -- acknowledgements wait for the flush, then any broker that opens the log later on what the object store
  -- holds then, whatever its metadata store says, finds a segment for the answer's base offset, and the
  -- object of this segment holds the bytes of the batch, with the base offset written into them. The log's
  -- offsets are in order and its segments in the memory store before, the batch has a last offset delta of
  -- d, the offsets fit an int64, there is room for the batch among 2^31, and both logs have the same names.
  pub acknowledged_survives :
      {M' : Type 0} (l : PartitionLog) (batch : RecordBatch) (h : Handler M MemoryS3) (d : ℕ)
      (b' : Broker M' MemoryS3) (h' : Handler M' MemoryS3) (later : ℕ) (next : ℤ)
      → b.flush_on_ack ≡ true
      → (v : Inv l) → batch.last_offset_delta ≡ pos d
      → v.next + d + 1 < 9223372036854775808
      → suc (length l.buffer.batches) < 2147483648
      → Mirrors l h.world.s3.objects
      → let out = append_to_log (on_memory b) now true topic partition l batch h in
        out.1.error_code ≡ pos 0
        → h'.world.s3.objects ≡ out.0.world.s3.objects
        → segment_prefix
            (new_partition_log b'.s3_namespace topic partition next b'.log_config later)
          ≡ segment_prefix l
        → (l' : PartitionLog) × (written : RecordBatch) × ((open_log
              (on_memory b')
              later
              topic
              partition
              next
              h').1
            ≡ found l')
          × (patch_base_offset batch out.1.base_offset ≡ ok written)
          × Recorded l' h'.world.s3.objects out.1.base_offset written.bytes
  unfolding open_log
  acknowledged_survives l batch h d b' h' later next on_ack v delta fits few m e kept names =
      let (r, a, a', done, all, objects, base) = append_to_log-acknowledged l batch h on_ack e in
      let fresh = new_partition_log b'.s3_namespace topic partition next b'.log_config later in
      let (l', last, written, restored, patched, recorded) =
        append-flush_survives now l batch (forget h.world) d fresh r a a' v delta fits few m done
          all names in
      let monitored = restore_from_s3-forget later b'.latency memory_s3 fresh h'.world.s3 in
      let same =
        monitored ∙ ap (λ s. restore_from_s3 memory_s3 fresh s) (kept ∙ objects) ∙ restored in
      (
        l',
        written,
        rw (open_log, ap (λ z. z.2) same) (ap (λ z. found z.1) same),
        rw base patched,
        rw (kept ∙ objects, base) recorded,
      )
