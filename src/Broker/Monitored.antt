-- ===== src/Broker/Monitored.antt =====
-- The monitor of the object store (recordS3Op of cmd/broker/main.go) only listens: a partition log does
-- through a monitored client what it does through the client itself.
use kafscale.Base.{
  ℕ, ◌≡◌, refl, ap, ◌∙◌, List, [], ◌∷◌, Option, none, some, Result, ok, err, arith, Bool-cases, inl,
  inr, Option-cases, Result-cases, ◌/◌, length, if◌then◌else◌,
}
use kafscale.Base.Int.{ℤ, ℤ_Key, pos, negsuc, ◌-ℤ◌, wrap64, leb_ℤ}
use kafscale.Base.Bytes.{Bytes}
use kafscale.Base.Maps.{put}
use kafscale.Base.Sort.{sort}
use kafscale.Storage.Types.{RecordBatch, SegmentArtifact, Error, IndexEntry}
use kafscale.Storage.Lookup.{SegmentRange}
use kafscale.Storage.S3.{S3Client, S3Object}
use kafscale.Storage.Buffer.{drain, should_flush}
use kafscale.Storage.Segment.{build_segment}
use kafscale.Storage.Log.{
  PartitionLog, World, Flushed, segment, up_to, nothing, upload_artifact, flush_locked,
  append_batch, flush, start_prefetch, cache_segment, buffer_batch, segment_key, index_key,
  add_segment, segment_prefix,
}
use kafscale.Storage.Log.Restore.{
  restore_from_s3, find_segments, find_segment, with_found, install, last_of, by_base, read_footer,
  read_index, read_indexes,
}
use kafscale.Broker.Types.{Observed, observe}

-- The world without the monitor.
abbrev pub forget : {S : Type 0} → World (Observed S) → World S
forget w = record { s3 = w.s3.objects; cache = w.cache; prefetches = w.prefetches }

-- What an operation of the log leaves, without the monitor.
abbrev pub forgotten :
    {S A : Type 0} → PartitionLog × World (Observed S) × A → PartitionLog × World S × A
forgotten (l, w, a) = (l, forget w, a)

-- Flush, behind flushLocked.
abbrev announce :
    {S : Type 0}
    → PartitionLog × World S × Result Error (Option SegmentArtifact)
    → PartitionLog × World S × Result Error Flushed
announce (l, w, flushed) =
    let current = wrap64 (l.next_offset -ℤ pos 1) in
    (
      l,
      w,
      elim flushed [
        | err e ↦ err e
        | ok (some a) ↦ ok (segment a)
        | ok none ↦ ok (if leb_ℤ (pos 0) current then up_to current else nothing)
      ],
    )

module _ {S : Type 0} (now : ℕ) (latency : S → ℕ) (s3 : S3Client S) where
  start_prefetch-forget :
      (l : PartitionLog) (n : ℕ) (w : World (Observed S))
      → forget (start_prefetch l n w) ≡ start_prefetch l n (forget w)
  unfolding start_prefetch
  start_prefetch-forget l n w = ground arith

  cache_segment-forget :
      (l : PartitionLog) (base : ℤ) (bs : Bytes) (w : World (Observed S))
      → forget (cache_segment l base bs w) ≡ cache_segment l base bs (forget w)
  unfolding cache_segment
  cache_segment-forget l base bs w = ground arith

  settled-forget :
      (l' l : PartitionLog) (n : ℕ) (base : ℤ) (bs : Bytes) (w : World (Observed S))
      → forget (start_prefetch l' n (cache_segment l base bs w))
        ≡ start_prefetch l' n (cache_segment l base bs (forget w))
  settled-forget l' l n base bs w =
      start_prefetch-forget l' n (cache_segment l base bs w)
      ∙ ap (λ x. start_prefetch l' n x) (cache_segment-forget l base bs w)

  upload_artifact-forget :
      (l : PartitionLog) (a : SegmentArtifact) (w : World (Observed S))
      → forgotten (upload_artifact (observe now latency s3) l a w)
        ≡ upload_artifact s3 l a (forget w)
  unfolding upload_artifact observe
  upload_artifact-forget l a w =
      let (after, uploaded) =
        s3.upload_segment (segment_key l a.base_offset) a.segment_bytes w.s3.objects in
      let (after', indexed) = s3.upload_index (index_key l a.base_offset) a.index_bytes after in
      elim (Bool-cases uploaded) [
        | inr no_segment ↦ rw (no_segment, upload_artifact) refl
        | inl yes_segment ↦ elim (Bool-cases indexed) [
          | inr no_index ↦ rw (yes_segment, no_index, upload_artifact) refl
          | inl yes_index ↦
              rw (yes_segment, yes_index, upload_artifact)
                (ap (λ x. (add_segment l a, x, ok (some a)))
                  (settled-forget (add_segment l a) l (length l.segments) a.base_offset
                    a.segment_bytes _))
        ]
      ]

  flush_batches-forget :
      (at : ℕ) (l : PartitionLog) (w : World (Observed S)) (bs : List RecordBatch)
      → (drain l.buffer at).1 ≡ bs
      → forgotten (flush_locked (observe now latency s3) at l w) ≡ flush_locked s3 at l (forget w)
  unfolding flush_locked
  flush_batches-forget at l w [] e = rw (e, flush_locked) refl
  flush_batches-forget at l w (batch ∷ bs) e =
      elim (Result-cases (build_segment l.cfg.segment (batch ∷ bs) (pos (at / 1000000)))) [
        | inr (x, failed) ↦ rw (e, flush_locked, failed) refl
        | inl (a, built) ↦ rw (e, flush_locked, built) (upload_artifact-forget _ a w)
      ]

  flush_locked-forget :
      (at : ℕ) (l : PartitionLog) (w : World (Observed S))
      → forgotten (flush_locked (observe now latency s3) at l w) ≡ flush_locked s3 at l (forget w)
  flush_locked-forget at l w = flush_batches-forget at l w (drain l.buffer at).1 refl

  pub flush-forget :
      (at : ℕ) (l : PartitionLog) (w : World (Observed S))
      → forgotten (flush (observe now latency s3) at l w) ≡ flush s3 at l (forget w)
  unfolding flush
  flush-forget at l w = ap announce (flush_locked-forget at l w)

  pub append_batch-forget :
      (at : ℕ) (l : PartitionLog) (batch : RecordBatch) (w : World (Observed S))
      → forgotten (append_batch (observe now latency s3) at l batch w)
        ≡ append_batch s3 at l batch (forget w)
  unfolding append_batch
  append_batch-forget at l batch w = elim (Result-cases (buffer_batch l batch)) [
    | inr (x, failed) ↦ rw (failed, append_batch) refl
    | inl ((l', r), buffered) ↦ elim (Bool-cases (should_flush l'.buffer at)) [
      | inr small ↦ rw (buffered, append_batch, small) refl
      | inl full ↦ rw (buffered, append_batch, full) (rw (← flush_locked-forget at l' w) refl)
    ]
  ]

  abbrev drop_monitor : {A : Type 0} → Observed S × A → S × A
  drop_monitor (o, a) = (o.objects, a)

  read_footer-forget :
      (obj : S3Object) (base : ℤ) (o : Observed S)
      → drop_monitor (read_footer (observe now latency s3) obj base o)
        ≡ read_footer s3 obj base o.objects
  unfolding read_footer observe
  read_footer-forget obj base o = refl

  find_segment-forget :
      (obj : S3Object) (o : Observed S)
      → drop_monitor (find_segment (observe now latency s3) obj o) ≡ find_segment s3 obj o.objects
  unfolding find_segment read_footer observe
  find_segment-forget obj o = ground arith

  abbrev join_found :
      Option SegmentRange
      → S × Result Error (List SegmentRange)
      → S × Result Error (List SegmentRange)
  join_found seg (z, rest) = (z, elim rest [ err e ↦ err e | ok segs ↦ ok (with_found seg segs) ])

  find_segments-forget :
      (objs : List S3Object) (o : Observed S)
      → drop_monitor (find_segments (observe now latency s3) objs o)
        ≡ find_segments s3 objs o.objects
  unfolding find_segments
  find_segments-forget [] o = refl
  find_segments-forget (obj ∷ objs) o =
      let monitored : Observed S × Result Error (Option SegmentRange) =
        find_segment (observe now latency s3) obj o in
      let plain : S × Result Error (Option SegmentRange) = find_segment s3 obj o.objects in
      let same_state : monitored.0.objects ≡ plain.0 = ap (λ x. x.0) (find_segment-forget obj o) in
      let same_result : monitored.1 ≡ plain.1 = ap (λ x. x.1) (find_segment-forget obj o) in
      let same_rest : drop_monitor (find_segments (observe now latency s3) objs monitored.0)
          ≡ find_segments s3 objs plain.0 =
        find_segments-forget objs monitored.0 ∙ ap (λ z. find_segments s3 objs z) same_state in
      elim (Result-cases plain.1) [
        | inr (x, e) ↦ rw (same_result ∙ e, e, find_segments) (ap (λ z. (z, err x)) same_state)
        | inl (found, e) ↦ rw (same_result ∙ e, e, find_segments) (ap (join_found found) same_rest)
      ]

  read_index-forget :
      (l : PartitionLog) (seg : SegmentRange) (o : Observed S)
      → drop_monitor (read_index (observe now latency s3) l seg o) ≡ read_index s3 l seg o.objects
  unfolding read_index observe
  read_index-forget l seg o = refl

  read_indexes-forget :
      (l : PartitionLog) (segs : List SegmentRange) (m : List (ℤ × List IndexEntry))
      (o : Observed S)
      → drop_monitor (read_indexes (observe now latency s3) l segs m o)
        ≡ read_indexes s3 l segs m o.objects
  unfolding read_indexes
  read_indexes-forget l [] m o = refl
  read_indexes-forget l (seg ∷ segs) m o =
      let monitored : Observed S × Result Error (List IndexEntry) =
        read_index (observe now latency s3) l seg o in
      let plain : S × Result Error (List IndexEntry) = read_index s3 l seg o.objects in
      let same_state : monitored.0.objects ≡ plain.0 = ap (λ x. x.0) (read_index-forget l seg o) in
      let same_result : monitored.1 ≡ plain.1 = ap (λ x. x.1) (read_index-forget l seg o) in
      elim (Result-cases plain.1) [
        | inr (x, e) ↦ rw (same_result ∙ e, e, read_indexes) (ap (λ z. (z, err x)) same_state)
        | inl (entries, e) ↦
            let m' : List (ℤ × List IndexEntry) = put seg.base_offset entries m in
            rw (same_result ∙ e, e, read_indexes)
              (read_indexes-forget l segs m' monitored.0
                ∙ ap (λ z. read_indexes s3 l segs m' z) same_state)
      ]

  abbrev drop_monitor_of : {A B : Type 0} → Observed S × A × B → S × A × B
  drop_monitor_of (o, a, r) = (o.objects, a, r)

  -- The part of RestoreFromS3 behind the sorting.
  abbrev sorted_restore :
      {T : Type 0}
      → S3Client T
      → PartitionLog
      → List SegmentRange
      → T
      → T × PartitionLog × Result Error ℤ
  sorted_restore client l ranges s = elim ranges [
    | [] ↦ (s, l, ok (negsuc 0))
    | seg ∷ segs ↦
        let (s', indexes) = read_indexes client l (seg ∷ segs) [] s in
        let last = last_of seg segs in
        elim indexes [
          | err e ↦ (s', l, err e)
          | ok by_offset ↦ (s', install l (seg ∷ segs) by_offset last, ok last)
        ]
  ]

  sorted_restore-forget :
      (l : PartitionLog) (ranges : List SegmentRange) (o : Observed S)
      → drop_monitor_of (sorted_restore (observe now latency s3) l ranges o)
        ≡ sorted_restore s3 l ranges o.objects
  sorted_restore-forget l [] o = refl
  sorted_restore-forget l (seg ∷ segs) o =
      let same = read_indexes-forget l (seg ∷ segs) [] o in
      elim (Result-cases (read_indexes s3 l (seg ∷ segs) [] o.objects).1) [
        | inr (x, e) ↦
            rw (ap (λ z. z.1) same ∙ e, sorted_restore, e) (ap (λ z. (z.0, l, err x)) same)
        | inl (m, e) ↦
            rw (ap (λ z. z.1) same ∙ e, sorted_restore, e)
              (ap (λ z. (z.0, install l (seg ∷ segs) m (last_of seg segs), ok (last_of seg segs)))
                same)
      ]

  -- A restore through a monitored client is a restore through the client.
  pub restore_from_s3-forget :
      (l : PartitionLog) (o : Observed S)
      → drop_monitor_of (restore_from_s3 (observe now latency s3) l o)
        ≡ restore_from_s3 s3 l o.objects
  unfolding restore_from_s3 observe
  restore_from_s3-forget l o =
      elim (Option-cases (s3.list_segments (segment_prefix l) o.objects).1) [
        | inl e ↦ rw (e, restore_from_s3) refl
        | inr (objs, e) ↦
            let listed : Observed S = record {
              objects = (s3.list_segments (segment_prefix l) o.objects).0;
              monitor = o.monitor;
            } in
            let same = find_segments-forget objs listed in
            elim (Result-cases (find_segments s3 objs listed.objects).1) [
              | inr (x, failed) ↦
                  rw (e, restore_from_s3, ap (λ z. z.1) same ∙ failed, failed)
                    (ap (λ z. (z.0, l, err x)) same)
              | inl (unsorted, found) ↦
                  rw (e, restore_from_s3, ap (λ z. z.1) same ∙ found, found)
                    (sorted_restore-forget l (sort by_base unsorted)
                        (find_segments (observe now latency s3) objs listed).0
                      ∙ ap (λ z. sorted_restore s3 l (sort by_base unsorted) z.0) same)
            ]
      ]
