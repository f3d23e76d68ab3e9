-- ===== src/Storage/Log.antt =====
-- pkg/storage/log.go: PartitionLog's state, append and flush. `Read` is in the child module Reads.
-- The lock of the log is held across each operation, uploads included, so an operation is a step.
pub mod Reads
pub mod Order
pub mod Offsets
pub mod Failures
pub mod Success
pub mod Restore
use kafscale.Base.{
  ℕ, zero, suc, ◌+◌, ◌-◌, ◌/◌, Bool, true, false, ◌&&◌, ◌||◌, not, List, [], ◌∷◌, ◌++◌, Option,
  none, some, Result, ok, err, ltb, leb, ◌==◌, if◌then◌else◌, length, take, drop,
}
use kafscale.Base.Int.{ℤ, pos, ◌+ℤ◌, ◌-ℤ◌, leb_ℤ, eqb_ℤ, wrap64}
use kafscale.Base.Bytes.{Bytes}
use kafscale.Base.Maps.{Str, put}
use kafscale.Base.Int.{ℤ_Key}
use kafscale.Base.Decimal.{decimal, decimal20}
use kafscale.Cache.{SegmentCache, get_segment, set_segment}
use kafscale.Storage.Types.{
  RecordBatch, SegmentWriterConfig, SegmentArtifact, IndexEntry, Error, s3_failed,
}
use kafscale.Storage.RecordBatch.{patch_base_offset}
use kafscale.Storage.Segment.{build_segment}
use kafscale.Storage.Lookup.{SegmentRange}
use kafscale.Storage.Buffer.{
  WriteBuffer, WriteBufferConfig, new_write_buffer, append, should_flush, drain,
}
use kafscale.Storage.S3.{S3Client}

pub record PartitionLogConfig : Type 0 where
  pub buffer : WriteBufferConfig
  pub segment : SegmentWriterConfig
  pub read_ahead_segments : ℕ  -- a negative int reads nothing ahead, as 0 does
  pub cache_enabled : Bool

pub record PartitionLog : Type 0 where
  pub namespace : Str
  pub topic : Str
  pub partition : ℤ  -- int32
  pub cfg : PartitionLogConfig
  pub buffer : WriteBuffer
  pub next_offset : ℤ  -- int64
  pub segments : List SegmentRange
  pub index_entries : List (ℤ × List IndexEntry)

-- What the logs of a broker share: the store and the cache (`none` for a nil cache). `prefetches`
-- holds the segments that the goroutines started by startPrefetch have not fetched yet.
pub record World (S : Type 0) : Type 0 where
  pub s3 : S
  pub cache : Option SegmentCache
  pub prefetches : List SegmentRange

unfoldable pub new_partition_log : Str → Str → ℤ → ℤ → PartitionLogConfig → ℕ → PartitionLog
new_partition_log namespace topic partition start_offset cfg now = record {
  namespace = elim namespace [ [] ↦ 100 ∷ 101 ∷ 102 ∷ 97 ∷ 117 ∷ 108 ∷ 116 ∷ [] | c ∷ cs ↦ c ∷ cs ];
  topic = topic;
  partition = partition;
  cfg = cfg;
  buffer = new_write_buffer cfg.buffer now;
  next_offset = start_offset;
  segments = [];
  index_entries = [];
}

-- `path.Join` of names with no slash, none of them empty, "." or "..", which it would clean away.
unfoldable pub segment_prefix : PartitionLog → Str
segment_prefix l = l.namespace ++ (47 ∷ (l.topic ++ (47 ∷ (decimal l.partition ++ (47 ∷ [])))))

-- "segment-%020d"
abbrev segment_name : ℤ → Str
segment_name base = 115 ∷ 101 ∷ 103 ∷ 109 ∷ 101 ∷ 110 ∷ 116 ∷ 45 ∷ decimal20 base

-- The name and ".kfs"
unfoldable pub segment_key : PartitionLog → ℤ → Str
segment_key l base = segment_prefix l ++ (segment_name base ++ (46 ∷ 107 ∷ 102 ∷ 115 ∷ []))

-- The name and ".index"
unfoldable pub index_key : PartitionLog → ℤ → Str
index_key l base =
    segment_prefix l ++ (segment_name base ++ (46 ∷ 105 ∷ 110 ∷ 100 ∷ 101 ∷ 120 ∷ []))

unfoldable pub cache_topic_key : PartitionLog → Str
cache_topic_key l = l.namespace ++ (47 ∷ l.topic)

-- The loop of startPrefetch over the segments ahead: a cached one is touched, another is fetched.
unfoldable pub prefetch_loop :
    PartitionLog → List SegmentRange → SegmentCache → List SegmentRange × SegmentCache
prefetch_loop l [] c = ([], c)
prefetch_loop l (seg ∷ segs) c =
    let (c', hit) = get_segment c (cache_topic_key l) l.partition seg.base_offset in
    let (todo, c'') = prefetch_loop l segs c' in
    (elim hit [ some data_bytes ↦ todo | none ↦ seg ∷ todo ], c'')

unfoldable pub start_prefetch : {S : Type 0} → PartitionLog → ℕ → World S → World S
start_prefetch l next_index w = elim w.cache [
  | none ↦ w
  | some c ↦
      let (todo, c') =
        prefetch_loop l (take l.cfg.read_ahead_segments (drop next_index l.segments)) c in
      if l.cfg.cache_enabled && ltb 0 l.cfg.read_ahead_segments
      then record w { cache = some c'; prefetches = w.prefetches ++ todo }
      else w
]

-- `if l.cache != nil && l.cfg.CacheEnabled { l.cache.SetSegment(...) }`
unfoldable pub cache_segment : {S : Type 0} → PartitionLog → ℤ → Bytes → World S → World S
cache_segment l base bs w = elim w.cache [
  | none ↦ w
  | some c ↦
      if l.cfg.cache_enabled
      then record w { cache = some (set_segment c (cache_topic_key l) l.partition base bs) }
      else w
]

-- The log after both uploads: the new segment, and its index.
unfoldable pub add_segment : PartitionLog → SegmentArtifact → PartitionLog
add_segment l a = record l {
  segments =
      l.segments
      ++ (record {
        base_offset = a.base_offset;
        last_offset = a.last_offset;
        size = pos (length a.segment_bytes);
      })
        ∷ [];
  index_entries = put a.base_offset a.relative_index l.index_entries;
}

-- flushLocked behind the build: the uploads, then the log's own bookkeeping.
unfoldable pub upload_artifact :
    {S : Type 0}
    → S3Client S
    → PartitionLog
    → SegmentArtifact
    → World S
    → PartitionLog × World S × Result Error (Option SegmentArtifact)
upload_artifact s3 l a w =
    let (s, uploaded) = s3.upload_segment (segment_key l a.base_offset) a.segment_bytes w.s3 in
    let (s', indexed) = s3.upload_index (index_key l a.base_offset) a.index_bytes s in
    let l' = add_segment l a in
    let w' = cache_segment l a.base_offset a.segment_bytes (record w { s3 = s' }) in
    if uploaded
    then (if indexed
        then (l', start_prefetch l' (length l.segments) w', ok (some a))
        else (l, record w { s3 = s' }, err s3_failed))
    else (l, record w { s3 = s }, err s3_failed)

-- `now` is read once for both the buffer's clock and the time of creation.
unfoldable pub flush_locked :
    {S : Type 0}
    → S3Client S
    → ℕ
    → PartitionLog
    → World S
    → PartitionLog × World S × Result Error (Option SegmentArtifact)
flush_locked s3 now l w =
    let (buffer, batches) = drain l.buffer now in
    let drained = record l { buffer = buffer } in
    elim batches [
      | [] ↦ (drained, w, ok none)
      | b ∷ bs ↦ elim (build_segment l.cfg.segment (b ∷ bs) (pos (now / 1000000))) [
        | err e ↦ (drained, w, err e)
        | ok a ↦ upload_artifact s3 drained a w
      ]
    ]

pub record AppendResult : Type 0 where
  pub base_offset : ℤ
  pub last_offset : ℤ

-- The log with the batch in its buffer, and the offsets given to it.
unfoldable pub buffer_batch :
    PartitionLog → RecordBatch → Result Error (PartitionLog × AppendResult)
buffer_batch l batch = elim (patch_base_offset batch l.next_offset) [
  | err e ↦ err e
  | ok b ↦
      let next = wrap64 (wrap64 (l.next_offset +ℤ batch.last_offset_delta) +ℤ pos 1) in
      ok (
        record l { next_offset = next; buffer = append l.buffer b },
        record { base_offset = l.next_offset; last_offset = wrap64 (next -ℤ pos 1) },
      )
]

-- The artifact is the one that the onFlush callback gets, after the lock is released. `now` stands
-- for the calls of time.Now.
unfoldable pub append_batch :
    {S : Type 0}
    → S3Client S
    → ℕ
    → PartitionLog
    → RecordBatch
    → World S
    → PartitionLog × World S × Result Error (AppendResult × Option SegmentArtifact)
append_batch s3 now l batch w = elim (buffer_batch l batch) [
  | err e ↦ (l, w, err e)
  | ok (l', result) ↦
      let (l'', w', flushed) = flush_locked s3 now l' w in
      if should_flush l'.buffer now
      then (l'', w', elim flushed [ err e ↦ err e | ok artifact ↦ ok (result, artifact) ])
      else (l', w, ok (result, none))
]

-- The artifact handed to onFlush: with nothing to flush, one that holds only the last offset, which
-- is absent in an empty log.
pub data Flushed : Type 0 where
  segment : SegmentArtifact → Flushed
  up_to : ℤ → Flushed
  nothing : Flushed

unfoldable pub flush :
    {S : Type 0}
    → S3Client S
    → ℕ
    → PartitionLog
    → World S
    → PartitionLog × World S × Result Error Flushed
flush s3 now l w =
    let (l', w', flushed) = flush_locked s3 now l w in
    let current = wrap64 (l'.next_offset -ℤ pos 1) in
    (
      l',
      w',
      elim flushed [
        | err e ↦ err e
        | ok (some a) ↦ ok (segment a)
        | ok none ↦ ok (if leb_ℤ (pos 0) current then up_to current else nothing)
      ],
    )

unfoldable pub earliest_offset : PartitionLog → ℤ
earliest_offset l = elim l.segments [ [] ↦ pos 0 | s ∷ ss ↦ s.base_offset ]
