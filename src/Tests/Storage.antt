-- ===== src/Tests/Storage.antt =====
-- Runs of the partition log and its formats.
use kafscale.Base.{
  ℕ, zero, suc, ◌+◌, ◌-◌, ◌≤◌, ◌<◌, ◌≡◌, refl, true, false, List, [], ◌∷◌, ◌++◌, Option, none, some,
  Result, ok, err, arith, length, drop,
}
use kafscale.Base.Int.{ℤ, pos, wrap64, IsI64, IsI32, pos_part, ◌+ℤ◌, ◌<ℤ◌}
use kafscale.Base.Bytes.{Bytes, All}
use kafscale.Storage.Types.{RecordBatch, SegmentArtifact, IndexEntry, s3_failed, panic}
use kafscale.Storage.RecordBatch.{patch_base_offset, count_record_batch_messages}
use kafscale.Storage.RecordBatch.Count.{count_record_batch_messages_ends}
use kafscale.Storage.Index.{parse_index, build_bytes, new_index_builder, maybe_add}
use kafscale.Storage.Index.RoundTrip.{
  with_header, parse_index-build_bytes, parse_index_negative_count,
}
use kafscale.Storage.Segment.{
  Progress, add_batch, add_batches, start, artifact, last_batch, build_segment, header_len,
}
use kafscale.Storage.Segment.Positions.{Points, body_bytes, build_segment-Points}
use kafscale.Storage.Lookup.{SegmentRange, find_index_entry, range_from}
use kafscale.Storage.Lookup.Search.{IsSorted, find_index_entry_misses}
use kafscale.Storage.Lookup.Range.{IsRange, range_from-IsRange}
use kafscale.Storage.Buffer.{append, should_flush, drain, new_write_buffer}
use kafscale.Storage.S3.{S3Client, MemoryS3, memory_s3}
use kafscale.Storage.Log.{
  PartitionLog, PartitionLogConfig, World, AppendResult, new_partition_log, append_batch,
  buffer_batch, flush_locked, upload_artifact,
}
use kafscale.Storage.Log.Offsets.{Inv, append_batch-Inv, append_batch_offsets}
use kafscale.Storage.Log.Success.{HasBytes, Accepts, append_batch_succeeds}
use kafscale.Storage.Log.Failures.{flush_failure_drops}

-- Two records of eight bytes
abbrev batch : RecordBatch
batch = record {
  base_offset = pos 0;
  last_offset_delta = pos 1;
  message_count = pos 2;
  bytes = 0 ∷ 0 ∷ 0 ∷ 0 ∷ 0 ∷ 0 ∷ 0 ∷ 0 ∷ [];
}

-- A buffer that is full with two batches
abbrev config : PartitionLogConfig
config = record {
  buffer = record { max_bytes = 0; max_messages = 0; max_batches = 2; flush_interval = 0 };
  segment = record { index_interval_messages = pos 1 };
  read_ahead_segments = 0;
  cache_enabled = false;
}

abbrev empty_log : PartitionLog
empty_log = new_partition_log [] (116 ∷ []) (pos 0) (pos 0) config 0

abbrev world : World MemoryS3
world = record {
  s3 = record { objects = []; index = []; visit = λ m. m };
  cache = none;
  prefetches = [];
}

empty_log-Inv : Inv empty_log
unfolding new_partition_log new_write_buffer
empty_log-Inv = record {
  start = 0;
  next = 0;
  next_is = refl;
  next_fits = omega arith;
  ordered = omega arith;
  buffered = refl;
}

-- The log with one batch in the buffer
abbrev one_batch : PartitionLog
one_batch = (append_batch memory_s3 5 empty_log batch world).0

append_batch-Inv_example : Inv one_batch
append_batch-Inv_example =
    append_batch-Inv memory_s3 5 empty_log batch world 1 empty_log-Inv refl
      (unfold empty_log-Inv in omega arith)

abbrev entry_at : ℤ → ℤ → IndexEntry
entry_at offset position = record { offset = offset; position = position }

-- A batch behind the first one
abbrev next_batch : RecordBatch
next_batch = record batch { base_offset = pos 2; bytes = 0 ∷ 0 ∷ 0 ∷ 0 ∷ 0 ∷ 0 ∷ 0 ∷ 2 ∷ [] }

abbrev progress : Progress
progress = record {
  body = batch.bytes ++ next_batch.bytes;
  index = record {
    interval = pos 1;
    since_last = pos 2;
    entries = entry_at (pos 0) (pos 32) ∷ entry_at (pos 2) (pos 40) ∷ [];
  };
  total_messages = pos 4;
}

abbrev pair : List RecordBatch
pair = batch ∷ next_batch ∷ []

abbrev two_artifact : SegmentArtifact
two_artifact = artifact batch next_batch (pos 0) progress

built : build_segment config.segment pair (pos 0) ≡ ok two_artifact
unfolding build_segment add_batches add_batch start maybe_add new_index_builder last_batch
    kafscale.Base.Int.wrap32 ◌+ℤ◌
built = refl

pair_small : header_len + length (body_bytes pair) < 2147483648
pair_small = omega arith

build_segment-Points_example :
    All (Points pair two_artifact.segment_bytes) two_artifact.relative_index
build_segment-Points_example = build_segment-Points config.segment pair (pos 0) built pair_small

parse_index-build_bytes_example :
    parse_index (build_bytes progress.index) ≡ ok progress.index.entries
parse_index-build_bytes_example = parse_index-build_bytes progress.index (omega arith) (
  ((omega arith, omega arith), (omega arith, omega arith)),
  (((omega arith, omega arith), (omega arith, omega arith)), tt),
)

parse_index_negative_count_example : parse_index (with_header 4294967295 1 0 []) ≡ err panic
parse_index_negative_count_example =
    parse_index_negative_count 4294967295 1 0 [] (omega arith) (omega arith) (omega arith)
      (omega arith)

abbrev e0 : IndexEntry
e0 = entry_at (pos 0) (pos 32)

abbrev e1 : IndexEntry
e1 = entry_at (pos 10) (pos 132)

abbrev e2 : IndexEntry
e2 = entry_at (pos 20) (pos 232)

abbrev e3 : IndexEntry
e3 = entry_at (pos 30) (pos 332)

abbrev e4 : IndexEntry
e4 = entry_at (pos 40) (pos 432)

rising : IsSorted (e0 ∷ e1 ∷ [])
rising i j h k = ground arith

find_index_entry_misses_example : find_index_entry (e0 ∷ e1 ∷ e2 ∷ e3 ∷ e4 ∷ []) (pos 15) ≡ some e0
find_index_entry_misses_example =
    find_index_entry_misses e0 e1 e2 e3 e4 (pos 15) (omega arith) (omega arith) (omega arith)
      (omega arith)

abbrev segment : SegmentRange
segment = record { base_offset = pos 0; last_offset = pos 49; size = pos 1000 }

range_from-IsRange_example : IsRange 1000 132 (pos 100) (range_from segment e1 (pos 100))
range_from-IsRange_example =
    range_from-IsRange segment e1 1000 132 (pos 100) refl refl (omega arith) (omega arith)
      (omega arith)

-- A store that refuses every segment
abbrev broken_s3 : S3Client MemoryS3
broken_s3 = record memory_s3 { upload_segment = λ key bs s. (s, false) }

failed_flush :
    flush_locked broken_s3 9 one_batch world
    ≡ (record one_batch { buffer = new_write_buffer config.buffer 9 }, world, err s3_failed)
unfolding flush_locked append_batch buffer_batch upload_artifact drain append should_flush
    new_write_buffer new_partition_log patch_base_offset build_segment add_batches add_batch start
    maybe_add new_index_builder last_batch kafscale.Base.Bytes.be64
failed_flush = refl

flush_failure_drops_example :
    (drain one_batch.buffer 9).0.batches ≡ []
    × one_batch.segments ≡ one_batch.segments
    × one_batch.index_entries ≡ one_batch.index_entries
    × one_batch.next_offset ≡ one_batch.next_offset
unfolding drain new_write_buffer
flush_failure_drops_example = flush_failure_drops broken_s3 9 one_batch world failed_flush

one_batch-Inv : Inv one_batch
unfolding append_batch buffer_batch append should_flush new_write_buffer new_partition_log
    patch_base_offset kafscale.Base.Bytes.be64 drain flush_locked kafscale.Base.Int.wrap64 ◌+ℤ◌
one_batch-Inv = record {
  start = 0;
  next = 2;
  next_is = refl;
  next_fits = omega arith;
  ordered = omega arith;
  buffered = (1, refl, refl, refl);
}

abbrev second_result : AppendResult
second_result = record { base_offset = pos 2; last_offset = pos 3 }

-- The second batch fills the buffer, so that both are flushed.
second_append :
    (append_batch memory_s3 6 one_batch batch world).2 ≡ ok (second_result, some two_artifact)
unfolding flush_locked append_batch buffer_batch upload_artifact drain append should_flush
    new_write_buffer new_partition_log patch_base_offset build_segment add_batches add_batch start
    maybe_add new_index_builder last_batch kafscale.Base.Bytes.be64 kafscale.Base.Int.wrap64
    kafscale.Base.Int.wrap32 ◌+ℤ◌ memory_s3 kafscale.Base.Int.◌-ℤ◌
second_append = refl

append_batch_offsets_example :
    (second_result.base_offset ≡ pos one_batch-Inv.next)
    × (second_result.last_offset ≡ pos (one_batch-Inv.next + 1))
unfolding one_batch-Inv
append_batch_offsets_example =
    append_batch_offsets memory_s3 6 one_batch batch world 1 second_result (some two_artifact)
      one_batch-Inv refl (omega arith) second_append

memory_s3-Accepts : Accepts memory_s3
unfolding memory_s3
memory_s3-Accepts = record { segments = λ key bs s. refl; indexes = λ key bs s. refl }

one_batch-HasBytes : All HasBytes one_batch.buffer.batches
unfolding append_batch buffer_batch append should_flush new_write_buffer new_partition_log
    patch_base_offset kafscale.Base.Bytes.be64 drain flush_locked
one_batch-HasBytes = (refl, tt)

append_batch_succeeds_example :
    (r : AppendResult) × (a : Option SegmentArtifact) × ((append_batch memory_s3 6 one_batch batch
        world).2
      ≡ ok (r, a))
append_batch_succeeds_example =
    append_batch_succeeds memory_s3 6 one_batch batch world memory_s3-Accepts (omega arith)
      one_batch-HasBytes

abbrev short_set : Bytes
short_set = 1 ∷ 2 ∷ 3 ∷ []

count_record_batch_messages_ends_example :
    (n : ℕ) × (count_record_batch_messages short_set ≡ some n)
count_record_batch_messages_ends_example = count_record_batch_messages_ends short_set
