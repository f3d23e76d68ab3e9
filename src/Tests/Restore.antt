-- ===== src/Tests/Restore.antt =====
-- A partition log that is flushed, lost and restored.
use kafscale.Base.{List, ◌+◌, ◌<◌, ◌≡◌, refl, false, [], ◌∷◌, none, ok, arith, length}
use kafscale.Base.Int.{pos, wrap64, ◌+ℤ◌, ◌-ℤ◌}
use kafscale.Base.Shuffle.{Shuffle, none_left, keep, exchange}
use kafscale.Storage.Types.{RecordBatch}
use kafscale.Storage.RecordBatch.{patch_base_offset}
use kafscale.Storage.Index.{maybe_add, new_index_builder}
use kafscale.Storage.Segment.{artifact, build_segment, add_batches, add_batch, start, last_batch}
use kafscale.Base.Bytes.{be64}
use kafscale.Storage.Buffer.{new_write_buffer, append, should_flush, drain}
use kafscale.Storage.S3.{MemoryS3, memory_s3, objects_under}
use kafscale.Storage.Log.{
  PartitionLog, PartitionLogConfig, World, new_partition_log, append_batch, segment_prefix,
  buffer_batch, flush_locked, upload_artifact, add_segment,
}
use kafscale.Storage.Log.Offsets.{Inv, append_batch-Inv}
use kafscale.Storage.Log.Restore.{restore_from_s3, install}
use kafscale.Storage.Log.Restore.Restart.{
  Mirrors, last_in, append_batch-Mirrors, restore_from_s3-Mirrors,
}

-- Two records
abbrev pub batch : RecordBatch
batch = record {
  base_offset = pos 0;
  last_offset_delta = pos 1;
  message_count = pos 2;
  bytes = 0 ∷ 0 ∷ 0 ∷ 0 ∷ 0 ∷ 0 ∷ 0 ∷ 0 ∷ [];
}

-- Every batch is flushed at once.
abbrev pub config : PartitionLogConfig
config = record {
  buffer = record { max_bytes = 0; max_messages = 0; max_batches = 1; flush_interval = 0 };
  segment = record { index_interval_messages = pos 1 };
  read_ahead_segments = 0;
  cache_enabled = false;
}

abbrev pub new_log : PartitionLog
new_log = new_partition_log (110 ∷ []) (116 ∷ []) (pos 0) (pos 0) config 0

-- An order of a visit in which the first entry is the second.
abbrev pub turned : {A : Type 0} → List A → List A
turned [] = []
turned (x ∷ []) = x ∷ []
turned (x ∷ y ∷ xs) = y ∷ x ∷ xs

pub Shuffle-turned : {A : Type 0} (xs : List A) → Shuffle xs (turned xs)
Shuffle-turned [] = none_left
Shuffle-turned (x ∷ []) = keep x none_left
Shuffle-turned (x ∷ y ∷ xs) = exchange x y xs

abbrev world : World MemoryS3
world = record {
  s3 = record { objects = []; index = []; visit = turned };
  cache = none;
  prefetches = [];
}

pub new_log-Inv : Inv new_log
unfolding new_partition_log new_write_buffer
new_log-Inv = record {
  start = 0;
  next = 0;
  next_is = refl;
  next_fits = omega arith;
  ordered = omega arith;
  buffered = refl;
}

pub new_log-Mirrors : Mirrors new_log world.s3
unfolding new_partition_log objects_under
new_log-Mirrors = record {
  arts = [];
  holds = record { listed = refl; held = tt; visited = Shuffle-turned };
  segments_are = refl;
  indexes_are = refl;
}

abbrev flushed : PartitionLog
flushed = (append_batch memory_s3 5 new_log batch world).0

abbrev written : World MemoryS3
written = (append_batch memory_s3 5 new_log batch world).1

pub few : 1 < 2147483648
few = omega arith

pub room : new_log-Inv.next + 1 + 1 < 9223372036854775808
unfolding new_partition_log new_write_buffer
room = unfold new_log-Inv in omega arith

append_batch-Mirrors_example : Mirrors flushed written.s3
unfolding new_partition_log new_write_buffer
append_batch-Mirrors_example =
    append_batch-Mirrors 5 new_log batch world 1 new_log-Inv refl room few new_log-Mirrors

flushed-Mirrors : Mirrors flushed written.s3
unfolding new_partition_log new_write_buffer
flushed-Mirrors =
    append_batch-Mirrors 5 new_log batch world 1 new_log-Inv refl room few new_log-Mirrors

flushed-Inv : Inv flushed
unfolding new_partition_log new_write_buffer append_batch buffer_batch patch_base_offset append
    should_flush flush_locked drain build_segment add_batches add_batch start maybe_add
    new_index_builder last_batch upload_artifact memory_s3 add_segment be64 wrap64 ◌+ℤ◌ ◌-ℤ◌
    artifact
flushed-Inv = record {
  start = 2;
  next = 2;
  next_is = refl;
  next_fits = omega arith;
  ordered = (0, 1, refl, refl, omega arith, omega arith, omega arith);
  buffered = refl;
}

-- With a second segment, which the store lists first.
abbrev twice : PartitionLog
twice = (append_batch memory_s3 6 flushed batch written).0

abbrev store : MemoryS3
store = (append_batch memory_s3 6 flushed batch written).1.s3

more_room : flushed-Inv.next + 1 + 1 < 9223372036854775808
more_room = unfold flushed-Inv in omega arith

few_buffered : length flushed.buffer.batches + 1 < 2147483648
unfolding new_partition_log new_write_buffer append_batch buffer_batch patch_base_offset append
    should_flush flush_locked drain build_segment add_batches add_batch start maybe_add
    new_index_builder last_batch upload_artifact memory_s3 add_segment be64
few_buffered = omega arith

twice-Mirrors : Mirrors twice store
twice-Mirrors =
    append_batch-Mirrors 6 flushed batch written 1 flushed-Inv refl more_room
      (omega (arith, few_buffered)) flushed-Mirrors

same_names : segment_prefix new_log ≡ segment_prefix twice
unfolding new_partition_log new_write_buffer append_batch buffer_batch patch_base_offset append
    should_flush flush_locked drain build_segment add_batches add_batch start maybe_add
    new_index_builder last_batch upload_artifact memory_s3 add_segment be64 segment_prefix
same_names = refl

two_segments : length twice.segments ≡ 2
unfolding new_partition_log new_write_buffer append_batch buffer_batch patch_base_offset append
    should_flush flush_locked drain build_segment add_batches add_batch start maybe_add
    new_index_builder last_batch upload_artifact memory_s3 add_segment be64
two_segments = refl

restore_from_s3-Mirrors_example : restore_from_s3 memory_s3 new_log store ≡ (
  store,
  install new_log twice.segments twice.index_entries (last_in twice.segments),
  ok (last_in twice.segments),
)
restore_from_s3-Mirrors_example =
    restore_from_s3-Mirrors twice new_log store same_names
      (append_batch-Inv memory_s3 6 flushed batch written 1 flushed-Inv refl more_room)
      (omega (arith, two_segments)) twice-Mirrors
