-- ===== src/Storage/RecordBatch.antt =====
-- pkg/storage/recordbatch.go: the fields of a Kafka record batch that the broker reads and patches.
pub mod Count
use kafscale.Base.{
  ℕ, zero, suc, ◌+◌, ◌++◌, Option, none, some, Result, ok, err, ltb, leb, ◌==◌, if◌then◌else◌,
  length, drop,
}
use kafscale.Base.Int.{ℤ, bits64, signed32, signed64}
use kafscale.Base.Bytes.{Bytes, be64, uint, slice}
use kafscale.Storage.Types.{RecordBatch, Error, batch_too_small, panic}

abbrev pub header_min_size : ℕ
header_min_size = 61

unfoldable pub new_record_batch : Bytes → Result Error RecordBatch
new_record_batch bs =
    if ltb (length bs) header_min_size
    then err batch_too_small
    else ok (record {
      base_offset = signed64 (uint (slice 0 8 bs));
      last_offset_delta = signed32 (uint (slice 23 27 bs));
      message_count = signed32 (uint (slice 57 61 bs));
      bytes = bs;
    })

-- Slicing `batch.Bytes[0:8]` panics where there are fewer than 8 bytes.
unfoldable pub patch_base_offset : RecordBatch → ℤ → Result Error RecordBatch
patch_base_offset b base =
    if ltb (length b.bytes) 8
    then err panic
    else ok (record b { bytes = be64 (bits64 base) ++ drop 8 b.bytes; base_offset = base })

-- The loop of CountRecordBatchMessages; `none` means that the fuel ran out.
unfoldable pub count_loop : ℕ → Bytes → ℕ → ℕ → Option ℕ
count_loop zero bs offset total = none
count_loop (suc fuel) bs offset total =
    let batch_len = uint (slice (offset + 8) (offset + 12) bs) in
    let frame_len = 12 + batch_len in
    let batch = slice offset (offset + frame_len) bs in
    let rest = count_loop fuel bs (offset + frame_len) (total + uint (slice 57 61 batch)) in
    if leb (offset + 12) (length bs)
    then (if batch_len == 0
        then some total
        else (if ltb (length bs) (offset + frame_len)
            then some total
            else (if ltb (length batch) header_min_size then some total else rest)))
    else some total

-- Each round but the last passes at least 13 bytes, so the length of the record set is fuel enough.
unfoldable pub count_record_batch_messages : Bytes → Option ℕ
unfolding count_loop
count_record_batch_messages bs =
    if ltb (length bs) header_min_size then some 0 else count_loop (suc (length bs)) bs 0 0
