-- ===== src/Storage/Types.antt =====
-- pkg/storage/types.go, and the errors of the package.
use kafscale.Base.{List}
use kafscale.Base.Int.{ℤ}
use kafscale.Base.Bytes.{Bytes}

-- The error values that the package makes, without their text. `panic` is no error value: the Go
-- runtime stops the goroutine there (an index out of range, a slice of negative length).
pub data Error : Type 0 where
  batch_too_small no_batches batch_empty : Error
  footer_too_small invalid_footer_magic : Error
  index_too_small invalid_index_magic unsupported_version : Error
  end_of_file offset_out_of_range s3_failed panic : Error

pub record RecordBatch : Type 0 where
  pub base_offset : ℤ  -- int64
  pub last_offset_delta : ℤ  -- int32
  pub message_count : ℤ  -- int32
  pub bytes : Bytes

pub record SegmentWriterConfig : Type 0 where
  pub index_interval_messages : ℤ  -- int32

pub record IndexEntry : Type 0 where
  pub offset : ℤ  -- int64
  pub position : ℤ  -- int32

-- `created_at` is the time in milliseconds, which is all that the segment records of it.
pub record SegmentArtifact : Type 0 where
  pub base_offset : ℤ
  pub last_offset : ℤ
  pub message_count : ℤ
  pub created_at : ℤ
  pub segment_bytes : Bytes
  pub index_bytes : Bytes
  pub relative_index : List IndexEntry
