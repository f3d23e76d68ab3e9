-- ===== src/Storage.antt =====
-- pkg/storage: record batches, segments and their index, the write buffer and the partition log.
pub mod Types
pub mod RecordBatch
pub mod Index
pub mod Segment
pub mod Lookup
pub mod Buffer
pub mod S3
pub mod Log
