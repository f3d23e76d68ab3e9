-- ===== src/Storage/Log/Failures.antt =====
-- What a failed flush does to the log.
use kafscale.Base.{ℕ, ◌≡◌, [], err, arith}
use kafscale.Storage.Types.{Error}
use kafscale.Storage.Buffer.{drain}
use kafscale.Storage.S3.{S3Client}
use kafscale.Storage.Log.{PartitionLog, World, upload_artifact, flush_locked}

-- A flush that fails, whatever the reason, leaves the buffer empty, and the segments, their index
-- entries and the next offset as they were: what it drained from the buffer is in no segment of the
-- log, while its offsets stay assigned.
pub flush_failure_drops :
    {S : Type 0} (s3 : S3Client S) (now : ℕ) (l : PartitionLog) (w : World S) {l' : PartitionLog}
    {w' : World S} {e : Error}
    → flush_locked s3 now l w ≡ (l', w', err e)
    → (l'.buffer.batches ≡ [])
      × (l'.segments ≡ l.segments)
      × (l'.index_entries ≡ l.index_entries)
      × (l'.next_offset ≡ l.next_offset)
unfolding flush_locked upload_artifact drain
flush_failure_drops s3 now l w h = ground arith
