-- ===== src/Storage/Buffer.antt =====
-- pkg/storage/buffer.go: batches waiting for a flush. Its lock is held around each operation, so an
-- operation is one step. Times are nanoseconds; the clock does not run backwards.
use kafscale.Base.{
  ℕ, ◌+◌, ◌-◌, ◌≡◌, Bool, ◌&&◌, ◌||◌, not, List, [], ◌∷◌, ◌++◌, arith, ltb, leb, ◌==◌, length,
}
use kafscale.Base.Int.{ℤ, pos, ◌+ℤ◌, leb_ℤ, wrap64}
use kafscale.Storage.Types.{RecordBatch}

-- A limit that is not positive is off, so a number stands for it.
pub record WriteBufferConfig : Type 0 where
  pub max_bytes : ℕ
  pub max_messages : ℕ
  pub max_batches : ℕ
  pub flush_interval : ℕ

pub record WriteBuffer : Type 0 where
  pub cfg : WriteBufferConfig
  pub batches : List RecordBatch
  pub size_bytes : ℕ
  pub message_count : ℤ  -- int
  pub last_flush : ℕ

unfoldable pub new_write_buffer : WriteBufferConfig → ℕ → WriteBuffer
new_write_buffer cfg now = record {
  cfg = cfg;
  batches = [];
  size_bytes = 0;
  message_count = pos 0;
  last_flush = now;
}

unfoldable pub append : WriteBuffer → RecordBatch → WriteBuffer
append b batch = record b {
  batches = b.batches ++ batch ∷ [];
  size_bytes = b.size_bytes + length batch.bytes;
  message_count = wrap64 (b.message_count +ℤ batch.message_count);
}

unfoldable pub should_flush : WriteBuffer → ℕ → Bool
should_flush b now =
    not (b.size_bytes == 0)
    && ((ltb 0 max_bytes && leb max_bytes b.size_bytes)
        || ((ltb 0 max_messages && leb_ℤ (pos max_messages) b.message_count)
            || ((ltb 0 max_batches && leb max_batches (length b.batches))
                || (ltb 0 flush_interval && leb flush_interval (now - b.last_flush)))))
  where
    open b.cfg use {max_bytes, max_messages, max_batches, flush_interval}

unfoldable pub drain : WriteBuffer → ℕ → WriteBuffer × List RecordBatch
drain b now =
    (record b { batches = []; size_bytes = 0; message_count = pos 0; last_flush = now }, b.batches)

-- The bytes and the batches counted are those held.
abbrev total_bytes : List RecordBatch → ℕ
total_bytes [] = 0
total_bytes (b ∷ bs) = length b.bytes + total_bytes bs

abbrev pub IsCounted : WriteBuffer → Type 0
IsCounted b = b.size_bytes ≡ total_bytes b.batches

total_bytes-append :
    (xs ys : List RecordBatch) → total_bytes (xs ++ ys) ≡ total_bytes xs + total_bytes ys
total_bytes-append [] ys = omega arith
total_bytes-append (x ∷ xs) ys = omega (arith, total_bytes-append xs ys)

pub append-IsCounted :
    (b : WriteBuffer) (batch : RecordBatch) → IsCounted b → IsCounted (append b batch)
unfolding append
append-IsCounted b batch h = omega (arith, total_bytes-append b.batches (batch ∷ []))
