-- ===== src/Storage/RecordBatch/Count.antt =====
-- That CountRecordBatchMessages of pkg/storage/recordbatch.go comes to an end.
use kafscale.Base.{
  ℕ, zero, suc, ◌+◌, ◌≤◌, ◌<◌, ◌≡◌, refl, some, ltb, leb, ◌==◌, length, arith, Bool-cases, inl, inr,
}
use kafscale.Base.Bytes.{Bytes, slice, uint}
use kafscale.Storage.RecordBatch.{count_loop, count_record_batch_messages, header_min_size}

count_loop_ends :
    (fuel : ℕ) (bs : Bytes) (offset total : ℕ)
    → length bs < fuel + offset
    → offset ≤ length bs
    → (n : ℕ) × (count_loop fuel bs offset total ≡ some n)
unfolding count_loop
count_loop_ends zero bs offset total h le = absurd (omega arith)
count_loop_ends (suc fuel) bs offset total h le =
    let batch_len = uint (slice (offset + 8) (offset + 12) bs) in
    let end : ℕ = offset + (12 + batch_len) in
    let batch = slice offset end bs in
    let more : ℕ = total + uint (slice 57 61 batch) in
    elim (Bool-cases (leb (offset + 12) (length bs))) [
      | inr short ↦ rw short (total, refl)
      | inl long ↦ elim (Bool-cases (batch_len == 0)) [
        | inl none_left ↦ rw (long, none_left) (total, refl)
        | inr some_left ↦ elim (Bool-cases (ltb (length bs) end)) [
          | inl cut ↦ rw (long, some_left, cut) (total, refl)
          | inr whole ↦ elim (Bool-cases (ltb (length batch) header_min_size)) [
            | inl small ↦ rw (long, some_left, whole, small) (total, refl)
            | inr big ↦
                let inside : end ≤ length bs = ground arith in
                rw (long, some_left, whole, big)
                  (count_loop_ends fuel bs end more (omega arith) inside)
          ]
        ]
      ]
    ]

-- Counting the messages of a record set comes to an end with a number, whatever its bytes.
pub count_record_batch_messages_ends :
    (bs : Bytes) → (n : ℕ) × (count_record_batch_messages bs ≡ some n)
unfolding count_record_batch_messages
count_record_batch_messages_ends bs = elim (Bool-cases (ltb (length bs) header_min_size)) [
  | inl short ↦ rw short (0, refl)
  | inr long ↦ rw long (count_loop_ends (suc (length bs)) bs 0 0 (omega arith) (omega arith))
]
