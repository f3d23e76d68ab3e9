-- ===== src/Storage/Lookup/Range.antt =====
-- computeSegmentRange of pkg/storage/log.go: the bytes that a read may ask for.
use native.Mathlib.Decide.{dec_lt}
use kafscale.Base.{
  zero, suc, ltb, ◌&&◌, if◌then◌else◌, ℕ, ◌+◌, ◌-◌, ◌≤◌, ◌<◌, ◌≡◌, refl, arith, ◌⊎◌, inl, inr,
}
use kafscale.Base.Int.{
  ℤ, pos, negsuc, wrap64, wrap64_pos, -ℤ_pos, +ℤ_pos, ◌+ℤ◌, ◌-ℤ◌, ◌≤ℤ◌, pos_part,
}
use kafscale.Storage.Types.{IndexEntry}
use kafscale.Storage.Lookup.{SegmentRange, range_from}

-- The two ways in which a range ends up: none, or start ≤ end inside the segment's body and, for a
-- positive max_bytes, at most max_bytes long.
abbrev pub IsRange : ℕ → ℕ → ℤ → ℤ × ℤ → Type 0
IsRange size position max_bytes r =
    (r ≡ (negsuc 0, negsuc 0)) × (size ≤ position + 16)
    ⊎ ((start : ℕ) × (end : ℕ) × (r ≡ (pos start, pos end))
        × (start ≡ position)
        × (start ≤ end)
        × (end + 16 < size)
        × ((max_bytes ≤ℤ pos 0) ⊎ (pos (end + 1) ≤ℤ pos start +ℤ max_bytes)))

-- A range of positions in numbers: max_bytes counts only if it is positive.
range_ℕ : ℕ → ℕ → ℤ → ℕ
range_ℕ size position (pos m) =
    if ltb 0 m && ltb (position + m - 1) (size - 17) then position + m - 1 else size - 17
range_ℕ size position (negsuc m) = size - 17

end_limit_lem :
    (size : ℕ)
    → 16 ≤ size
    → size < 4611686018427387904
    → wrap64 (pos size -ℤ pos 16) ≡ pos (size - 16)
end_limit_lem size h hs = rw (-ℤ_pos size 16 h) (wrap64_pos _ (omega arith))

sub_one_lem : (n : ℕ) → 0 < n → n < 9223372036854775808 → wrap64 (pos n -ℤ pos 1) ≡ pos (n - 1)
sub_one_lem n h hs = rw (-ℤ_pos n 1 h) (wrap64_pos _ (omega arith))

max_end_lem :
    (position m : ℕ)
    → position < 2147483648
    → m < 2147483648
    → 0 < m
    → wrap64 (wrap64 (pos position +ℤ pos m) -ℤ pos 1) ≡ pos (position + m - 1)
max_end_lem position m hp hm h =
    rw (+ℤ_pos position m, wrap64_pos (position + m) (omega arith))
      (sub_one_lem (position + m) (omega arith) (omega arith))

range_from-pos :
    (seg : SegmentRange) (entry : IndexEntry) (size position : ℕ) (max_bytes : ℤ)
    → seg.size ≡ pos size
    → entry.position ≡ pos position
    → position + 16 < size
    → size < 4611686018427387904
    → position < 2147483648
    → pos_part max_bytes < 2147483648
    → range_from seg entry max_bytes ≡ (pos position, pos (range_ℕ size position max_bytes))
unfolding range_from range_ℕ
range_from-pos seg entry size position (pos zero) s p h hs hp hm =
    rw (s, p, end_limit_lem size (omega arith) hs) (ground (arith, sub_one_lem (size - 16)))
range_from-pos seg entry size position (pos (suc m)) s p h hs hp hm =
    rw (s, p, end_limit_lem size (omega arith) hs, max_end_lem position (suc m) hp hm (omega arith))
      (ground (arith, sub_one_lem (size - 16)))
range_from-pos seg entry size position (negsuc m) s p h hs hp hm =
    rw (s, p, end_limit_lem size (omega arith) hs) (ground (arith, sub_one_lem (size - 16)))

range_from-none :
    (seg : SegmentRange) (entry : IndexEntry) (size position : ℕ) (max_bytes : ℤ)
    → seg.size ≡ pos size
    → entry.position ≡ pos position
    → size ≤ position + 16
    → size < 4611686018427387904
    → range_from seg entry max_bytes ≡ (negsuc 0, negsuc 0)
unfolding range_from
range_from-none seg entry size position max_bytes s p h hs =
    rw (s, p)
      (elim (dec_lt 16 size) [
        | yes lt ↦ rw (end_limit_lem size (omega arith) hs) (ground arith)
        | no ge ↦ ground arith
      ])

range_ℕ_bounds :
    (size position : ℕ) (max_bytes : ℤ)
    → position + 16 < size
    → (position ≤ range_ℕ size position max_bytes)
      × (range_ℕ size position max_bytes + 16 < size)
      × ((max_bytes ≤ℤ pos 0)
          ⊎ (pos (range_ℕ size position max_bytes + 1) ≤ℤ pos position +ℤ max_bytes))
unfolding range_ℕ ◌+ℤ◌
range_ℕ_bounds size position (pos zero) h = (ground arith, ground arith, inl (omega arith))
range_ℕ_bounds size position (pos (suc m)) h = (ground arith, ground arith, inr (ground arith))
range_ℕ_bounds size position (negsuc m) h = (ground arith, ground arith, inl (omega arith))

-- For an entry with a position that is not negative, the read's range is (-1, -1) and the segment
-- without its footer ends at the position or before, or the range starts at the position, ends
-- before the footer and is at most max_bytes long if max_bytes is positive. The size is below 2^62,
-- and the position and max_bytes are int32.
pub range_from-IsRange :
    (seg : SegmentRange) (entry : IndexEntry) (size position : ℕ) (max_bytes : ℤ)
    → seg.size ≡ pos size
    → entry.position ≡ pos position
    → size < 4611686018427387904
    → position < 2147483648
    → pos_part max_bytes < 2147483648
    → IsRange size position max_bytes (range_from seg entry max_bytes)
range_from-IsRange seg entry size position max_bytes s p hs hp hm =
    elim (dec_lt (position + 16) size) [
      | yes lt ↦
          let (low, high, short) = range_ℕ_bounds size position max_bytes lt in
          inr (
            position,
            range_ℕ size position max_bytes,
            range_from-pos seg entry size position max_bytes s p lt hs hp hm,
            refl,
            low,
            high,
            short,
          )
      | no ge ↦
          inl (range_from-none seg entry size position max_bytes s p (omega arith) hs, omega arith)
    ]
