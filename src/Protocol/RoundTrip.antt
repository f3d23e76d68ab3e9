-- ===== src/Protocol/RoundTrip.antt =====
-- What the writers of pkg/protocol/encoding.go write, the readers read back.
use kafscale.Base.{
  ℕ, zero, suc, ◌+◌, ◌*◌, ◌/◌, ◌<◌, ◌≡◌, refl, false, ◌++◌, Option, none, some, ok, ltb, length,
  arith, Bool-cases, inl, inr, take-append, drop-append, length-append, ◌∙◌,
}
use mathlib.Core.List.{append_assoc}
use kafscale.Base.Int.{pos, negsuc, ltb_ℤ, signed64}
use kafscale.Base.Bytes.{Bytes}
use kafscale.Base.Maps.{Str}
use kafscale.Protocol.Reader.{
  ◌>>=◌, done, either, read, uvarint, read_uvarint, compact_length, read_compact_nullable_string,
  present, bind_ok,
}
use kafscale.Protocol.Writer.{
  put_uvarint, write_uvarint, write_compact_length, write_compact_string,
  write_compact_nullable_string,
}

-- What fits into k + 1 bytes whose last is at most 1.
abbrev pub bound : ℕ → ℕ
bound zero = 2
bound (suc k) = 128 * bound k

uvarint-put_uvarint :
    (k x : ℕ) (rest : Bytes) → x < bound k → uvarint k (put_uvarint k x ++ rest) ≡ some (x, rest)
unfolding uvarint put_uvarint
uvarint-put_uvarint zero x rest h = ground arith
uvarint-put_uvarint (suc k) x rest h = elim (Bool-cases (ltb x 128)) [
  | inl small ↦ rw (small, small) refl
  | inr large ↦ let ih = uvarint-put_uvarint k (x / 128) rest (omega arith) in ground arith
]

-- A uint64 is read back, and what follows it is left.
pub read_uvarint-write_uvarint :
    (x : ℕ) (rest : Bytes)
    → x < 18446744073709551616
    → read_uvarint (write_uvarint x ++ rest) ≡ ok (x, rest)
unfolding read_uvarint write_uvarint
read_uvarint-write_uvarint x rest h = rw (uvarint-put_uvarint 9 x rest (omega arith), read_uvarint)

pub read-append : (v rest : Bytes) → read (pos (length v)) (v ++ rest) ≡ ok (v, rest)
unfolding read
read-append v rest = ground (arith, take-append v rest, drop-append v rest, length-append v rest)

-- The test of a length against 0.
pub not_negative : (n : ℕ) → ltb_ℤ (pos n) (pos 0) ≡ false
not_negative n = ground arith

compact_length-write :
    (n : ℕ) (rest : Bytes)
    → n < 9223372036854775808
    → compact_length (write_compact_length (some n) ++ rest) ≡ ok (pos n, rest)
unfolding compact_length write_compact_length signed64
compact_length-write n rest h =
    rw (read_uvarint-write_uvarint (n + 1) rest (omega arith), compact_length, ◌>>=◌) (ground arith)

compact_length-write_null :
    (rest : Bytes) → compact_length (write_compact_length none ++ rest) ≡ ok (negsuc 0, rest)
unfolding compact_length write_compact_length
compact_length-write_null rest =
    rw (read_uvarint-write_uvarint 0 rest (omega arith), compact_length, ◌>>=◌) refl

-- The length of the text, if there is one, is an int64.
abbrev pub FitsInt : Option Str → Type 0
FitsInt none = Unit {0}
FitsInt (some v) = length v < 9223372036854775808

-- A compact nullable string, null or not, is read back as it was written, and what follows it is
-- left. Its length fits an int64.
pub read_compact_nullable_string-write_compact_nullable_string :
    (v : Option Str) (rest : Bytes)
    → FitsInt v
    → read_compact_nullable_string (write_compact_nullable_string v ++ rest) ≡ ok (v, rest)
unfolding read_compact_nullable_string write_compact_nullable_string write_compact_string
read_compact_nullable_string-write_compact_nullable_string none rest h =
    bind_ok compact_length _ (compact_length-write_null rest)
read_compact_nullable_string-write_compact_nullable_string (some v) rest h =
    rw (append_assoc (write_compact_length (some (length v))) v rest) (
      bind_ok compact_length (λ l. either (ltb_ℤ l (pos 0)) (done none) (present (read l)))
        (compact_length-write (length v) (v ++ rest) h)
      ∙ rw (not_negative (length v))
          (bind_ok (read (pos (length v))) (λ b. done (some b)) (read-append v rest)))
