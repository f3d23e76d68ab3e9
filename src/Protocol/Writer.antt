-- ===== src/Protocol/Writer.antt =====
-- byteWriter of pkg/protocol/encoding.go, and pkg/protocol/frame.go. Each writes the bytes given here
-- behind those already written.
use kafscale.Base.{
  ℕ, zero, suc, ◌+◌, ◌-◌, ◌/◌, ◌%◌, Bool, [], ◌∷◌, ◌++◌, Option, none, some, ltb, if◌then◌else◌,
  length,
}
use kafscale.Base.Int.{ℤ, pos, negsuc, bits32, bits64}
use kafscale.Base.Bytes.{Bytes, be16, be32, be64}
use kafscale.Base.Maps.{Str}

-- The two's complement pattern of an int16 or int8.
unfoldable pub bits16 : ℤ → ℕ
bits16 (pos n) = n % 65536
bits16 (negsuc n) = 65535 - n % 65536

unfoldable pub write_int16 : ℤ → Bytes
write_int16 v = be16 (bits16 v)

unfoldable pub write_int32 : ℤ → Bytes
write_int32 v = be32 (bits32 v)

unfoldable pub write_int64 : ℤ → Bytes
write_int64 v = be64 (bits64 v)

unfoldable pub write_bool : Bool → Bytes
write_bool v = (if v then 1 else 0) ∷ []

unfoldable pub write_int8 : ℤ → Bytes
write_int8 v = (bits16 v % 256) ∷ []

-- `none` is the panic at a string of more than 0x7fff bytes.
unfoldable pub write_string : Str → Option Bytes
write_string v = if ltb 32767 (length v) then none else some (write_int16 (pos (length v)) ++ v)

unfoldable pub write_nullable_string : Option Str → Option Bytes
write_nullable_string none = some (write_int16 (negsuc 0))
write_nullable_string (some v) = write_string v

-- `binary.PutUvarint`; a uint64 takes ten bytes at most.
unfoldable pub put_uvarint : ℕ → ℕ → Bytes
put_uvarint zero x = (x % 256) ∷ []
put_uvarint (suc k) x =
    let more = (128 + x % 128) ∷ put_uvarint k (x / 128) in if ltb x 128 then x ∷ [] else more

unfoldable pub write_uvarint : ℕ → Bytes
write_uvarint x = put_uvarint 9 x

-- A length, with `none` for the -1 of a null field.
unfoldable pub write_compact_length : Option ℕ → Bytes
write_compact_length none = write_uvarint 0
write_compact_length (some n) = write_uvarint (n + 1)

unfoldable pub write_compact_string : Str → Bytes
write_compact_string v = write_compact_length (some (length v)) ++ v

unfoldable pub write_compact_nullable_string : Option Str → Bytes
write_compact_nullable_string none = write_compact_length none
write_compact_nullable_string (some v) = write_compact_string v

unfoldable pub write_bytes : Bytes → Bytes
write_bytes bs = write_int32 (pos (length bs)) ++ bs

-- `none` is a nil slice.
unfoldable pub write_compact_bytes : Option Bytes → Bytes
write_compact_bytes none = write_compact_length none
write_compact_bytes (some bs) = write_compact_length (some (length bs)) ++ bs

unfoldable pub write_compact_array_len : Option ℕ → Bytes
write_compact_array_len n = write_compact_length n

unfoldable pub write_tagged_fields : ℕ → Bytes
write_tagged_fields count = write_uvarint count
