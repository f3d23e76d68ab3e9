-- ===== src/Protocol/Reader.antt =====
-- byteReader of pkg/protocol/encoding.go. A reader takes the bytes from its position on, and returns
-- those that it leaves.
use kafscale.Base.{
  ℕ, zero, suc, ◌+◌, ◌-◌, ◌*◌, ◌%◌, Bool, true, false, List, [], ◌∷◌, Option, none, some, Result,
  ok, err, ltb, ◌≡◌, refl, ◌==◌, if◌then◌else◌, length, take, drop,
}
use kafscale.Base.Int.{ℤ, pos, negsuc, ltb_ℤ, eqb_ℤ, signed32, signed64}
use kafscale.Base.Bytes.{Bytes, uint}
use kafscale.Base.Maps.{Str}

-- The errors without their text. `panic` is the Go runtime's, which ends the process.
pub data Error : Type 0 where
  insufficient_bytes invalid_bool invalid_length null_string null_array : Error
  bad_uvarint invalid_count unsupported_api panic : Error

abbrev pub Reader : Type 0 → Type 0
Reader A = Bytes → Result Error (A × Bytes)

infixl 5 ◌>>=◌ ◌>>◌
abbrev pub ◌>>=◌ : {A B : Type 0} → Reader A → (A → Reader B) → Reader B
◌>>=◌ r next bs = elim (r bs) [ err e ↦ err e | ok (a, rest) ↦ next a rest ]

abbrev pub ◌>>◌ : {B : Type 0} → Reader (Unit {0}) → Reader B → Reader B
◌>>◌ r next bs = elim (r bs) [ err e ↦ err e | ok (a, rest) ↦ next rest ]

pub bind_ok :
    {A B : Type 0} (r : Reader A) (next : A → Reader B) {bs rest : Bytes} {a : A}
    → r bs ≡ ok (a, rest)
    → (r >>= next) bs ≡ next a rest
bind_ok r next e = rw (e, ◌>>=◌) refl

pub bind_err :
    {A B : Type 0} (r : Reader A) (next : A → Reader B) {bs : Bytes} {e : Error}
    → r bs ≡ err e
    → (r >>= next) bs ≡ err e
bind_err r next e = rw (e, ◌>>=◌) refl

abbrev pub done : {A : Type 0} → A → Reader A
done a bs = ok (a, bs)

abbrev pub fail : {A : Type 0} → Error → Reader A
fail e bs = err e

abbrev pub fail_when : Bool → Error → Reader (Unit {0})
fail_when true e bs = err e
fail_when false e bs = ok (tt, bs)

-- `if cond { field, err = read() }`, the field having a value before.
abbrev pub read_when : {A : Type 0} → Bool → Reader A → A → Reader A
read_when true r a bs = r bs
read_when false r a bs = ok (a, bs)

abbrev pub either : {A : Type 0} → Bool → Reader A → Reader A → Reader A
either true r s bs = r bs
either false r s bs = s bs

-- A negative length passes the test of the bytes left, and the slice then panics.
unfoldable pub read : ℤ → Reader Bytes
read (pos n) bs = if ltb (length bs) n then err insufficient_bytes else ok (take n bs, drop n bs)
read (negsuc n) bs = err panic

unfoldable pub read_int8 : Reader ℤ
read_int8 = do
  b ← read (pos 1)
  done (let w = uint b in if ltb w 128 then pos w else negsuc (255 - w))

unfoldable pub read_int16 : Reader ℤ
read_int16 = do
  b ← read (pos 2)
  done (let w = uint b in if ltb w 32768 then pos w else negsuc (65535 - w))

unfoldable pub read_int32 : Reader ℤ
read_int32 = do b ← read (pos 4); done (signed32 (uint b))

unfoldable pub read_int64 : Reader ℤ
read_int64 = do b ← read (pos 8); done (signed64 (uint b))

unfoldable pub read_uuid : Reader Bytes
read_uuid = read (pos 16)

abbrev bool_of : ℕ → Reader Bool
bool_of w = if w == 0 then done false else (if w == 1 then done true else fail invalid_bool)

unfoldable pub read_bool : Reader Bool
read_bool = do b ← read (pos 1); bool_of (uint b)

unfoldable pub read_string : Reader Str
read_string = do l ← read_int16; fail_when (ltb_ℤ l (pos 0)) invalid_length; read l

abbrev pub present : Reader Bytes → Reader (Option Bytes)
present r = do b ← r; done (some b)

unfoldable pub read_nullable_string : Reader (Option Str)
read_nullable_string = do
  l ← read_int16
  either (eqb_ℤ l (negsuc 0)) (done none)
      (do fail_when (ltb_ℤ l (pos 0)) invalid_length; present (read l))

-- The length of a field is an int32, and may not be negative.
unfoldable pub read_bytes : Reader Bytes
read_bytes = do l ← read_int32; fail_when (ltb_ℤ l (pos 0)) invalid_length; read l

-- `binary.Uvarint`: seven bits a byte, the lowest first, in ten bytes at most, the tenth at most 1.
-- `none` stands for a result that is not positive. `k` counts the bytes that may still follow.
unfoldable pub uvarint : ℕ → Bytes → Option (ℕ × Bytes)
uvarint k [] = none
uvarint zero (b ∷ bs) = if ltb 1 b then none else some (b, bs)
uvarint (suc k) (b ∷ bs) =
    let more : Option (ℕ × Bytes) = elim (uvarint k bs) [
      | none ↦ none
      | some (x, rest) ↦ some (b % 128 + 128 * x, rest)
    ] in
    if ltb b 128 then some (b, bs) else more

unfoldable pub read_uvarint : Reader ℕ
read_uvarint bs = elim (uvarint 9 bs) [ none ↦ err bad_uvarint | some (x, rest) ↦ ok (x, rest) ]

-- `int(val - 1)`, of a uint64; -1 stands for null.
unfoldable pub compact_length : Reader ℤ
compact_length = do val ← read_uvarint; done (if val == 0 then negsuc 0 else signed64 (val - 1))

unfoldable pub read_compact_array_len : Reader ℤ
read_compact_array_len = do
  val ← read_uvarint
  done (if val == 0 then negsuc 0 else signed32 ((val - 1) % 4294967296))

unfoldable pub compact_array_len_non_null : Reader ℤ
compact_array_len_non_null = do
  n ← read_compact_array_len
  fail_when (ltb_ℤ n (pos 0)) null_array
  done n

unfoldable pub read_compact_string : Reader Str
read_compact_string = do l ← compact_length; fail_when (ltb_ℤ l (pos 0)) null_string; read l

unfoldable pub read_compact_nullable_string : Reader (Option Str)
read_compact_nullable_string = do
  l ← compact_length
  either (ltb_ℤ l (pos 0)) (done none) (present (read l))

-- A null slice is `none`.
unfoldable pub read_compact_bytes : Reader (Option Bytes)
read_compact_bytes = do l ← compact_length; either (ltb_ℤ l (pos 0)) (done none) (present (read l))

-- One tagged field: its tag, its size and as many bytes, `int(size)` being negative from 2^63 on.
unfoldable pub skip_tag : Reader (Unit {0})
skip_tag = do
  tag ← read_uvarint
  size ← read_uvarint
  either (size == 0) (done tt) (do skipped ← read (signed64 size); done tt)

-- A round of the loop takes two bytes at least, so as much fuel as there are bytes is enough.
unfoldable pub skip_tags : ℕ → ℕ → Reader (Unit {0})
skip_tags zero count bs = if count == 0 then ok (tt, bs) else err bad_uvarint
skip_tags (suc fuel) count bs = elim (skip_tag bs) [
  | err e ↦ if count == 0 then ok (tt, bs) else err e
  | ok (_, rest) ↦
      let more = skip_tags fuel (count - 1) rest in if count == 0 then ok (tt, bs) else more
]

unfoldable pub skip_tagged_fields : Reader (Unit {0})
skip_tagged_fields = do count ← read_uvarint; λ bs. skip_tags (length bs) count bs

-- `make([]T, 0, n)`
unfoldable pub make_room : ℤ → Reader (Unit {0})
make_room n = fail_when (ltb_ℤ n (pos 0)) panic

-- `for i := int32(0); i < n; i++ { x, err := read(); xs = append(xs, x) }`
unfoldable pub repeat : {A : Type 0} → ℕ → Reader A → Reader (List A)
repeat zero r = done []
repeat (suc n) r = do x ← r; xs ← repeat n r; done (x ∷ xs)
