-- ===== src/Protocol/Output.antt =====
-- What the encoders of pkg/protocol/response.go write, piece by piece. A string that is too long makes
-- the writer panic.
use kafscale.Base.{
  ℕ, Bool, true, false, ◌&&◌, List, [], ◌∷◌, ◌++◌, Option, none, some, Result, ok, err,
  if◌then◌else◌, length,
}
use kafscale.Base.Int.{ℤ, pos, leb_ℤ}
use kafscale.Base.Bytes.{Bytes}
use kafscale.Base.Maps.{Str}
use kafscale.Protocol.Reader.{Error, panic, unsupported_api}
use kafscale.Protocol.Writer.{
  write_int8, write_int16, write_int32, write_int64, write_bool, write_string,
  write_nullable_string, write_compact_string, write_compact_nullable_string, write_bytes,
  write_compact_bytes, write_compact_array_len, write_tagged_fields,
}

abbrev pub Output : Type 0
Output = Result Error Bytes

-- One piece behind the other.
unfoldable pub join : List Output → Output
join [] = ok []
join (o ∷ os) =
    let rest = join os in
    elim o [ err e ↦ err e | ok bs ↦ elim rest [ err e ↦ err e | ok more ↦ ok (bs ++ more) ] ]

abbrev pub int8 : ℤ → Output
int8 v = ok (write_int8 v)

abbrev pub int16 : ℤ → Output
int16 v = ok (write_int16 v)

abbrev pub int32 : ℤ → Output
int32 v = ok (write_int32 v)

abbrev pub int64 : ℤ → Output
int64 v = ok (write_int64 v)

abbrev pub bool : Bool → Output
bool v = ok (write_bool v)

abbrev pub or_panic : Option Bytes → Output
or_panic none = err panic
or_panic (some bs) = ok bs

abbrev pub when : Bool → Output → Output
when true o = o
when false o = ok []

abbrev pub either_of : Bool → Output → Output → Output
either_of true o p = o
either_of false o p = p

-- Each in its compact form where the version is flexible.
abbrev pub string : Bool → Str → Output
string flexible s = either_of flexible (ok (write_compact_string s)) (or_panic (write_string s))

abbrev pub nullable : Bool → Option Str → Output
nullable flexible s =
    either_of flexible (ok (write_compact_nullable_string s)) (or_panic (write_nullable_string s))

abbrev contents : Option Bytes → Bytes
contents none = []
contents (some bs) = bs

abbrev pub bytes : Bool → Option Bytes → Output
bytes flexible b = either_of flexible (ok (write_compact_bytes b)) (ok (write_bytes (contents b)))

-- `int32(len)` wraps where it is written.
abbrev pub count : Bool → ℕ → Output
count flexible n =
    either_of flexible (ok (write_compact_array_len (some n))) (ok (write_int32 (pos n)))

abbrev pub tag_end : Bool → Output
tag_end flexible = when flexible (ok (write_tagged_fields 0))

unfoldable pub each : {A : Type 0} → List A → (A → Output) → Output
each [] f = ok []
each (x ∷ xs) f = join (f x ∷ each xs f ∷ [])

abbrev pub array : {A : Type 0} → Bool → List A → (A → Output) → Output
array flexible xs f = join (count flexible (length xs) ∷ each xs f ∷ [])

-- An error for every version outside the two bounds.
unfoldable pub supported : ℤ → ℤ → ℤ → Output → Output
supported low high version o =
    if leb_ℤ low version && leb_ℤ version high then o else err unsupported_api
