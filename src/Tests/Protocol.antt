-- ===== src/Tests/Protocol.antt =====
-- Bytes read and written by pkg/protocol.
use kafscale.Base.{◌≡◌, refl, List, [], ◌∷◌, ◌++◌, some, ok, err, arith}
use kafscale.Base.Int.{pos, bits32}
use kafscale.Base.Bytes.{Bytes, be16, be32}
use kafscale.Base.Maps.{Str}
use kafscale.Protocol.Reader.{panic, read_compact_nullable_string, skip_tagged_fields}
use kafscale.Protocol.Writer.{
  write_compact_nullable_string, write_uvarint, write_int32, write_int16, bits16,
}
use kafscale.Protocol.Output.{supported, join}
use kafscale.Protocol.Response.Groups.{HeartbeatResponse, encode_heartbeat}
use kafscale.Protocol.Response.Correlation.{heartbeat, encode}
use kafscale.Protocol.RoundTrip.{read_compact_nullable_string-write_compact_nullable_string}
use kafscale.Protocol.Request.Panics.{skip_tagged_fields_panics}

abbrev key : Str
key = 107 ∷ 101 ∷ 121 ∷ []

abbrev more : Bytes
more = 1 ∷ 2 ∷ []

read_compact_nullable_string-write_compact_nullable_string_example :
    read_compact_nullable_string (write_compact_nullable_string (some key) ++ more)
    ≡ ok (some key, more)
read_compact_nullable_string-write_compact_nullable_string_example =
    read_compact_nullable_string-write_compact_nullable_string (some key) more (omega arith)

abbrev payloads : List Bytes
payloads = key ∷ [] ∷ more ∷ []

skip_tagged_fields_panics_example :
    skip_tagged_fields
      (write_uvarint 1 ++ (write_uvarint 0 ++ (write_uvarint 9223372036854775808 ++ more)))
    ≡ err panic
skip_tagged_fields_panics_example =
    skip_tagged_fields_panics 1 0 9223372036854775808 more (omega arith) (omega arith) (omega arith)
      (omega arith) (omega arith)

abbrev beat : HeartbeatResponse
beat = record { correlation_id = pos 7; throttle_ms = pos 0; error_code = pos 27 }

abbrev beat_bytes : Bytes
beat_bytes = 0 ∷ 0 ∷ 0 ∷ 7 ∷ 0 ∷ 27 ∷ []

beat_encoded : encode (heartbeat beat) (pos 0) ≡ ok beat_bytes
unfolding encode_heartbeat supported join write_int32 write_int16 be32 be16 bits32 bits16
beat_encoded = refl
