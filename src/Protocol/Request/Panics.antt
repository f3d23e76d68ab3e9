-- ===== src/Protocol/Request/Panics.antt =====
-- Requests on which the parsers of pkg/protocol panic. Nothing recovers, so the broker's process ends.
use kafscale.Base.{ℕ, zero, suc, ◌≤◌, ◌<◌, ◌≡◌, ◌++◌, err, length, arith, ◌∙◌, length-append}
use kafscale.Base.Int.{signed64}
use kafscale.Base.Bytes.{Bytes}
use kafscale.Protocol.Reader.{
  Error, panic, ◌>>=◌, read, read_uvarint, skip_tag, skip_tags, skip_tagged_fields, bind_ok,
}
use kafscale.Protocol.Writer.{put_uvarint, write_uvarint}
use kafscale.Protocol.RoundTrip.{read_uvarint-write_uvarint}

length-put_uvarint : (k x : ℕ) → 0 < length (put_uvarint k x)
unfolding put_uvarint
length-put_uvarint zero x = omega arith
length-put_uvarint (suc k) x = ground arith

length-write_uvarint : (x : ℕ) → 0 < length (write_uvarint x)
unfolding write_uvarint
length-write_uvarint x = length-put_uvarint 9 x

skip_tags_fails :
    (fuel count : ℕ) (bs : Bytes) (e : Error)
    → 0 < fuel
    → 0 < count
    → skip_tag bs ≡ err e
    → skip_tags fuel count bs ≡ err e
unfolding skip_tags
skip_tags_fails zero count bs e h k f = absurd (omega arith)
skip_tags_fails (suc fuel) count bs e h k f = rw (f, skip_tags) (ground arith)

skip_tag_panics :
    (tag size : ℕ) (rest : Bytes)
    → tag < 18446744073709551616
    → 9223372036854775808 ≤ size
    → size < 18446744073709551616
    → skip_tag (write_uvarint tag ++ (write_uvarint size ++ rest)) ≡ err panic
unfolding skip_tag signed64 read
skip_tag_panics tag size rest ht low hs =
    rw (read_uvarint-write_uvarint tag (write_uvarint size ++ rest) ht, skip_tag, ◌>>=◌)
      (rw (read_uvarint-write_uvarint size rest hs, ◌>>=◌) (ground arith))

-- A tagged field whose size is 2^63 or more makes the reader panic, wherever tags are skipped: not
-- even the header of a request is safe. `count` is the number of fields announced.
pub skip_tagged_fields_panics :
    (count tag size : ℕ) (rest : Bytes)
    → 0 < count
    → count < 18446744073709551616
    → tag < 18446744073709551616
    → 9223372036854775808 ≤ size
    → size < 18446744073709551616
    → skip_tagged_fields
        (write_uvarint count ++ (write_uvarint tag ++ (write_uvarint size ++ rest)))
      ≡ err panic
unfolding skip_tagged_fields
skip_tagged_fields_panics count tag size rest hc bc ht low hs =
    let after : Bytes = write_uvarint size ++ rest in
    bind_ok read_uvarint (λ n bs. skip_tags (length bs) n bs)
      (read_uvarint-write_uvarint count (write_uvarint tag ++ after) bc)
    ∙ skip_tags_fails (length (write_uvarint tag ++ after)) count (write_uvarint tag ++ after) panic
        (omega (arith, length-write_uvarint tag, length-append (write_uvarint tag) after)) hc
        (skip_tag_panics tag size rest ht low hs)
