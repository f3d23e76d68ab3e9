-- ===== src/Storage/Segment/RoundTrip.antt =====
-- The footer of pkg/storage/segment.go as RestoreFromS3 reads it back.
use mathlib.Core.List.{append_assoc}
use kafscale.Base.{
  ℕ, ◌-◌, ◌≡◌, refl, false, List, [], ◌∷◌, ◌++◌, ok, arith, ltb, length, length-append, drop,
  drop-append_of, >>=-eq-ok,
}
use kafscale.Base.Int.{ℤ, IsI64, bits64, bits64-lt, wrap64-IsI64, signed64-bits64}
use kafscale.Base.Bytes.{Bytes, be16, be32, be64, read, read-be32, uint}
use kafscale.Storage.Types.{RecordBatch, SegmentWriterConfig, SegmentArtifact}
use kafscale.Storage.Index.{read_uint}
use kafscale.Storage.Index.RoundTrip.{read_uint-be64}
use kafscale.Storage.Segment.{
  build_header, build_footer, parse_segment_footer, footer_magic, segment_footer_len, build_segment,
  artifact, add_batches, start, last_batch, Progress, header_len,
}

pub length-build_header :
    (base count created : ℤ) → length (build_header base count created) ≡ header_len
unfolding build_header be16 be32 be64
length-build_header base count created = refl

pub length-build_footer : (crc : ℕ) (last : ℤ) → length (build_footer crc last) ≡ segment_footer_len
unfolding build_footer be32 be64
length-build_footer crc last = refl

footer_long :
    (crc : ℕ) (last : ℤ)
    → ltb (length (be32 crc ++ (be64 (bits64 last) ++ footer_magic))) segment_footer_len ≡ false
unfolding be32 be64
footer_long crc last = refl

read_crc : (crc : ℕ) (rest : Bytes) → read_uint 4 (be32 crc ++ rest) ≡ ok (uint (be32 crc), rest)
unfolding read_uint
read_crc crc rest = rw (read-be32 crc rest, read_uint)

-- The last offset of a footer is read back, whatever the checksum: restoring does not check it.
pub parse_segment_footer-build_footer :
    (crc : ℕ) (last : ℤ) → IsI64 last → parse_segment_footer (build_footer crc last) ≡ ok last
unfolding parse_segment_footer build_footer read
parse_segment_footer-build_footer crc last h = rw (
  footer_long crc last,
  read_crc crc,
  read_uint-be64 (bits64 last) _ (bits64-lt last),
  signed64-bits64 last h,
)

-- What a successful BuildSegment returns.
pub build_segment-ok :
    (cfg : SegmentWriterConfig) (batches : List RecordBatch) (created : ℤ) {a : SegmentArtifact}
    → build_segment cfg batches created ≡ ok a
    → (b : RecordBatch) × (bs : List RecordBatch) × (p : Progress) × (batches ≡ b ∷ bs)
      × (add_batches (start cfg) batches ≡ ok p)
      × (a ≡ artifact b (last_batch b bs) created p)
unfolding build_segment
build_segment-ok cfg [] created e = cc
build_segment-ok cfg (b ∷ bs) created e =
    let (p, added, rest) = >>=-eq-ok (add_batches (start cfg) (b ∷ bs)) _ e in
    (b, bs, p, refl, added, cc)

footer_at_end :
    (base count created last : ℤ) (body : Bytes) (crc : ℕ)
    → let seg = build_header base count created ++ (body ++ build_footer crc last) in
      drop (length seg - segment_footer_len) seg ≡ build_footer crc last
footer_at_end base count created last body crc =
    let front = build_header base count created ++ body in
    rw (← append_assoc (build_header base count created) body (build_footer crc last)) (
      drop-append_of _ front (build_footer crc last)
        (omega (arith, length-append front (build_footer crc last), length-build_footer crc last)))

-- The last 16 bytes of a segment that was built are a footer, which parses to the last offset of
-- the segment's artifact. These are the bytes that RestoreFromS3 asks for.
pub parse_segment_footer-build_segment :
    (cfg : SegmentWriterConfig) (batches : List RecordBatch) (created : ℤ) {a : SegmentArtifact}
    → build_segment cfg batches created ≡ ok a
    → parse_segment_footer (drop (length a.segment_bytes - segment_footer_len) a.segment_bytes)
      ≡ ok a.last_offset
unfolding artifact
parse_segment_footer-build_segment cfg batches created e =
    let (b, bs, p, _, _, shape) = build_segment-ok cfg batches created e in
    rw (shape, footer_at_end) (parse_segment_footer-build_footer _ _ (wrap64-IsI64 _))
