-- ===== src/Storage/Segment.antt =====
-- pkg/storage/segment.go: a segment is a header, the batches' bytes and a footer.
pub mod RoundTrip
pub mod Readable
pub mod Positions
use Prim.Native.Nat.{bit_xor}
use kafscale.Base.{
  ℕ, zero, suc, ◌+◌, ◌/◌, ◌%◌, ◌≡◌, refl, Bool, not, List, [], ◌∷◌, ◌++◌, Option, none, some,
  Result, ok, err, ◌>>=◌, ◌>>◌, fail_if, ltb, ◌==◌, if◌then◌else◌, length,
}
use kafscale.Base.Int.{ℤ, pos, ◌+ℤ◌, wrap32, wrap64, bits32, bits64, signed64}
use kafscale.Base.Bytes.{Bytes, be16, be32, be64, uint, read}
use kafscale.Base.Maps.{str_eq}
use kafscale.Storage.Types.{
  RecordBatch, SegmentWriterConfig, SegmentArtifact, Error, no_batches, batch_empty,
  footer_too_small, invalid_footer_magic, end_of_file,
}
use kafscale.Storage.Index.{
  IndexBuilder, new_index_builder, maybe_add, build_bytes, read_uint, is_empty,
}

-- "KAFS"
abbrev pub segment_magic : Bytes
segment_magic = 75 ∷ 65 ∷ 70 ∷ 83 ∷ []

-- "END!"
abbrev pub footer_magic : Bytes
footer_magic = 69 ∷ 78 ∷ 68 ∷ 33 ∷ []

abbrev pub segment_footer_len : ℕ
segment_footer_len = 16

abbrev pub header_len : ℕ
header_len = 32

-- `hash/crc32` with the Castagnoli table, a bit at a time.
crc_bits : ℕ → ℕ → ℕ
crc_bits zero c = c
crc_bits (suc n) c = crc_bits n (if c % 2 == 1 then bit_xor (c / 2) 0x82f63b78 else c / 2)

crc_loop : ℕ → Bytes → ℕ
unfolding crc_bits
crc_loop c [] = c
crc_loop c (b ∷ bs) = crc_loop (crc_bits 8 (bit_xor c b)) bs

unfoldable pub crc32c : Bytes → ℕ
unfolding crc_loop
crc32c bs = bit_xor (crc_loop 0xffff_ffff bs) 0xffff_ffff

unfoldable pub build_header : ℤ → ℤ → ℤ → Bytes
build_header base_offset message_count created =
    segment_magic
    ++ (be16 1
        ++ (be16 0
            ++ (be64 (bits64 base_offset)
                ++ (be32 (bits32 message_count) ++ (be64 (bits64 created) ++ be32 0)))))

unfoldable pub build_footer : ℕ → ℤ → Bytes
build_footer crc last_offset = be32 crc ++ (be64 (bits64 last_offset) ++ footer_magic)

-- The three variables of the loop of BuildSegment.
pub record Progress : Type 0 where
  pub body : Bytes
  pub index : IndexBuilder
  pub total_messages : ℤ

-- The body of the loop. The position is converted to an int32, which wraps beyond 2 GiB.
unfoldable pub add_batch : Progress → RecordBatch → Result Error Progress
add_batch p batch =
    if is_empty batch.bytes
    then err batch_empty
    else ok (record {
      body = p.body ++ batch.bytes;
      index =
          maybe_add p.index batch.base_offset (wrap32 (pos (header_len + length p.body)))
            batch.message_count;
      total_messages = wrap32 (p.total_messages +ℤ batch.message_count);
    })

unfoldable pub add_batches : Progress → List RecordBatch → Result Error Progress
add_batches p [] = ok p
add_batches p (batch ∷ batches) = do p ← add_batch p batch; add_batches p batches

-- `batches[len(batches)-1]`, of `batch` followed by `batches`
unfoldable pub last_batch : RecordBatch → List RecordBatch → RecordBatch
last_batch batch [] = batch
last_batch batch (next ∷ batches) = last_batch next batches

unfoldable pub start : SegmentWriterConfig → Progress
start cfg = record {
  body = [];
  index = new_index_builder cfg.index_interval_messages;
  total_messages = pos 0;
}

unfoldable pub artifact : RecordBatch → RecordBatch → ℤ → Progress → SegmentArtifact
artifact first last created p =
    let last_offset = wrap64 (last.base_offset +ℤ last.last_offset_delta) in
    record {
      base_offset = first.base_offset;
      last_offset = last_offset;
      message_count = p.total_messages;
      created_at = created;
      segment_bytes =
          build_header first.base_offset p.total_messages created
          ++ (p.body ++ build_footer (crc32c p.body) last_offset);
      index_bytes = build_bytes p.index;
      relative_index = p.index.entries;
    }

unfoldable pub build_segment :
    SegmentWriterConfig → List RecordBatch → ℤ → Result Error SegmentArtifact
unfolding start
build_segment cfg [] created = err no_batches
build_segment cfg (batch ∷ batches) created = do
  p ← add_batches (start cfg) (batch ∷ batches)
  ok (artifact batch (last_batch batch batches) created p)

-- `reader.Read(footer)` takes the bytes that are there: four, since the length was checked.
unfoldable pub parse_segment_footer : Bytes → Result Error ℤ
parse_segment_footer bs = do
  fail_if (ltb (length bs) segment_footer_len) footer_too_small
  (crc, bs) ← read_uint 4 bs
  (last_offset, bs) ← read_uint 8 bs
  footer ← elim (read 4 bs) [ none ↦ err end_of_file | some (x, rest) ↦ ok x ]
  fail_if (not (str_eq footer footer_magic)) invalid_footer_magic
  ok (signed64 last_offset)
