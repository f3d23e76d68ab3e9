-- ===== src/Storage/Segment/Readable.antt =====
-- That a segment of pkg/storage/segment.go can be read back: its footer and its index.
use kafscale.Base.{
  suc, ◌+◌, ◌≤◌, ◌<◌, ◌≡◌, List, [], ◌∷◌, ◌++◌, ok, length, length-append, arith, Bool-cases, inl,
  inr, subst, >>=-eq-ok, ok-injective, ◌||◌,
}
use kafscale.Base.Int.{ℤ, pos, IsI64, IsI32, wrap32, wrap32-IsI32, leb_ℤ, wrap64, ◌+ℤ◌}
use kafscale.Base.Bytes.{All, All-append_one}
use kafscale.Storage.Types.{RecordBatch, IndexEntry, SegmentArtifact, SegmentWriterConfig}
use kafscale.Storage.Index.{IndexBuilder, maybe_add, new_index_builder, is_empty, parse_index}
use kafscale.Storage.Index.RoundTrip.{IsEntry, parse_index-build_bytes}
use kafscale.Storage.Segment.{
  Progress, add_batch, add_batches, build_segment, start, artifact, last_batch, segment_footer_len,
  header_len, build_header, build_footer, crc32c,
}
use kafscale.Storage.Segment.RoundTrip.{build_segment-ok, length-build_footer}

abbrev pub HasOffset : RecordBatch → Type 0
HasOffset b = IsI64 b.base_offset

maybe_add_entries :
    (x : IndexBuilder) (offset position n : ℤ)
    → IsI64 offset
    → IsI32 position
    → All IsEntry x.entries
    → All IsEntry (maybe_add x offset position n).entries
      × (length (maybe_add x offset position n).entries ≤ suc (length x.entries))
unfolding maybe_add
maybe_add_entries x offset position n ho hp all =
    let entry : IndexEntry = record { offset = offset; position = position } in
    elim (Bool-cases (is_empty x.entries || leb_ℤ x.interval x.since_last)) [
      | inl t ↦ rw t (
        All-append_one IsEntry x.entries entry all (ho, hp),
        omega (arith, length-append x.entries (entry ∷ [])),
      )
      | inr f ↦ rw f (all, omega arith)
    ]

-- A batch adds one entry to the index at most, whose fields fit.
add_batch_entries :
    (p : Progress) (b : RecordBatch) {q : Progress}
    → add_batch p b ≡ ok q
    → HasOffset b
    → All IsEntry p.index.entries
    → All IsEntry q.index.entries × (length q.index.entries ≤ suc (length p.index.entries))
unfolding add_batch
add_batch_entries p b e h all =
    let position : ℤ = wrap32 (pos (header_len + length p.body)) in
    elim (Bool-cases (is_empty b.bytes)) [
      | inl t ↦ cc (rw (t, add_batch) at e)
      | inr f ↦
          subst
            (λ (x : Progress).
              All IsEntry x.index.entries × (length x.index.entries ≤ suc (length p.index.entries)))
            (ok-injective (rw (f, add_batch) at e))
            (maybe_add_entries p.index b.base_offset position b.message_count h (wrap32-IsI32 _)
              all)
    ]

add_batches_entries :
    (p : Progress) (bs : List RecordBatch) {q : Progress}
    → add_batches p bs ≡ ok q
    → All HasOffset bs
    → All IsEntry p.index.entries
    → All IsEntry q.index.entries × (length q.index.entries ≤ length p.index.entries + length bs)
unfolding add_batches
add_batches_entries p [] e h all =
    subst
      (λ (x : Progress).
        All IsEntry x.index.entries × (length x.index.entries ≤ length p.index.entries + 0))
      (ok-injective e) (all, omega arith)
add_batches_entries p (b ∷ bs) e h all =
    let (r, first, rest) = >>=-eq-ok (add_batch p b) _ e in
    let (all', le) = add_batch_entries p b first h.0 all in
    let (all'', le') = add_batches_entries r bs rest h.1 all' in (all'', omega arith)

-- The index of a segment of fewer than 2^31 batches parses to its entries.
pub parse_index-build_segment :
    (cfg : SegmentWriterConfig) (batches : List RecordBatch) (created : ℤ) {a : SegmentArtifact}
    → build_segment cfg batches created ≡ ok a
    → All HasOffset batches
    → length batches < 2147483648
    → parse_index a.index_bytes ≡ ok a.relative_index
unfolding artifact start new_index_builder
parse_index-build_segment cfg batches created e h few =
    let (b, bs, p, _, added, shape) = build_segment-ok cfg batches created e in
    let (all, le) = add_batches_entries (start cfg) batches added h tt in
    rw shape (parse_index-build_bytes p.index (omega arith) all)

pub build_segment_long :
    (cfg : SegmentWriterConfig) (batches : List RecordBatch) (created : ℤ) {a : SegmentArtifact}
    → build_segment cfg batches created ≡ ok a
    → segment_footer_len ≤ length a.segment_bytes
unfolding artifact
build_segment_long cfg batches created e =
    let (b, bs, p, _, _, shape) = build_segment-ok cfg batches created e in
    let body = p.body in
    let head = build_header b.base_offset p.total_messages created in
    let last = wrap64 ((last_batch b bs).base_offset +ℤ (last_batch b bs).last_offset_delta) in
    let foot = build_footer (crc32c body) last in
    rw shape (
      omega (
        arith,
        length-append head (body ++ foot),
        length-append body foot,
        length-build_footer (crc32c body) last,
      ))
