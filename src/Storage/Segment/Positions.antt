-- ===== src/Storage/Segment/Positions.antt =====
-- Where the index entries of a segment point to (BuildSegment of pkg/storage/segment.go).
use mathlib.Core.List.{append_assoc, append-nil}
use kafscale.Base.{
  ℕ, ◌+◌, ◌<◌, ◌≡◌, refl, sym, ap, List, [], ◌∷◌, ◌++◌, ok, ◌⊎◌, inl, inr, arith, length,
  length-append, drop, drop-append_of, ◌∙◌, >>=-eq-ok, ok-injective, subst,
}
use kafscale.Base.Int.{ℤ, pos, wrap32, wrap32-id}
use kafscale.Base.Bytes.{All-append_one, Bytes, All}
use kafscale.Storage.Types.{RecordBatch, IndexEntry, SegmentWriterConfig, SegmentArtifact}
use kafscale.Storage.Index.{maybe_add, new_index_builder}
use kafscale.Storage.Segment.{
  build_header, build_footer, crc32c, build_segment, artifact, add_batch, add_batches, start,
  Progress, header_len,
}
use kafscale.Storage.Segment.RoundTrip.{length-build_header, build_segment-ok}

-- The bytes of the batches, one after the other.
abbrev pub body_bytes : List RecordBatch → Bytes
body_bytes [] = []
body_bytes (b ∷ bs) = b.bytes ++ body_bytes bs

-- The entry stands for one of the batches: it has the batch's base offset, and its position is
-- behind the header and the batches before.
abbrev pub IsStart : List RecordBatch → IndexEntry → Type 0
IsStart batches e =
    (before : List RecordBatch) × (b : RecordBatch) × (after : List RecordBatch) × (batches
      ≡ before ++ (b ∷ after))
    × (e.offset ≡ b.base_offset)
    × (e.position ≡ pos (header_len + length (body_bytes before)))

body_bytes-append :
    (xs ys : List RecordBatch) → body_bytes (xs ++ ys) ≡ body_bytes xs ++ body_bytes ys
body_bytes-append [] ys = refl
body_bytes-append (x ∷ xs) ys =
    rw (body_bytes-append xs ys) (sym (append_assoc x.bytes (body_bytes xs) (body_bytes ys)))

IsStart-append :
    (batches : List RecordBatch) (more : List RecordBatch) (e : IndexEntry)
    → IsStart batches e
    → IsStart (batches ++ more) e
IsStart-append batches more e (before, b, after, s, o, p) =
    (before, b, after ++ more, rw s (append_assoc before (b ∷ after) more), o, p)

All-IsStart-append :
    (batches more : List RecordBatch) (es : List IndexEntry)
    → All (IsStart batches) es
    → All (IsStart (batches ++ more)) es
All-IsStart-append batches more [] h = tt
All-IsStart-append batches more (e ∷ es) h =
    (IsStart-append batches more e h.0, All-IsStart-append batches more es h.1)

-- What holds after the batches `done`.
record Inv (done : List RecordBatch) (p : Progress) : Type 0 where
  body_done : p.body ≡ body_bytes done
  entries_start : All (IsStart done) p.index.entries

add_batch-ok :
    (p : Progress) (b : RecordBatch) {q : Progress}
    → add_batch p b ≡ ok q
    → let entry : IndexEntry = record {
      offset = b.base_offset;
      position = wrap32 (pos (header_len + length p.body));
    } in
      (q.body ≡ p.body ++ b.bytes)
      × ((q.index.entries ≡ p.index.entries) ⊎ (q.index.entries ≡ p.index.entries ++ entry ∷ []))
unfolding add_batch maybe_add
add_batch-ok p b e = ground arith

add_batch-Inv :
    (done : List RecordBatch) (p : Progress) (b : RecordBatch) {q : Progress}
    → Inv done p
    → header_len + length p.body < 2147483648
    → add_batch p b ≡ ok q
    → Inv (done ++ b ∷ []) q
add_batch-Inv done p b {q} v small e = record {
  body_done =
      shape.0
      ∙ (ap (λ x. x ++ b.bytes) v.body_done
          ∙ sym (rw append-nil at (body_bytes-append done (b ∷ []))));
  entries_start = elim shape.1 [
    | inl same ↦ rw same old
    | inr more ↦ rw more (
        All-append_one (IsStart (done ++ b ∷ [])) p.index.entries _ old (
          done,
          b,
          [],
          refl,
          refl,
          wrap32-id _ (small, omega arith) ∙ ap (λ x. pos (header_len + length x)) v.body_done,
        ))
  ];
}
  where
    shape :
        (q.body ≡ p.body ++ b.bytes)
        × ((q.index.entries ≡ p.index.entries)
            ⊎ (q.index.entries
                ≡ p.index.entries
                  ++ (record {
                    offset = b.base_offset;
                    position = wrap32 (pos (header_len + length p.body));
                  })
                    ∷ []))
    shape = add_batch-ok p b e

    old : All (IsStart (done ++ b ∷ [])) p.index.entries
    old = All-IsStart-append done (b ∷ []) p.index.entries v.entries_start

add_batches-Inv :
    (done : List RecordBatch) (p : Progress) (bs : List RecordBatch) {q : Progress}
    → Inv done p
    → header_len + length p.body + length (body_bytes bs) < 2147483648
    → add_batches p bs ≡ ok q
    → Inv (done ++ bs) q
unfolding add_batches
add_batches-Inv done p [] v small e = rw append-nil (subst (Inv done) (ok-injective e) v)
add_batches-Inv done p (b ∷ bs) v small e =
    let (p', added, rest) = >>=-eq-ok (add_batch p b) _ e in
    let v' = add_batch-Inv done p b v (omega arith) added in
    rw (append_assoc done (b ∷ []) bs) at (
      add_batches-Inv (done ++ b ∷ []) p' bs v'
        (omega (
          arith,
          length-append p.body b.bytes,
          length-append b.bytes (body_bytes bs),
          ap length (add_batch-ok p b added).0,
        ))
        rest)

add_batches-body :
    (p : Progress) (bs : List RecordBatch) {q : Progress}
    → add_batches p bs ≡ ok q
    → q.body ≡ p.body ++ body_bytes bs
unfolding add_batches
add_batches-body p [] e = rw append-nil (ap (λ p. p.body) (sym (ok-injective e)))
add_batches-body p (b ∷ bs) e =
    let (p', added, rest) = >>=-eq-ok (add_batch p b) _ e in
    add_batches-body p' bs rest
    ∙ (ap (λ x. x ++ body_bytes bs) (add_batch-ok p b added).0
        ∙ append_assoc p.body b.bytes (body_bytes bs))

-- The bytes are a part of the data.
abbrev pub Contains : Bytes → Bytes → Type 0
Contains data_bytes bytes =
    (front : Bytes) × (rest : Bytes) × (data_bytes ≡ front ++ (bytes ++ rest))

pieces :
    (before after : List RecordBatch) (b : RecordBatch) (header footer : Bytes)
    → header ++ (body_bytes (before ++ b ∷ after) ++ footer)
      ≡ (header ++ body_bytes before) ++ (b.bytes ++ (body_bytes after ++ footer))
pieces before after b header footer =
    rw
      (
        body_bytes-append before (b ∷ after),
        append_assoc (body_bytes before) (b.bytes ++ body_bytes after) footer,
        append_assoc b.bytes (body_bytes after) footer,
      )
      (sym (append_assoc header (body_bytes before) (b.bytes ++ (body_bytes after ++ footer))))

-- A segment holds the bytes of each batch that it was built from.
pub build_segment-Contains :
    (cfg : SegmentWriterConfig) (before after : List RecordBatch) (b : RecordBatch) (created : ℤ)
    {a : SegmentArtifact}
    → build_segment cfg (before ++ b ∷ after) created ≡ ok a
    → Contains a.segment_bytes b.bytes
unfolding artifact start
build_segment-Contains cfg before after b created {a} e =
    let (first, bs, p, _, added, shape) = build_segment-ok cfg (before ++ b ∷ after) created e in
    let header = build_header first.base_offset p.total_messages created in
    let footer = build_footer (crc32c p.body) a.last_offset in
    (
      header ++ body_bytes before,
      body_bytes after ++ footer,
      rw shape (
          rw (add_batches-body (start cfg) (before ++ b ∷ after) added)
            (pieces before after b header _)),
    )

start-Inv : (cfg : SegmentWriterConfig) → Inv [] (start cfg)
unfolding start new_index_builder
start-Inv cfg = record { body_done = refl; entries_start = tt }

-- At the entry's position the segment holds a batch whose base offset is the entry's offset.
abbrev pub Points : List RecordBatch → Bytes → IndexEntry → Type 0
Points batches segment e =
    (n : ℕ) × (before : List RecordBatch) × (b : RecordBatch) × (after : List RecordBatch)
    × (rest : Bytes) × (batches ≡ before ++ (b ∷ after))
    × (e.offset ≡ b.base_offset)
    × (e.position ≡ pos n)
    × (drop n segment ≡ b.bytes ++ rest)

IsStart-Points :
    (batches : List RecordBatch) (header footer : Bytes) (e : IndexEntry)
    → length header ≡ header_len
    → IsStart batches e
    → Points batches (header ++ (body_bytes batches ++ footer)) e
IsStart-Points batches header footer e h (before, b, after, s, o, p) = (
  header_len + length (body_bytes before),
  before,
  b,
  after,
  body_bytes after ++ footer,
  s,
  o,
  p,
  at_batch,
)
  where
    front : Bytes
    front = header ++ body_bytes before

    at_batch :
        drop (header_len + length (body_bytes before)) (header ++ (body_bytes batches ++ footer))
        ≡ b.bytes ++ (body_bytes after ++ footer)
    at_batch =
        rw
          (
            s,
            body_bytes-append before (b ∷ after),
            append_assoc (body_bytes before) (b.bytes ++ body_bytes after) footer,
            ← append_assoc header (body_bytes before),
          )
          (drop-append_of _ front _ (omega (arith, length-append header (body_bytes before)))
            ∙ append_assoc b.bytes (body_bytes after) footer)

All-Points :
    (batches : List RecordBatch) (header footer : Bytes) (es : List IndexEntry)
    → length header ≡ header_len
    → All (IsStart batches) es
    → All (Points batches (header ++ (body_bytes batches ++ footer))) es
All-Points batches header footer [] h v = tt
All-Points batches header footer (e ∷ es) h v =
    (IsStart-Points batches header footer e h v.0, All-Points batches header footer es h v.1)

-- Every entry of the index of a built segment points to the start of one of the batches, and has
-- its base offset, if the segment is below 2 GiB without its footer.
pub build_segment-Points :
    (cfg : SegmentWriterConfig) (batches : List RecordBatch) (created : ℤ) {a : SegmentArtifact}
    → build_segment cfg batches created ≡ ok a
    → header_len + length (body_bytes batches) < 2147483648
    → All (Points batches a.segment_bytes) a.relative_index
unfolding artifact start
build_segment-Points cfg batches created e small =
    let (b, bs, p, _, added, shape) = build_segment-ok cfg batches created e in
    let v = add_batches-Inv [] (start cfg) batches (start-Inv cfg) small added in
    rw (shape, v.body_done)
      (All-Points batches _ _ p.index.entries (length-build_header _ _ _) v.entries_start)

add_batches_keep_first :
    (p : Progress) (bs : List RecordBatch) {q : Progress} (e : IndexEntry) (es : List IndexEntry)
    → p.index.entries ≡ e ∷ es
    → add_batches p bs ≡ ok q
    → (more : List IndexEntry) × (q.index.entries ≡ e ∷ more)
unfolding add_batches
add_batches_keep_first p [] e es h r = (es, ground arith)
add_batches_keep_first p (b ∷ bs) e es h r =
    let (p', added, rest) = >>=-eq-ok (add_batch p b) _ r in
    let entry : IndexEntry = record {
      offset = b.base_offset;
      position = wrap32 (pos (header_len + length p.body));
    } in
    elim (add_batch-ok p b added).1 [
      | inl same ↦ add_batches_keep_first p' bs e es (same ∙ h) rest
      | inr more ↦
          add_batches_keep_first p' bs e (es ++ entry ∷ []) (more ∙ ap (λ x. x ++ entry ∷ []) h)
            rest
    ]

first_entry :
    (cfg : SegmentWriterConfig) (b : RecordBatch) {p : Progress}
    → add_batch (start cfg) b ≡ ok p
    → p.index.entries ≡ (record { offset = b.base_offset; position = pos header_len }) ∷ []
unfolding add_batch maybe_add start new_index_builder wrap32
first_entry cfg b e = ground arith

first_entry_of_all :
    (cfg : SegmentWriterConfig) (b : RecordBatch) (bs : List RecordBatch) {q : Progress}
    → add_batches (start cfg) (b ∷ bs) ≡ ok q
    → (more : List IndexEntry) × (q.index.entries
        ≡ (record { offset = b.base_offset; position = pos header_len }) ∷ more)
unfolding add_batches
first_entry_of_all cfg b bs e =
    let (p, added, rest) = >>=-eq-ok (add_batch (start cfg) b) _ e in
    add_batches_keep_first p bs _ [] (first_entry cfg b added) rest

-- The index of a built segment begins with its first batch: the entry has the base offset of the
-- segment and the position behind the header.
pub build_segment_first_entry :
    (cfg : SegmentWriterConfig) (batches : List RecordBatch) (created : ℤ) {a : SegmentArtifact}
    → build_segment cfg batches created ≡ ok a
    → (more : List IndexEntry) × (a.relative_index
        ≡ (record { offset = a.base_offset; position = pos header_len }) ∷ more)
unfolding artifact
build_segment_first_entry cfg batches created e =
    let (b, bs, p, split, added, shape) = build_segment-ok cfg batches created e in
    rw shape (first_entry_of_all cfg b bs (rw split at added))
