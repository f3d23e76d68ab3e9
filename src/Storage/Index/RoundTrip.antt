-- ===== src/Storage/Index/RoundTrip.antt =====
-- ParseIndex against BuildBytes, both of pkg/storage/index.go.
use mathlib.Core.List.{append_assoc, append-nil}
use native.Mathlib.Decide.{dec_lt}
use kafscale.Base.{
  ◌*◌, ◌⊎◌, inl, inr, ℕ, zero, suc, ◌+◌, ◌≤◌, ◌<◌, ◌≡◌, refl, false, List, [], ◌∷◌, ◌++◌, ok, err,
  ◌>>=◌, arith, ltb, length,
}
use kafscale.Base.Int.{
  pos, IsI32, IsI64, bits32, bits64, bits32-lt, bits64-lt, wrap32, wrap32-id, signed32, signed64,
  signed32-bits32, signed64-bits64,
}
use kafscale.Base.Bytes.{
  Bytes, All, be16, be32, be64, uint, uint-be16, uint-be32, uint-be64, read-be16, read-be32,
  read-be64, read_short, read_enough,
}
use kafscale.Storage.Types.{IndexEntry, panic, end_of_file}
use kafscale.Storage.Index.{
  IndexBuilder, entry_bytes, entries_bytes, build_bytes, read_uint, read_entries, read_counted,
  parse_index, index_magic,
}

-- The fields of an entry are an int64 and an int32.
abbrev pub IsEntry : IndexEntry → Type 0
IsEntry e = IsI64 e.offset × IsI32 e.position

read_uint-be16 : (n : ℕ) (rest : Bytes) → n < 65536 → read_uint 2 (be16 n ++ rest) ≡ ok (n, rest)
unfolding read_uint
read_uint-be16 n rest h = rw (read-be16 n rest, read_uint, uint-be16 n h)

pub read_uint-be32 :
    (n : ℕ) (rest : Bytes) → n < 4294967296 → read_uint 4 (be32 n ++ rest) ≡ ok (n, rest)
unfolding read_uint
read_uint-be32 n rest h = rw (read-be32 n rest, read_uint, uint-be32 n h)

pub read_uint-be64 :
    (n : ℕ) (rest : Bytes) → n < 18446744073709551616 → read_uint 8 (be64 n ++ rest) ≡ ok (n, rest)
unfolding read_uint
read_uint-be64 n rest h = rw (read-be64 n rest, read_uint, uint-be64 n h)

read_entries-entries_bytes :
    (es : List IndexEntry) (rest : Bytes)
    → All IsEntry es
    → read_entries (length es) (entries_bytes es ++ rest) ≡ ok es
unfolding read_entries entries_bytes entry_bytes
read_entries-entries_bytes [] rest h = refl
read_entries-entries_bytes (e ∷ es) rest h = rw (
  append_assoc (be64 (bits64 e.offset) ++ be32 (bits32 e.position)) (entries_bytes es) rest,
  append_assoc (be64 (bits64 e.offset)),
  read_uint-be64 _ _ (bits64-lt e.offset),
  read_uint-be32 _ _ (bits32-lt e.position),
  read_entries-entries_bytes es rest h.1,
  signed64-bits64 e.offset h.0.0,
  signed32-bits32 e.position h.0.1,
)

-- The header that BuildBytes writes, for any count, interval and reserved field, and what follows.
abbrev pub with_header : ℕ → ℕ → ℕ → Bytes → Bytes
with_header count interval reserved rest =
    index_magic ++ (be16 1 ++ (be32 count ++ (be32 interval ++ (be16 reserved ++ rest))))

with_header_long : (c i r : ℕ) (rest : Bytes) → ltb (length (with_header c i r rest)) 16 ≡ false
unfolding be16 be32
with_header_long c i r rest = ground arith

parse_index-with_header :
    (count interval reserved : ℕ) (rest : Bytes)
    → count < 4294967296
    → interval < 4294967296
    → reserved < 65536
    → parse_index (with_header count interval reserved rest) ≡ read_counted (signed32 count) rest
unfolding parse_index
parse_index-with_header c i r rest hc hi hr = rw (
  with_header_long c i r rest,
  read_uint-be16 1 _ (omega arith),
  read_uint-be32 c _ hc,
  read_uint-be32 i _ hi,
  read_uint-be16 r rest hr,
)

-- Parsing what BuildBytes writes gives back the entries, all in order, if there are fewer than
-- 2^31 of them, their offsets fit an int64 and their positions an int32.
pub parse_index-build_bytes :
    (b : IndexBuilder)
    → length b.entries < 2147483648
    → All IsEntry b.entries
    → parse_index (build_bytes b) ≡ ok b.entries
unfolding build_bytes read_counted
parse_index-build_bytes b few es =
    rw
      (
        parse_index-with_header (bits32 (wrap32 (pos (length b.entries)))) (bits32 b.interval) 0
            (entries_bytes b.entries) (bits32-lt (wrap32 (pos (length b.entries))))
            (bits32-lt b.interval) (omega arith),
        wrap32-id (pos (length b.entries)) (few, omega arith),
        signed32-bits32 (pos (length b.entries)) (few, omega arith),
      )
      (rw append-nil at (read_entries-entries_bytes b.entries [] es))

-- A well-formed header whose count field is negative as an int32 makes ParseIndex panic, whatever
-- follows the header.
pub parse_index_negative_count :
    (count interval reserved : ℕ) (rest : Bytes)
    → 2147483648 ≤ count
    → count < 4294967296
    → interval < 4294967296
    → reserved < 65536
    → parse_index (with_header count interval reserved rest) ≡ err panic
unfolding read_counted signed32
parse_index_negative_count c i r rest low hc hi hr =
    rw (parse_index-with_header c i r rest hc hi hr) (ground arith)

read_uint_cases :
    (n : ℕ) (bs : Bytes)
    → (read_uint n bs ≡ err end_of_file)
      ⊎ ((v : ℕ) × (rest : Bytes) × (read_uint n bs ≡ ok (v, rest)) × (length rest + n ≡ length bs))
unfolding read_uint
read_uint_cases n bs = elim (dec_lt (length bs) n) [
  | yes lt ↦ inl (rw (read_short n bs lt, read_uint))
  | no ge ↦
      let (x, rest, e, _, _, l) = read_enough n bs (omega arith) in
      inr (uint x, rest, rw (e, read_uint), l)
]

read_entries_short :
    (n : ℕ) (rest : Bytes) → length rest < 12 * n → read_entries n rest ≡ err end_of_file
unfolding read_entries
read_entries_short zero rest h = absurd (omega arith)
read_entries_short (suc n) rest h = elim (read_uint_cases 8 rest) [
  | inl e ↦ rw e
  | inr (v, more, e, l) ↦
      rw e (position_short v more (read_uint_cases 4 more) (read_entries_short n) (omega arith))
]
  where
    position_short :
        (v : ℕ) (more : Bytes)
        → (read_uint 4 more ≡ err end_of_file)
          ⊎ ((w : ℕ) × (tail : Bytes) × (read_uint 4 more ≡ ok (w, tail))
              × (length tail + 4 ≡ length more))
        → ((tail : Bytes) → length tail < 12 * n → read_entries n tail ≡ err end_of_file)
        → length more < 12 * n + 4
        → (do
          (position, tail) ← read_uint 4 more
          es ← read_entries n tail
          ok (record { offset = signed64 v; position = signed32 position } ∷ es))
          ≡ err end_of_file
    position_short v more (inl e) ih l = rw e
    position_short v more (inr (w, tail, e, m)) ih l = rw (e, ih tail (omega arith))

-- A well-formed header whose count is not negative, with fewer than 12 bytes behind it for each
-- entry counted, is refused with an error.
pub parse_index_truncated :
    (count interval reserved : ℕ) (rest : Bytes)
    → count < 2147483648
    → interval < 4294967296
    → reserved < 65536
    → length rest < 12 * count
    → parse_index (with_header count interval reserved rest) ≡ err end_of_file
unfolding read_counted signed32
parse_index_truncated c i r rest hc hi hr short =
    rw (parse_index-with_header c i r rest (omega arith) hi hr)
      (ground (arith, read_entries_short c rest short))
