-- ===== src/Storage/Index.antt =====
-- pkg/storage/index.go: the sparse index of a segment and its serialized form.
pub mod RoundTrip
use kafscale.Base.{
  ℕ, zero, suc, ◌+◌, ◌≡◌, refl, Bool, true, false, ◌||◌, not, List, [], ◌∷◌, ◌++◌, Option, none,
  some, Result, ok, err, ◌>>=◌, ◌>>◌, fail_if, arith, ltb, ◌==◌, if◌then◌else◌, length, take, drop,
}
use kafscale.Base.Int.{ℤ, pos, negsuc, ◌+ℤ◌, leb_ℤ, wrap32, bits32, bits64, signed32, signed64}
use kafscale.Base.Bytes.{Bytes, be16, be32, be64, uint, read}
use kafscale.Base.Maps.{str_eq}
use kafscale.Storage.Types.{
  IndexEntry, Error, index_too_small, invalid_index_magic, unsupported_version, end_of_file, panic,
}

-- "IDX\x00"
abbrev pub index_magic : Bytes
index_magic = 73 ∷ 68 ∷ 88 ∷ 0 ∷ []

pub record IndexBuilder : Type 0 where
  pub interval : ℤ  -- int32
  pub since_last : ℤ  -- int32
  pub entries : List IndexEntry

unfoldable pub new_index_builder : ℤ → IndexBuilder
new_index_builder interval = record {
  interval = if leb_ℤ interval (pos 0) then pos 1 else interval;
  since_last = pos 0;
  entries = [];
}

abbrev pub is_empty {ℓ} : {A : Type ℓ} → List A → Bool
is_empty [] = true
is_empty (x ∷ xs) = false

unfoldable pub maybe_add : IndexBuilder → ℤ → ℤ → ℤ → IndexBuilder
maybe_add b offset position batch_messages =
    let due = is_empty b.entries || leb_ℤ b.interval b.since_last in
    let entry : IndexEntry = record { offset = offset; position = position } in
    record b {
      entries = if due then b.entries ++ entry ∷ [] else b.entries;
      since_last = wrap32 ((if due then pos 0 else b.since_last) +ℤ batch_messages);
    }

unfoldable pub entry_bytes : IndexEntry → Bytes
entry_bytes e = be64 (bits64 e.offset) ++ be32 (bits32 e.position)

unfoldable pub entries_bytes : List IndexEntry → Bytes
entries_bytes [] = []
entries_bytes (e ∷ es) = entry_bytes e ++ entries_bytes es

-- Writing to a bytes.Buffer does not fail, so there is no error to return.
unfoldable pub build_bytes : IndexBuilder → Bytes
unfolding entries_bytes entry_bytes
build_bytes b =
    index_magic
    ++ (be16 1
        ++ (be32 (bits32 (wrap32 (pos (length b.entries))))
            ++ (be32 (bits32 b.interval) ++ (be16 0 ++ entries_bytes b.entries))))

-- `binary.Read` of an integer of n bytes
unfoldable pub read_uint : ℕ → Bytes → Result Error (ℕ × Bytes)
read_uint n bs = elim (read n bs) [ none ↦ err end_of_file | some (x, rest) ↦ ok (uint x, rest) ]

-- The loop of ParseIndex, over the entries left to read.
unfoldable pub read_entries : ℕ → Bytes → Result Error (List IndexEntry)
unfolding read_uint
read_entries zero bs = ok []
read_entries (suc n) bs = do
  (offset, bs) ← read_uint 8 bs
  (position, bs) ← read_uint 4 bs
  es ← read_entries n bs
  ok (record { offset = signed64 offset; position = signed32 position } ∷ es)

-- `make([]*IndexEntry, count)` panics at a negative count.
unfoldable pub read_counted : ℤ → Bytes → Result Error (List IndexEntry)
unfolding read_entries
read_counted (pos n) bs = read_entries n bs
read_counted (negsuc n) bs = err panic

unfoldable pub parse_index : Bytes → Result Error (List IndexEntry)
unfolding read_uint read_counted
parse_index bs = do
  fail_if (ltb (length bs) 16) index_too_small
  fail_if (not (str_eq (take 4 bs) index_magic)) invalid_index_magic
  (version, bs) ← read_uint 2 (drop 4 bs)
  fail_if (not (version == 1)) unsupported_version
  (count, bs) ← read_uint 4 bs
  (interval, bs) ← read_uint 4 bs
  (reserved, bs) ← read_uint 2 bs
  read_counted (signed32 count) bs
