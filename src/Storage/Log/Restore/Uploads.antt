-- ===== src/Storage/Log/Restore/Uploads.antt =====
-- Uploading a segment (flushLocked of pkg/storage/log.go) to a store that holds the segments of a log.
use kafscale.Base.{
  ℕ, ◌<◌, ◌≡◌, ◌≢◌, refl, true, false, List, [], ◌∷◌, ◌++◌, Option, some, map, length, drop,
  length-append, take-append, drop-append, arith, ap, sym, ◌∙◌, Bool-cases, inl, inr,
}
use mathlib.Core.List.{map-append}
use kafscale.Base.Int.{ℤ, pos, ℤ_Key}
use kafscale.Base.Bytes.{Bytes, All}
use kafscale.Base.Maps.{Str, str_Key, str_eq, str_eq_iff, same_refl, put, has, get-put}
use kafscale.Base.Decimal.{decimal20, parse_int64, parse_int64-decimal20}
use kafscale.Storage.Types.{SegmentArtifact}
use kafscale.Storage.S3.{S3Object, MemoryS3, has_prefix, objects_under}
use kafscale.Storage.Log.{PartitionLog, segment_prefix, segment_key, index_key}
use kafscale.Storage.Log.Restore.{segment_start, segment_suffix}
use kafscale.Storage.Log.Restore.Recovery.{object_of, IsReadable, IsHeld, Holds}

cancel_end {ℓ} : {A : Type ℓ} (xs ys zs : List A) → xs ++ zs ≡ ys ++ zs → xs ≡ ys
cancel_end xs ys zs e =
    let same : length xs ≡ length ys =
      omega (arith, length-append xs zs, length-append ys zs, ap length e) in
    sym (take-append xs zs) ∙ rw (e, same) (take-append ys zs)

cancel_start {ℓ} : {A : Type ℓ} (xs ys zs : List A) → xs ++ ys ≡ xs ++ zs → ys ≡ zs
cancel_start xs ys zs e = sym (drop-append xs ys) ∙ ap (drop (length xs)) e ∙ drop-append xs zs

names_differ :
    (prefix suffix : Str) (n m : ℕ)
    → n < 9223372036854775808
    → m < 9223372036854775808
    → n ≢ m
    → prefix ++ (segment_start ++ (decimal20 (pos n) ++ suffix))
      ≢ prefix ++ (segment_start ++ (decimal20 (pos m) ++ suffix))
names_differ prefix suffix n m hn hm ne e =
    let digits : decimal20 (pos n) ≡ decimal20 (pos m) =
      cancel_end (decimal20 (pos n)) (decimal20 (pos m)) suffix (
        cancel_start segment_start (decimal20 (pos n) ++ suffix) (decimal20 (pos m) ++ suffix) (
          cancel_start prefix (segment_start ++ (decimal20 (pos n) ++ suffix))
            (segment_start ++ (decimal20 (pos m) ++ suffix)) e)) in
    let read : ◌≡◌ {A = Option ℤ} (some (pos n)) (some (pos m)) =
      sym (parse_int64-decimal20 n hn) ∙ ap parse_int64 digits ∙ parse_int64-decimal20 m hm in
    ne (cc)

has_prefix-append : (xs ys : Str) → has_prefix xs (xs ++ ys) ≡ true
has_prefix-append [] ys = refl
has_prefix-append (x ∷ xs) ys = ground (arith, has_prefix-append xs ys)

-- A new key under the prefix is listed last.
objects_under-put :
    (prefix key : Str) (bs : Bytes) (m : List (Str × Bytes))
    → has_prefix prefix key ≡ true
    → has key m ≡ false
    → objects_under prefix (put key bs m)
      ≡ objects_under prefix m ++ (record { key = key; size = pos (length bs) }) ∷ []
unfolding objects_under put has
objects_under-put prefix key bs [] p h = rw p refl
objects_under-put prefix key bs ((k, v) ∷ m) p h =
    ground (arith, objects_under-put prefix key bs m p)

-- A key that is not listed under its prefix is not in the store.
has-unlisted :
    (prefix key : Str) (m : List (Str × Bytes))
    → has_prefix prefix key ≡ true
    → All (λ (o : S3Object). str_eq o.key key ≡ false) (objects_under prefix m)
    → has key m ≡ false
unfolding objects_under has
has-unlisted prefix key [] p h = refl
has-unlisted prefix key ((k, v) ∷ m) p h = elim (Bool-cases (has_prefix prefix k)) [
  | inl t ↦ let h' = rw (t, objects_under) at h in rw (h'.0, has-unlisted prefix key m p h'.1)
  | inr f ↦
      let h' = rw (f, objects_under) at h in
      let differ : str_eq k key ≡ false = ground (arith, str_eq_iff k key) in
      rw (differ, has-unlisted prefix key m p h')
]

differ : (x y : Str) → x ≢ y → str_eq x y ≡ false
differ x y ne = elim (Bool-cases (str_eq x y)) [
  | inl t ↦ absurd (ne ((str_eq_iff x y).0 t))
  | inr f ↦ f
]

keys_differ :
    (prefix suffix : Str) (x y : ℤ) (n m : ℕ)
    → x ≡ pos n
    → y ≡ pos m
    → n < 9223372036854775808
    → m < 9223372036854775808
    → x ≢ y
    → str_eq
        (prefix ++ (segment_start ++ (decimal20 x ++ suffix)))
        (prefix ++ (segment_start ++ (decimal20 y ++ suffix)))
      ≡ false
keys_differ prefix suffix x y n m ex ey hn hm ne =
    rw (ex, ey)
      (differ _ _ (names_differ prefix suffix n m hn hm (λ e. ne (ex ∙ ap pos e ∙ sym ey))))

segment_key-has_prefix :
    (l : PartitionLog) (base : ℤ) → has_prefix (segment_prefix l) (segment_key l base) ≡ true
unfolding segment_key
segment_key-has_prefix l base = has_prefix-append (segment_prefix l) _

module _ (l : PartitionLog) (a : SegmentArtifact) (r : IsReadable a) (s : MemoryS3) where
  -- The store after both uploads.
  abbrev pub stored : MemoryS3
  stored = record s {
    objects = put (segment_key l a.base_offset) a.segment_bytes s.objects;
    index = put (index_key l a.base_offset) a.index_bytes s.index;
  }

  segment_keys_differ :
      (b : SegmentArtifact)
      → IsHeld l s b
      → b.base_offset ≢ a.base_offset
      → str_eq (segment_key l b.base_offset) (segment_key l a.base_offset) ≡ false
  unfolding segment_key
  segment_keys_differ b h ne =
      keys_differ (segment_prefix l) segment_suffix b.base_offset a.base_offset h.readable.base
        r.base h.readable.base_is r.base_is h.readable.base_fits r.base_fits ne

  index_keys_differ :
      (b : SegmentArtifact)
      → IsHeld l s b
      → b.base_offset ≢ a.base_offset
      → str_eq (index_key l a.base_offset) (index_key l b.base_offset) ≡ false
  unfolding index_key
  index_keys_differ b h ne =
      keys_differ (segment_prefix l) (46 ∷ 105 ∷ 110 ∷ 100 ∷ 101 ∷ 120 ∷ []) a.base_offset
        b.base_offset r.base h.readable.base r.base_is h.readable.base_is r.base_fits
        h.readable.base_fits (λ e. ne (sym e))

  segment_key_new :
      (b : SegmentArtifact)
      → IsHeld l s b
      → b.base_offset ≢ a.base_offset
      → str_eq (segment_key l a.base_offset) (segment_key l b.base_offset) ≡ false
  segment_key_new b h ne = ground (
    arith,
    segment_keys_differ b h ne,
    str_eq_iff (segment_key l a.base_offset) (segment_key l b.base_offset),
    str_eq_iff (segment_key l b.base_offset) (segment_key l a.base_offset),
  )

  IsHeld-still :
      (b : SegmentArtifact) → IsHeld l s b → b.base_offset ≢ a.base_offset → IsHeld l stored b
  IsHeld-still b h ne = record {
    readable = h.readable;
    segment_stored =
        rw
          (
            get-put (segment_key l a.base_offset) (segment_key l b.base_offset) a.segment_bytes
                s.objects,
            segment_key_new b h ne,
          )
          h.segment_stored;
    index_stored =
        rw
          (
            get-put (index_key l a.base_offset) (index_key l b.base_offset) a.index_bytes s.index,
            index_keys_differ b h ne,
          )
          h.index_stored;
  }

  IsHeld-new : IsHeld l stored a
  IsHeld-new = record {
    readable = r;
    segment_stored = rw (
      get-put (segment_key l a.base_offset) (segment_key l a.base_offset) a.segment_bytes s.objects,
      same_refl (segment_key l a.base_offset),
    );
    index_stored = rw (
      get-put (index_key l a.base_offset) (index_key l a.base_offset) a.index_bytes s.index,
      same_refl (index_key l a.base_offset),
    );
  }

  All-IsHeld :
      (arts : List SegmentArtifact)
      → All (IsHeld l s) arts
      → All (λ b. b.base_offset ≢ a.base_offset) arts
      → All (IsHeld l stored) (arts ++ a ∷ [])
  All-IsHeld [] h ne = (IsHeld-new, tt)
  All-IsHeld (b ∷ arts) h ne = (IsHeld-still b h.0 ne.0, All-IsHeld arts h.1 ne.1)

  unlisted :
      (arts : List SegmentArtifact)
      → All (IsHeld l s) arts
      → All (λ b. b.base_offset ≢ a.base_offset) arts
      → All (λ o. str_eq o.key (segment_key l a.base_offset) ≡ false) (map (object_of l) arts)
  unlisted [] h ne = tt
  unlisted (b ∷ arts) h ne = (segment_keys_differ b h.0 ne.0, unlisted arts h.1 ne.1)

  -- The store that holds the segments of a partition holds one more after the uploads of a segment
  -- with a base offset of its own.
  pub stored-Holds :
      (arts : List SegmentArtifact)
      → Holds l s arts
      → All (λ b. b.base_offset ≢ a.base_offset) arts
      → Holds l stored (arts ++ a ∷ [])
  stored-Holds arts h ne =
      let key : Str = segment_key l a.base_offset in
      let under : has_prefix (segment_prefix l) key ≡ true =
        segment_key-has_prefix l a.base_offset in
      let absent : has key s.objects ≡ false =
        has-unlisted (segment_prefix l) key s.objects under
          (rw h.listed (unlisted arts h.held ne)) in
      record {
        listed =
            objects_under-put (segment_prefix l) key a.segment_bytes s.objects under absent
            ∙ rw h.listed (sym (map-append (object_of l) arts (a ∷ [])));
        held = All-IsHeld arts h.held ne;
        visited = h.visited;
      }
