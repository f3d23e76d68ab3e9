-- ===== src/Storage/S3.antt =====
-- pkg/storage/s3client.go: the store of the segments, and its implementation s3_memory.go. An
-- operation takes the store's state and returns the new one; `false` and `none` are its errors.
use kafscale.Base.{
  ◌+◌, ◌-◌, Bool, true, false, ◌||◌, List, [], ◌∷◌, Option, none, some, ltb, leb, if◌then◌else◌,
  length,
}
use kafscale.Base.Int.{ℤ, pos, negsuc, pos_part, leb_ℤ, ltb_ℤ}
use kafscale.Base.Bytes.{Bytes, slice}
use kafscale.Base.Maps.{Str, str_Key, get, put}

-- A range of bytes, both ends included.
pub record ByteRange : Type 0 where
  pub start : ℤ
  pub end : ℤ

pub record S3Object : Type 0 where
  pub key : Str
  pub size : ℤ

pub record S3Client (S : Type 0) : Type 0 where
  pub upload_segment : Str → Bytes → S → S × Bool
  pub upload_index : Str → Bytes → S → S × Bool
  pub download_segment : Str → Option ByteRange → S → S × Option Bytes
  pub download_index : Str → S → S × Option Bytes
  pub list_segments : Str → S → S × Option (List S3Object)

-- `visit` is the order in which Go visits the entries of the map of objects, which is any.
pub record MemoryS3 : Type 0 where
  pub objects : List (Str × Bytes)
  pub index : List (Str × Bytes)
  pub visit : List (Str × Bytes) → List (Str × Bytes)

abbrev pub has_prefix : Str → Str → Bool
has_prefix [] s = true
has_prefix (p ∷ ps) [] = false
has_prefix (p ∷ ps) (c ∷ cs) =
    if leb p c then (if leb c p then has_prefix ps cs else false) else false

-- DownloadSegment's treatment of a range, over the bytes stored.
unfoldable pub cut : ByteRange → Bytes → Option Bytes
cut rng bs =
    let start = if ltb_ℤ rng.start (pos 0) then pos 0 else rng.start in
    let len = length bs in
    let end =
      if leb_ℤ (pos len) rng.end
      then (if ltb 0 len then pos (len - 1) else negsuc 0)
      else rng.end in
    if ltb_ℤ end start || leb_ℤ (pos len) start
    then none
    else some (slice (pos_part start) (pos_part end + 1) bs)

unfoldable pub objects_under : Str → List (Str × Bytes) → List S3Object
objects_under prefix [] = []
objects_under prefix ((key, bs) ∷ m) =
    if has_prefix prefix key
    then record { key = key; size = pos (length bs) } ∷ objects_under prefix m
    else objects_under prefix m

abbrev download_from : Option ByteRange → Option Bytes → Option Bytes
download_from rng none = none
download_from none (some bs) = some bs
download_from (some rng) (some bs) = cut rng bs

unfoldable pub memory_s3 : S3Client MemoryS3
unfolding objects_under
memory_s3 = record {
  upload_segment = λ key bs s. (record s { objects = put key bs s.objects }, true);
  upload_index = λ key bs s. (record s { index = put key bs s.index }, true);
  download_segment = λ key rng s. (s, download_from rng (get key s.objects));
  download_index = λ key s. (s, get key s.index);
  list_segments = λ prefix s. (s, some (objects_under prefix (s.visit s.objects)));
}
