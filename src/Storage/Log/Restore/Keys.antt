-- ===== src/Storage/Log/Restore/Keys.antt =====
-- The names of segments, written by segmentKey and read by parseSegmentBaseOffset of
-- pkg/storage/log.go.
use kafscale.Base.{
  ℕ, ◌+◌, ◌-◌, ◌<◌, ◌≡◌, refl, true, [], ◌∷◌, ◌++◌, some, length, take, take-append, length-append,
  arith, ap, sym, ◌∙◌,
}
use mathlib.Core.List.{append_assoc, append-nil}
use kafscale.Base.Int.{ℤ, pos}
use kafscale.Base.Bytes.{All}
use kafscale.Base.Maps.{Str, str_eq_iff}
use kafscale.Base.Decimal.{
  decimal, decimal20, parse_int64, NotSlash, decimal20-NotSlash, parse_int64-decimal20,
}
use kafscale.Storage.Log.{PartitionLog, segment_prefix, segment_key}
use kafscale.Storage.Log.Restore.{
  has_suffix, base_from, segment_suffix, segment_start, parse_segment_base_offset,
}

has_suffix-append : (suffix xs : Str) → has_suffix suffix (xs ++ suffix) ≡ true
has_suffix-append [] [] = refl
has_suffix-append (c ∷ cs) [] = ground (arith, str_eq_iff (c ∷ cs) (c ∷ cs))
has_suffix-append suffix (x ∷ xs) = ground (arith, has_suffix-append suffix xs)

base_from-slash : (acc pre rest : Str) → base_from acc (pre ++ 47 ∷ rest) ≡ base_from [] rest
unfolding base_from
base_from-slash acc [] rest = refl
base_from-slash acc (c ∷ cs) rest =
    ground (arith, base_from-slash [] cs rest, base_from-slash (acc ++ c ∷ []) cs rest)

base_from-prefix :
    (l : PartitionLog) (name : Str) → base_from [] (segment_prefix l ++ name) ≡ base_from [] name
unfolding segment_prefix
base_from-prefix l name =
    let partition : Str = decimal l.partition in
    rw (
      append_assoc l.namespace (47 ∷ (l.topic ++ (47 ∷ (partition ++ (47 ∷ []))))) name,
      base_from-slash [] l.namespace,
      append_assoc l.topic (47 ∷ (partition ++ (47 ∷ []))) name,
      base_from-slash [] l.topic,
      append_assoc partition (47 ∷ []) name,
      base_from-slash [] partition,
    )

base_from-NotSlash :
    (acc name suffix : Str)
    → All NotSlash name
    → base_from acc (name ++ suffix) ≡ base_from (acc ++ name) suffix
unfolding base_from
base_from-NotSlash acc [] suffix h = rw (append-nil acc)
base_from-NotSlash acc (c ∷ cs) suffix h =
    rw (h.0, base_from-NotSlash (acc ++ c ∷ []) cs suffix h.1, append_assoc acc (c ∷ []) cs)

segment_name-base :
    (digits : Str)
    → All NotSlash digits
    → base_from [] (segment_start ++ (digits ++ segment_suffix))
      ≡ segment_start ++ (digits ++ segment_suffix)
unfolding base_from
segment_name-base digits h =
    base_from-NotSlash segment_start digits segment_suffix h ∙ simp append_assoc

minus_added : (n : ℕ) → n + 4 - 4 ≡ n
minus_added n = omega arith

trim_suffix :
    (digits : Str)
    → take (length (digits ++ segment_suffix) - length segment_suffix) (digits ++ segment_suffix)
      ≡ digits
trim_suffix digits =
    rw (length-append digits segment_suffix, minus_added (length digits))
      (take-append digits segment_suffix)

parse_segment_base_offset-name :
    (key digits : Str)
    → base_from [] key ≡ segment_start ++ (digits ++ segment_suffix)
    → parse_segment_base_offset key ≡ parse_int64 digits
unfolding parse_segment_base_offset
parse_segment_base_offset-name key digits e =
    rw (e, trim_suffix digits, has_suffix-append segment_suffix (segment_start ++ digits))

-- The base offset is read back from the key that was made for it.
pub parse_segment_base_offset-segment_key :
    (l : PartitionLog) (n : ℕ)
    → n < 9223372036854775808
    → parse_segment_base_offset (segment_key l (pos n)) ≡ some (pos n)
unfolding segment_key
parse_segment_base_offset-segment_key l n h =
    parse_segment_base_offset-name (segment_key l (pos n)) (decimal20 (pos n)) (
      base_from-prefix l (segment_start ++ (decimal20 (pos n) ++ segment_suffix))
      ∙ segment_name-base (decimal20 (pos n)) (decimal20-NotSlash n))
    ∙ parse_int64-decimal20 n h

pub has_suffix-segment_key :
    (l : PartitionLog) (base : ℤ) → has_suffix segment_suffix (segment_key l base) ≡ true
unfolding segment_key
has_suffix-segment_key l base =
    let name : Str = segment_start ++ decimal20 base in
    ap (has_suffix segment_suffix) (sym (append_assoc (segment_prefix l) name segment_suffix))
    ∙ has_suffix-append segment_suffix (segment_prefix l ++ name)
