-- ===== src/Group/Wire/RoundTrip.antt =====
-- parseSubscriptionTopics reads what encodeSubscription writes.
use mathlib.Core.List.{append_assoc}
use native.Mathlib.Nat.{mod-eq_of_lt}
use kafscale.Base.{
  ℕ, zero, suc, ◌+◌, ◌-◌, ◌%◌, ◌≤◌, ◌<◌, ◌≡◌, refl, ap, true, false, List, [], ◌∷◌, ◌++◌, some, ltb,
  leb, length, drop, arith, length-append, drop-append, take-append, ◌∙◌,
}
use kafscale.Base.Bytes.{Bytes, All, be16, be32, uint-be16, uint-be32, slice}
use kafscale.Base.Maps.{Str}
use kafscale.Group.Wire.{topics_bytes, encode_subscription, parse_topics, parse_subscription_topics}

abbrev pub IsName : Str → Type 0
IsName t = length t < 65536

length-topics_bytes : (ts : List Str) → length ts + length ts ≤ length (topics_bytes ts)
unfolding topics_bytes be16
length-topics_bytes [] = omega arith
length-topics_bytes (t ∷ ts) =
    omega (arith, length-append t (topics_bytes ts), length-topics_bytes ts)

slice-be16 : (n : ℕ) (x : Bytes) → slice 0 2 (be16 n ++ x) ≡ be16 n
unfolding slice be16
slice-be16 n x = refl

drop-be16 : (n : ℕ) (x : Bytes) → drop 2 (be16 n ++ x) ≡ x
unfolding be16
drop-be16 n x = refl

be16_long : (n : ℕ) (x : Bytes) → leb 2 (length (be16 n ++ x)) ≡ true
unfolding be16
be16_long n x = ground arith

not_short : (t rest : Bytes) → ltb (length (t ++ rest)) (length t) ≡ false
not_short t rest = ground (arith, length-append t rest)

some_left : (count : ℕ) → ltb 0 (suc count) ≡ true
some_left count = ground arith

one_less : (count : ℕ) → suc count - 1 ≡ count
one_less count = omega arith

parse_one :
    (fuel count : ℕ) (t : Str) (rest : Bytes)
    → IsName t
    → parse_topics (suc fuel) (suc count) (be16 (length t % 65536) ++ (t ++ rest))
      ≡ t ∷ parse_topics fuel count rest
unfolding parse_topics
parse_one fuel count t rest h = rw (
  some_left count,
  be16_long (length t % 65536) (t ++ rest),
  slice-be16 (length t % 65536) (t ++ rest),
  drop-be16 (length t % 65536) (t ++ rest),
  uint-be16 (length t % 65536) (omega arith),
  mod-eq_of_lt h,
  not_short t rest,
  take-append t rest,
  drop-append t rest,
  one_less count,
)

parse_topics-topics_bytes :
    (fuel : ℕ) (ts : List Str) (rest : Bytes)
    → All IsName ts
    → length ts < fuel
    → parse_topics fuel (length ts) (topics_bytes ts ++ rest) ≡ ts
unfolding topics_bytes
parse_topics-topics_bytes zero ts rest h m = absurd (omega arith)
parse_topics-topics_bytes (suc fuel) [] rest h m = unfold parse_topics in refl
parse_topics-topics_bytes (suc fuel) (t ∷ ts) rest h m =
    rw
      (
        append_assoc (be16 (length t % 65536)) (t ++ topics_bytes ts) rest,
        append_assoc t (topics_bytes ts) rest,
      )
      (parse_one fuel (length ts) t (topics_bytes ts ++ rest) h.0
        ∙ ap (◌∷◌ t) (parse_topics-topics_bytes fuel ts rest h.1 (omega arith)))

encoded_long : (ts : List Str) → ltb (length (encode_subscription ts)) 6 ≡ false
unfolding encode_subscription be16 be32
encoded_long ts = ground arith

count_lem : (ts : List Str) → slice 2 6 (encode_subscription ts) ≡ be32 (length ts % 4294967296)
unfolding encode_subscription slice be16 be32
count_lem ts = refl

rest_lem : (ts : List Str) → drop 6 (encode_subscription ts) ≡ topics_bytes ts ++ be32 0
unfolding encode_subscription be16 be32
rest_lem ts = refl

fuel_lem : (ts : List Str) → length ts < length (encode_subscription ts)
unfolding encode_subscription be16 be32
fuel_lem ts =
    omega (arith, length-topics_bytes ts, length-append (topics_bytes ts) (0 ∷ 0 ∷ 0 ∷ 0 ∷ []))

-- A group member's subscription survives the way through JoinGroup: the topics that are encoded for
-- the leader parse back to the same topics, in order, if there are fewer than 2^32 of them and each
-- name is shorter than 2^16 bytes.
pub parse_subscription_topics-encode_subscription :
    (ts : List Str)
    → All IsName ts
    → length ts < 4294967296
    → parse_subscription_topics (some (encode_subscription ts)) ≡ ts
unfolding parse_subscription_topics
parse_subscription_topics-encode_subscription ts h few =
    rw
      (
        encoded_long ts,
        count_lem ts,
        uint-be32 (length ts % 4294967296) (omega arith),
        mod-eq_of_lt few,
        rest_lem ts,
      )
      (parse_topics-topics_bytes _ ts (be32 0) h (fuel_lem ts))
