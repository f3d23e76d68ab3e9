-- ===== src/Group/Wire.antt =====
-- The consumer protocol's bytes in pkg/broker/coordinator.go: subscriptions and assignments.
pub mod RoundTrip
use kafscale.Base.{
  ℕ, zero, suc, ◌+◌, ◌-◌, ◌%◌, Bool, true, false, ◌&&◌, ◌||◌, List, [], ◌∷◌, ◌++◌, Option, none,
  some, ltb, leb, ◌==◌, if◌then◌else◌, length, take, drop,
}
use kafscale.Base.Int.{ℤ, bits32}
use kafscale.Base.Bytes.{Bytes, be16, be32, uint, slice}
use kafscale.Base.Maps.{Str}
use kafscale.Group.Types.{AssignmentTopic}

-- int16(len(topic)) and int32(len(topics)) keep the low bits of the length.
abbrev len16 : Str → ℕ
len16 s = length s % 65536

abbrev len32 : ℕ → ℕ
len32 n = n % 4294967296

unfoldable pub topics_bytes : List Str → Bytes
topics_bytes [] = []
topics_bytes (t ∷ ts) = be16 (len16 t) ++ (t ++ topics_bytes ts)

-- The version, the topics and an empty user data field.
unfoldable pub encode_subscription : List Str → Bytes
encode_subscription topics =
    be16 0 ++ (be32 (len32 (length topics)) ++ (topics_bytes topics ++ be32 0))

unfoldable pub partitions_bytes : List ℤ → Bytes
partitions_bytes [] = []
partitions_bytes (p ∷ ps) = be32 (bits32 p) ++ partitions_bytes ps

unfoldable pub assignment_bytes : List AssignmentTopic → Bytes
unfolding partitions_bytes
assignment_bytes [] = []
assignment_bytes (t ∷ ts) =
    be16 (len16 t.name)
    ++ (t.name
        ++ (be32 (len32 (length t.partitions))
            ++ (partitions_bytes t.partitions ++ assignment_bytes ts)))

unfoldable pub encode_assignment : List AssignmentTopic → Bytes
unfolding assignment_bytes
encode_assignment topics =
    be16 0 ++ (be32 (len32 (length topics)) ++ (assignment_bytes topics ++ be32 0))

-- The loop of parseSubscriptionTopics over the bytes not yet read; `count` topics are still wanted.
-- Each round takes two bytes at least, so as much fuel as there are bytes is enough.
unfoldable pub parse_topics : ℕ → ℕ → Bytes → List Str
parse_topics zero count bs = []
parse_topics (suc fuel) count bs =
    let name_len = uint (slice 0 2 bs) in
    let rest = drop 2 bs in
    let more = take name_len rest ∷ parse_topics fuel (count - 1) (drop name_len rest) in
    if ltb 0 count && leb 2 (length bs)
    then (if ltb (length rest) name_len then [] else more)
    else []

-- The metadata of the first protocol, `none` if there is no protocol.
unfoldable pub parse_subscription_topics : Option Bytes → List Str
parse_subscription_topics none = []
parse_subscription_topics (some bs) =
    if ltb (length bs) 6 then [] else parse_topics (length bs) (uint (slice 2 6 bs)) (drop 6 bs)
