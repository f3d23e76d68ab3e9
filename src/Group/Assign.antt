-- ===== src/Group/Assign.antt =====
-- The partition assignment of pkg/broker/coordinator.go. Go visits its maps in any order; here they
-- are visited in the order of their entries.
pub mod Shares
use kafscale.Base.{
  ℕ, zero, suc, ◌+◌, ◌%◌, Bool, true, false, ◌&&◌, ◌||◌, List, [], ◌∷◌, ◌++◌, Option, none, some,
  if◌then◌else◌, length, get_or, map,
}
use kafscale.Base.Int.{ℤ, pos, leb_ℤ}
use kafscale.Base.Maps.{Str, str_Key, str_eq, get, put}
use kafscale.Base.Sort.{sort, str_le}
use kafscale.Group.Types.{MemberState, AssignmentTopic, GroupState, TopicPartitions, Store}
use kafscale.Group.State.{sorted_members, contains, keys, no_members}

abbrev pub add_new : Str → List Str → List Str
add_new topic seen = if contains topic seen then seen else seen ++ topic ∷ []

abbrev pub add_topics : List Str → List Str → List Str
add_topics [] seen = seen
add_topics (t ∷ ts) seen = add_topics ts (add_new t seen)

-- The topics that some member subscribes to, each once.
unfoldable pub subscriptions : List (Str × MemberState) → List Str → List Str
subscriptions [] seen = seen
subscriptions ((id, m) ∷ ms) seen = subscriptions ms (add_topics m.topics seen)

abbrev pub or_zero : List ℤ → List ℤ
or_zero [] = pos 0 ∷ []
or_zero (p ∷ ps) = p ∷ ps

abbrev zero_partition : List Str → List (Str × List ℤ)
zero_partition [] = []
zero_partition (t ∷ ts) = put t (pos 0 ∷ []) (zero_partition ts)

abbrev topic_indexes : List TopicPartitions → List (Str × List ℤ) → List (Str × List ℤ)
topic_indexes [] result = result
topic_indexes (t ∷ ts) result =
    topic_indexes ts (put t.name (sort leb_ℤ (or_zero t.indexes)) result)

-- Partition 0 of each topic where the metadata cannot be had, or names no partition.
unfoldable pub collect_topic_partitions :
    {S : Type 0} → Store S → S → GroupState → List (Str × List ℤ)
collect_topic_partitions store s group = elim (subscriptions group.members []) [
  | [] ↦ []
  | t ∷ ts ↦ elim (store.metadata (t ∷ ts) s) [
    | none ↦ zero_partition (t ∷ ts)
    | some topics ↦ topic_indexes topics []
  ]
]

abbrev pub subscribes : Option MemberState → Str → Bool
subscribes none topic = false
subscribes (some m) topic = contains topic m.topics

unfoldable pub eligible_members : List (Str × MemberState) → Str → List Str → List Str
eligible_members members topic [] = []
eligible_members members topic (id ∷ ids) =
    if subscribes (get id members) topic
    then id ∷ eligible_members members topic ids
    else eligible_members members topic ids

-- `result[memberID][topic]`
abbrev pub Result : Type 0
Result = List (Str × List (Str × List ℤ))

abbrev pub inner : Str → Result → List (Str × List ℤ)
inner id result = elim (get id result) [ none ↦ [] | some topics ↦ topics ]

abbrev pub given : Str → Str → Result → List ℤ
given id topic result = elim (get topic (inner id result)) [ none ↦ [] | some ps ↦ ps ]

unfoldable pub give : Str → Str → ℤ → Result → Result
give id topic p result =
    put id (put topic (given id topic result ++ p ∷ []) (inner id result)) result

-- The loop over a topic's partitions; `idx` is the index of the first. With no eligible member
-- there is nothing to do.
unfoldable pub give_partitions : List Str → Str → List ℤ → ℕ → Result → Result
give_partitions eligible topic [] idx result = result
give_partitions eligible topic (p ∷ ps) idx result =
    give_partitions eligible topic ps (idx + 1)
      (give (get_or eligible (idx % length eligible) []) topic p result)

unfoldable pub assign_topic : List (Str × MemberState) → List Str → Str → List ℤ → Result → Result
assign_topic members ids topic partitions result =
    let eligible = eligible_members members topic ids in
    if no_members eligible then result else give_partitions eligible topic partitions 0 result

unfoldable pub assign_topics :
    List (Str × MemberState) → List Str → List (Str × List ℤ) → Result → Result
assign_topics members ids [] result = result
assign_topics members ids ((topic, partitions) ∷ topics) result =
    assign_topics members ids topics (assign_topic members ids topic partitions result)

abbrev no_topics : List Str → Result
no_topics [] = []
no_topics (id ∷ ids) = (id, []) ∷ no_topics ids

abbrev assignment_of : List (Str × List ℤ) → List Str → List AssignmentTopic
assignment_of topics [] = []
assignment_of topics (name ∷ names) =
    record {
      name = name;
      partitions = sort leb_ℤ (elim (get name topics) [ none ↦ [] | some ps ↦ ps ]);
    }
    ∷ assignment_of topics names

abbrev member_assignment : List (Str × List ℤ) → List AssignmentTopic
member_assignment topics = assignment_of topics (sort str_le (keys topics))

abbrev finish : Result → List (Str × List AssignmentTopic)
finish [] = []
finish ((id, topics) ∷ result) = (id, member_assignment topics) ∷ finish result

unfoldable pub assign_partitions :
    {S : Type 0} → Store S → S → GroupState → List (Str × List AssignmentTopic)
assign_partitions store s group =
    let topics = collect_topic_partitions store s group in
    let ids = sorted_members group in
    if no_members group.members
    then []
    else finish (assign_topics group.members ids topics (no_topics ids))
