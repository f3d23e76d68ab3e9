-- ===== src/Broker/Opening.antt =====
-- The loop of getPartitionLog (cmd/broker/main.go) over a metadata store in memory: when it ends, and when
-- it does not.
use kafscale.Base.{
  ℕ, zero, suc, ◌+◌, ◌<◌, ◌≡◌, refl, sym, subst, ap, ◌∙◌, true, false, List, [], ◌∷◌, ◌++◌, Option,
  none, some, ok, err, arith, Bool-cases, Result-cases, ◌⊎◌, Option-cases, length, ◌||◌, inl, inr,
}
use kafscale.Base.Int.{ℤ, ℤ_Key, pos, pos_part, ltb_ℤ, leb_ℤ, wrap32, ◌+ℤ◌}
use kafscale.Base.Bytes.{Bytes}
use kafscale.Base.Maps.{Str, str_Key, str_eq, get, put, get-put_self, same_refl}
use kafscale.Metadata.Types.{InMemoryStore, MetadataTopic, TopicSpec, invalid_topic}
use kafscale.Metadata.Memory.{
  has_topic, find_topic, new_partitions, new_topic, default_leader_id, with_topics,
  default_topic_config_from_topic, create_topic,
}
use kafscale.Metadata.Memory.Offsets.{topic_has_partition, has_partition, next_offset}
use kafscale.Storage.Log.{PartitionLog, new_partition_log}
use kafscale.Storage.Log.Restore.{restore_from_s3}
use kafscale.Broker.Types.{Broker, Handler, observe}
use kafscale.Broker.Logs.{
  or_no_logs, logs_of, find_log, desired_partitions, ensure_topic, create_missing, Round, retry,
  found, no_store, no_restore, after_round, open_log, try_partition_log, get_partition_log,
}
use kafscale.Broker.Memory.{with_memory, memory_metadata}

logs_of-put :
    (topic : Str) (logs : List (Str × List (ℤ × PartitionLog)))
    → logs_of topic (put topic (logs_of topic logs) logs) ≡ logs_of topic logs
logs_of-put topic logs = ap or_no_logs (get-put_self topic (logs_of topic logs) logs)

zero-add : (n : ℕ) → 0 + n ≡ n
zero-add n = omega arith

find_topic-append :
    (name : Str) (ts : List MetadataTopic) (t : MetadataTopic)
    → has_topic name ts ≡ false
    → t.name ≡ name
    → find_topic name (ts ++ t ∷ []) ≡ some t
find_topic-append name [] t absent named = rw (named, same_refl {K = Str} name) refl
find_topic-append name (u ∷ ts) t absent named =
    ground (arith, find_topic-append name ts t (ground arith) named)

has_partition-new_partitions :
    (leader : ℤ) (first count i : ℕ)
    → i < count
    → has_partition (pos (first + i)) (new_partitions leader first count) ≡ true
unfolding new_partitions
has_partition-new_partitions leader first zero i h = absurd (omega arith)
has_partition-new_partitions leader first (suc count) zero h = ground arith
has_partition-new_partitions leader first (suc count) (suc i) h =
    ground (arith, has_partition-new_partitions leader (suc first) count i (omega arith))

-- A round that ends the loop.
abbrev IsFinal : Round → Type 0
IsFinal retry = ⊥
IsFinal _ = Unit {0}

open_log-IsFinal :
    {M S : Type 0} (b : Broker M S) (now : ℕ) (topic : Str) (partition n : ℤ) (h : Handler M S)
    → IsFinal (open_log b now topic partition n h).1
unfolding open_log
open_log-IsFinal b now topic partition n h =
    elim (Result-cases
      (restore_from_s3 (observe now b.latency b.s3)
        (new_partition_log b.s3_namespace topic partition n b.log_config now) h.world.s3).2) [
          | inl (last, e) ↦ rw (e, open_log, IsFinal) tt
          | inr (x, e) ↦ rw (e, open_log, IsFinal) tt
        ]

after_round-IsFinal :
    {M S : Type 0} (tried : Handler M S × Round) (again : Option (Handler M S × Round))
    → IsFinal tried.1
    → after_round tried again ≡ some tried
after_round-IsFinal (h, retry) again final = absurd final
after_round-IsFinal (h, found l) again final = refl
after_round-IsFinal (h, no_store e) again final = refl
after_round-IsFinal (h, no_restore e) again final = refl

get_partition_log-IsFinal :
    {M S : Type 0} (b : Broker M S) (rounds now : ℕ) (topic : Str) (partition : ℤ) (h : Handler M S)
    → IsFinal (try_partition_log b now topic partition h).1
    → get_partition_log b (suc rounds) now topic partition h
      ≡ some (try_partition_log b now topic partition h)
unfolding get_partition_log
get_partition_log-IsFinal b rounds now topic partition h final =
    after_round-IsFinal (try_partition_log b now topic partition h) _ final

module _ {S : Type 0} (sha1 : Bytes → Bytes) (created : Str) (b : Broker InMemoryStore S) (now : ℕ)
    (topic : Str) (partition : ℤ) where
  ensure_topic-exists :
      (s : InMemoryStore)
      → str_eq topic [] ≡ false
      → leb_ℤ (desired_partitions b partition) (pos 0) ≡ false
      → has_topic topic s.state.topics ≡ true
      → ensure_topic (with_memory sha1 created b) topic partition s ≡ (s, ok tt)
  unfolding ensure_topic memory_metadata create_topic
  ensure_topic-exists s named positive exists = rw (named, positive, exists) refl

  try_partition_log-retry :
      (h : Handler InMemoryStore S)
      → b.auto_create_topics ≡ true
      → str_eq topic [] ≡ false
      → leb_ℤ (desired_partitions b partition) (pos 0) ≡ false
      → has_topic topic h.store.state.topics ≡ true
      → topic_has_partition h.store.state.topics topic partition ≡ false
      → find_log topic partition h ≡ none
      → try_partition_log (with_memory sha1 created b) now topic partition h
        ≡ (record h { logs = put topic (logs_of topic h.logs) h.logs }, retry)
  unfolding try_partition_log create_missing next_offset memory_metadata
  try_partition_log-retry h auto named positive exists missing closed =
      rw (closed, try_partition_log)
        (rw missing (rw (ensure_topic-exists h.store named positive exists) (rw auto refl)))

  -- Whatever the number of rounds, getPartitionLog is not done for a partition that its topic does not
  -- have, if it may create topics: it asks for the topic, which exists, and tries again. The topic has a
  -- name, no log of the partition is open, and at least one partition would be created.
  pub get_partition_log_spins :
      (rounds : ℕ) (h : Handler InMemoryStore S)
      → b.auto_create_topics ≡ true
      → str_eq topic [] ≡ false
      → leb_ℤ (desired_partitions b partition) (pos 0) ≡ false
      → has_topic topic h.store.state.topics ≡ true
      → topic_has_partition h.store.state.topics topic partition ≡ false
      → find_log topic partition h ≡ none
      → get_partition_log (with_memory sha1 created b) rounds now topic partition h ≡ none
  unfolding get_partition_log find_log
  get_partition_log_spins zero h auto named positive exists missing closed = refl
  get_partition_log_spins (suc rounds) h auto named positive exists missing closed =
      rw (try_partition_log-retry h auto named positive exists missing closed, get_partition_log)
        (get_partition_log_spins rounds
          (record h { logs = put topic (logs_of topic h.logs) h.logs }) auto named positive exists
          missing (ap (λ ls. get partition ls) (logs_of-put topic h.logs) ∙ closed))

  -- The first round ends the loop if the partition exists.
  try_partition_log-exists :
      (h : Handler InMemoryStore S)
      → topic_has_partition h.store.state.topics topic partition ≡ true
      → IsFinal (try_partition_log (with_memory sha1 created b) now topic partition h).1
  unfolding try_partition_log memory_metadata next_offset
  try_partition_log-exists h exists = elim (Option-cases (find_log topic partition h)) [
    | inl closed ↦
        rw (closed, try_partition_log, exists)
          (open_log-IsFinal (with_memory sha1 created b) now topic partition _ _)
    | inr (l, e) ↦ rw (e, try_partition_log) tt
  ]

  abbrev request : TopicSpec
  request = record {
    name = topic;
    num_partitions = desired_partitions b partition;
    replication_factor = pos 1;
  }

  abbrev new : InMemoryStore → MetadataTopic
  new m = new_topic sha1 (default_leader_id m) request

  -- Creating a topic that does not exist fails, or adds it.
  create_topic-cases :
      (m : InMemoryStore)
      → has_topic topic m.state.topics ≡ false
      → (create_topic sha1 created request m ≡ (m, err invalid_topic))
        ⊎ ((m' : InMemoryStore) × (create_topic sha1 created request m ≡ (m', ok (new m)))
            × (m'.state.topics ≡ m.state.topics ++ new m ∷ []))
  unfolding create_topic
  create_topic-cases m absent =
      elim (Bool-cases (str_eq topic [] || leb_ℤ (desired_partitions b partition) (pos 0))) [
        | inl bad ↦ inl (rw (bad, create_topic) refl)
        | inr good ↦ elim (Bool-cases (ltb_ℤ (pos (length m.state.brokers)) (pos 1))) [
          | inl few ↦ inl (rw (good, absent, few, create_topic) refl)
          | inr enough ↦ inr (
            record (with_topics (m.state.topics ++ new m ∷ []) m) {
              topic_configs =
                  put topic (default_topic_config_from_topic created (new m) (pos 1))
                    m.topic_configs;
            },
            rw (good, absent, enough, create_topic) refl,
            refl,
          )
        ]
      ]

  desired_above :
      (i : ℕ)
      → partition ≡ pos i
      → suc i < 2147483648
      → i < pos_part (desired_partitions b partition)
  unfolding wrap32 ◌+ℤ◌
  desired_above i e fits = rw e (ground arith)

  new_has_partition :
      (i : ℕ) (m m' : InMemoryStore)
      → partition ≡ pos i
      → suc i < 2147483648
      → has_topic topic m.state.topics ≡ false
      → m'.state.topics ≡ m.state.topics ++ new m ∷ []
      → topic_has_partition m'.state.topics topic partition ≡ true
  unfolding topic_has_partition
  new_has_partition i m m' e fits absent grown =
      rw (grown, find_topic-append topic m.state.topics (new m) absent refl, topic_has_partition)
        (subst (λ z. has_partition z (new m).partitions ≡ true) (ap pos (zero-add i) ∙ sym e)
          (has_partition-new_partitions (default_leader_id m) 0
            (pos_part (desired_partitions b partition)) i (desired_above i e fits)))

  -- The first round for a topic that does not exist ends the loop, or adds the topic.
  try_partition_log-absent :
      (i : ℕ) (h : Handler InMemoryStore S)
      → partition ≡ pos i
      → suc i < 2147483648
      → has_topic topic h.store.state.topics ≡ false
      → topic_has_partition h.store.state.topics topic partition ≡ false
      → find_log topic partition h ≡ none
      → IsFinal (try_partition_log (with_memory sha1 created b) now topic partition h).1
        ⊎ ((h' : Handler InMemoryStore S) × (try_partition_log
                (with_memory sha1 created b)
                now
                topic
                partition
                h
              ≡ (h', retry))
            × (topic_has_partition h'.store.state.topics topic partition ≡ true))
  unfolding try_partition_log create_missing ensure_topic next_offset memory_metadata
  try_partition_log-absent i h e fits absent missing closed =
      elim (Bool-cases b.auto_create_topics) [
        | inr manual ↦ inl (rw (closed, try_partition_log, missing, manual, create_missing) tt)
        | inl auto ↦ elim (create_topic-cases h.store absent) [
          | inl failed ↦
              inl (rw (closed, try_partition_log, missing, auto, create_missing, failed) tt)
          | inr (m', made, grown) ↦ inr (
            record h { store = m'; logs = put topic (logs_of topic h.logs) h.logs },
            rw (closed, try_partition_log, missing, auto, create_missing, made) refl,
            new_has_partition i h.store m' e fits absent grown,
          )
        ]
      ]

  -- If the partition exists, or its topic does not, getPartitionLog is done after two rounds at most. The
  -- partition is an int32 that can be counted up by one.
  pub get_partition_log_ends :
      (rounds i : ℕ) (h : Handler InMemoryStore S)
      → partition ≡ pos i
      → suc i < 2147483648
      → (topic_has_partition h.store.state.topics topic partition ≡ true)
        ⊎ (has_topic topic h.store.state.topics ≡ false)
      → (out : Handler InMemoryStore S × Round) × (get_partition_log
            (with_memory sha1 created b)
            (suc (suc rounds))
            now
            topic
            partition
            h
          ≡ some out)
  unfolding get_partition_log try_partition_log
  get_partition_log_ends rounds i h e fits (inl exists) = (
    _,
    get_partition_log-IsFinal (with_memory sha1 created b) (suc rounds) now topic partition h
        (try_partition_log-exists h exists),
  )
  get_partition_log_ends rounds i h e fits (inr absent) =
      elim (Bool-cases (topic_has_partition h.store.state.topics topic partition)) [
        | inl exists ↦ (
          _,
          get_partition_log-IsFinal (with_memory sha1 created b) (suc rounds) now topic partition h
              (try_partition_log-exists h exists),
        )
        | inr missing ↦ elim (Option-cases (find_log topic partition h)) [
          | inr (l, open_one) ↦ (
            _,
            get_partition_log-IsFinal (with_memory sha1 created b) (suc rounds) now topic partition
                h (rw (open_one, try_partition_log) tt),
          )
          | inl closed ↦ elim (try_partition_log-absent i h e fits absent missing closed) [
            | inl final ↦ (
              _,
              get_partition_log-IsFinal (with_memory sha1 created b) (suc rounds) now topic
                  partition h final,
            )
            | inr (h', again, exists) ↦ (
              try_partition_log (with_memory sha1 created b) now topic partition h',
              rw (again, get_partition_log)
                  (get_partition_log-IsFinal (with_memory sha1 created b) rounds now topic partition
                    h' (try_partition_log-exists h' exists)),
            )
          ]
        ]
      ]
