-- ===== src/Broker/Logs.antt =====
-- getPartitionLog and ensureTopic of cmd/broker/main.go: the log of a partition, opened at its first
-- use, and the topic created for it.
use kafscale.Base.{ℕ, zero, suc, ◌&&◌, List, [], Option, none, some, Result, ok, err, if◌then◌else◌}
use kafscale.Base.Int.{ℤ, ℤ_Key, pos, ◌+ℤ◌, leb_ℤ, ltb_ℤ, wrap32}
use kafscale.Base.Maps.{Str, str_Key, get, put}
use kafscale.Health.{S3HealthState, refresh}
use kafscale.Storage.Types.{Error}
use kafscale.Storage.Log.{PartitionLog, new_partition_log}
use kafscale.Storage.Log.Restore.{restore_from_s3}
use kafscale.Broker.Types.{StoreError, Broker, Handler, observe, is_unknown_topic, is_topic_exists}

abbrev pub or_no_logs : Option (List (ℤ × PartitionLog)) → List (ℤ × PartitionLog)
or_no_logs none = []
or_no_logs (some ps) = ps

abbrev pub logs_of : Str → List (Str × List (ℤ × PartitionLog)) → List (ℤ × PartitionLog)
logs_of topic logs = or_no_logs (get topic logs)

-- `partitions[partition] = log`
unfoldable pub put_log : {M S : Type 0} → Str → ℤ → PartitionLog → Handler M S → Handler M S
put_log topic partition l h = record h {
  logs = put topic (put partition l (logs_of topic h.logs)) h.logs;
}

unfoldable pub find_log : {M S : Type 0} → Str → ℤ → Handler M S → Option PartitionLog
find_log topic partition h = get partition (logs_of topic h.logs)

-- `h.s3Health.State()`, which brings the monitor up to date.
unfoldable pub check_health : {M S : Type 0} → ℕ → Handler M S → Handler M S × S3HealthState
check_health now h =
    let monitor = refresh now h.world.s3.monitor in
    (
      record h { world = record h.world { s3 = record h.world.s3 { monitor = monitor } } },
      monitor.state,
    )

-- A round of the loop of getPartitionLog; `retry` is its `continue`.
pub data Round : Type 0 where
  found : PartitionLog → Round
  retry : Round
  no_store : StoreError → Round
  no_restore : Error → Round

abbrev pub after_round :
    {M S : Type 0}
    → Handler M S × Round
    → Option (Handler M S × Round)
    → Option (Handler M S × Round)
after_round (h, retry) again = again
after_round (h, found l) again = some (h, found l)
after_round (h, no_store e) again = some (h, no_store e)
after_round (h, no_restore e) again = some (h, no_restore e)

module _ {M S : Type 0} (b : Broker M S) where
  abbrev pub desired_partitions : ℤ → ℤ
  desired_partitions partition =
      let least = wrap32 (partition +ℤ pos 1) in
      if ltb_ℤ b.auto_create_partitions least then least else b.auto_create_partitions

  unfoldable pub ensure_topic : Str → ℤ → M → M × Result StoreError (Unit {0})
  ensure_topic topic partition m =
      let (m', created) =
        b.api.create_topic
          (record {
            name = topic;
            num_partitions = desired_partitions partition;
            replication_factor = pos 1;
          })
          m in
      (m', elim created [ ok t ↦ ok tt | err e ↦ if is_topic_exists e then ok tt else err e ])

  -- What NextOffset failed with: the topic is created if it is unknown and may be.
  unfoldable pub create_missing : Str → ℤ → StoreError → Handler M S → Handler M S × Round
  create_missing topic partition e h =
      let (m, ensured) = ensure_topic topic partition h.store in
      if is_unknown_topic e && b.auto_create_topics
      then (record h { store = m }, elim ensured [ ok _ ↦ retry | err f ↦ no_store f ])
      else (h, no_store e)

  -- A new log, restored from the object store, and the store's offset brought up to it.
  unfoldable pub open_log : ℕ → Str → ℤ → ℤ → Handler M S → Handler M S × Round
  open_log now topic partition next h =
      let fresh = new_partition_log b.s3_namespace topic partition next b.log_config now in
      let (s, l, restored) = restore_from_s3 (observe now b.latency b.s3) fresh h.world.s3 in
      let h' = record h { world = record h.world { s3 = s } } in
      elim restored [
        | err e ↦ (h', no_restore e)
        | ok last ↦
            let m = (b.api.update_offsets topic partition last h.store).0 in
            (
              put_log topic partition l (if leb_ℤ next last then record h' { store = m } else h'),
              found l,
            )
      ]

  unfoldable pub try_partition_log : ℕ → Str → ℤ → Handler M S → Handler M S × Round
  try_partition_log now topic partition h =
      let h0 = record h { logs = put topic (logs_of topic h.logs) h.logs } in
      let (m, next) = b.api.next_offset topic partition h.store in
      let h1 = record h0 { store = m } in
      elim (find_log topic partition h) [
        | some l ↦ (h0, found l)
        | none ↦ elim next [
          | err e ↦ create_missing topic partition e h1
          | ok n ↦ open_log now topic partition n h1
        ]
      ]

  -- The loop, `none` if it is still not done after so many rounds.
  unfoldable pub get_partition_log : ℕ → ℕ → Str → ℤ → Handler M S → Option (Handler M S × Round)
  get_partition_log zero now topic partition h = none
  get_partition_log (suc rounds) now topic partition h =
      let tried = try_partition_log now topic partition h in
      after_round tried (get_partition_log rounds now topic partition tried.0)
