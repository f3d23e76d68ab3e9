-- ===== src/Broker/Produce.antt =====
-- handleProduce of cmd/broker/main.go. Rates, latencies and traces are left out.
use kafscale.Base.{
  ℕ, ◌/◌, Bool, true, false, ◌&&◌, not, List, [], ◌∷◌, Option, none, some, ok, err, if◌then◌else◌,
}
use kafscale.Base.Int.{ℤ, pos, eqb_ℤ}
use kafscale.Base.Bytes.{Bytes}
use kafscale.Base.Maps.{Str}
use kafscale.Health.{S3HealthState, healthy, degraded, unavailable}
use kafscale.Storage.Types.{RecordBatch, SegmentArtifact}
use kafscale.Storage.RecordBatch.{new_record_batch}
use kafscale.Storage.Log.{
  PartitionLog, AppendResult, append_batch, Flushed, segment, up_to, nothing, flush,
}
use kafscale.Protocol.Request.Data.{ProduceRequest, ProduceTopic, ProducePartition}
use kafscale.Protocol.Response.Data.{
  ProducePartitionResponse, ProduceTopicResponse, ProduceResponse,
}
use kafscale.Broker.Types.{
  Broker, Handler, observe, request_timed_out, unknown_server_error_code, no_error_code,
  backpressure_error_code,
}
use kafscale.Broker.Logs.{put_log, check_health, Round, found, get_partition_log}

abbrev pub is_healthy : S3HealthState → Bool
is_healthy healthy = true
is_healthy degraded = false
is_healthy unavailable = false

abbrev bytes_of : Option Bytes → Bytes
bytes_of none = []
bytes_of (some bs) = bs

-- The answer for a partition whose batch was not accepted.
abbrev pub refused : ℤ → ℤ → ProducePartitionResponse
refused partition code = record {
  partition = partition;
  error_code = code;
  base_offset = pos 0;
  log_append_time_ms = pos 0;
  log_start_offset = pos 0;
}

abbrev accepted : ℤ → ℤ → ℕ → ProducePartitionResponse
accepted partition base now = record {
  partition = partition;
  error_code = no_error_code;
  base_offset = base;
  log_append_time_ms = pos (now / 1000000);
  log_start_offset = pos 0;
}

-- The last offset that the onFlush callback hears of.
abbrev pub flushed_to : Flushed → Option ℤ
flushed_to (segment a) = some a.last_offset
flushed_to (up_to last) = some last
flushed_to nothing = none

abbrev pub artifact_to : Option SegmentArtifact → Option ℤ
artifact_to none = none
artifact_to (some a) = some a.last_offset

module _ {M S : Type 0} (b : Broker M S) where
  -- The callback given to NewPartitionLog: an error of the store is only logged.
  unfoldable pub on_flush : Str → ℤ → Option ℤ → Handler M S → Handler M S
  on_flush topic partition none h = h
  on_flush topic partition (some last) h = record h {
    store = (b.api.update_offsets topic partition last h.store).0;
  }

  -- An error of the object store is answered by its health after it.
  unfoldable pub refuse_by_health : ℕ → ℤ → Handler M S → Handler M S × ProducePartitionResponse
  refuse_by_health now partition h =
      let (h', state) = check_health now h in
      (h', refused partition (backpressure_error_code state))

  -- `if req.Acks != 0 && h.flushOnAck { plog.Flush(ctx) }`, and the answer.
  unfoldable pub finish_append :
      ℕ
      → Bool
      → Str
      → ℤ
      → PartitionLog
      → AppendResult
      → Handler M S
      → Handler M S × ProducePartitionResponse
  finish_append now acks topic partition l result h =
      let (l', w, flushed) = flush (observe now b.latency b.s3) now l h.world in
      let h' = put_log topic partition l' (record h { world = w }) in
      if acks && b.flush_on_ack
      then (elim flushed [
        | err e ↦ refuse_by_health now partition h'
        | ok f ↦
            (on_flush topic partition (flushed_to f) h', accepted partition result.base_offset now)
      ])
      else (h, accepted partition result.base_offset now)

  unfoldable pub append_to_log :
      ℕ
      → Bool
      → Str
      → ℤ
      → PartitionLog
      → RecordBatch
      → Handler M S
      → Handler M S × ProducePartitionResponse
  append_to_log now acks topic partition l batch h =
      let (l', w, appended) = append_batch (observe now b.latency b.s3) now l batch h.world in
      let h' = put_log topic partition l' (record h { world = w }) in
      elim appended [
        | err e ↦ refuse_by_health now partition h'
        | ok (result, artifact) ↦
            finish_append now acks topic partition l' result
              (on_flush topic partition (artifact_to artifact) h')
      ]

  -- What follows getPartitionLog. It does not come back with `retry`.
  unfoldable pub produce_to :
      ℕ
      → Bool
      → Str
      → ProducePartition
      → Round
      → Handler M S
      → Handler M S × ProducePartitionResponse
  produce_to now acks topic p (found l) h = elim (new_record_batch (bytes_of p.records)) [
    | err e ↦ (h, refused p.partition unknown_server_error_code)
    | ok batch ↦ append_to_log now acks topic p.partition l batch h
  ]
  produce_to now acks topic p _ h = (h, refused p.partition unknown_server_error_code)

  -- The body of the loop over the partitions; `none` if getPartitionLog is not done after so many
  -- rounds.
  unfoldable pub produce_partition :
      ℕ
      → ℕ
      → Bool
      → Str
      → ProducePartition
      → Handler M S
      → Option (Handler M S × ProducePartitionResponse)
  produce_partition rounds now acks topic p h =
      let (h', state) = check_health now h in
      let opened : Option (Handler M S × ProducePartitionResponse) =
        elim (get_partition_log b rounds now topic p.partition h') [
          | none ↦ none
          | some (h'', round) ↦ some (produce_to now acks topic p round h'')
        ] in
      if not (b.api.available h.store)
      then some (h, refused p.partition request_timed_out)
      else (if not (is_healthy state) then some (refuse_by_health now p.partition h') else opened)

  unfoldable pub produce_partitions :
      ℕ
      → ℕ
      → Bool
      → Str
      → List ProducePartition
      → Handler M S
      → Option (Handler M S × List ProducePartitionResponse)
  produce_partitions rounds now acks topic [] h = some (h, [])
  produce_partitions rounds now acks topic (p ∷ ps) h =
      elim (produce_partition rounds now acks topic p h) [
        | none ↦ none
        | some (h', r) ↦ elim (produce_partitions rounds now acks topic ps h') [
          | none ↦ none
          | some (h'', rs) ↦ some (h'', r ∷ rs)
        ]
      ]

  unfoldable pub produce_topics :
      ℕ
      → ℕ
      → Bool
      → List ProduceTopic
      → Handler M S
      → Option (Handler M S × List ProduceTopicResponse)
  produce_topics rounds now acks [] h = some (h, [])
  produce_topics rounds now acks (t ∷ ts) h =
      elim (produce_partitions rounds now acks t.name t.partitions h) [
        | none ↦ none
        | some (h', rs) ↦ elim (produce_topics rounds now acks ts h') [
          | none ↦ none
          | some (h'', topics) ↦ some (h'', record { name = t.name; partitions = rs } ∷ topics)
        ]
      ]

  -- No response is sent to a client that wants no acknowledgement.
  unfoldable pub handle_produce :
      ℕ → ℕ → ℤ → ProduceRequest → Handler M S → Option (Handler M S × Option ProduceResponse)
  handle_produce rounds now correlation req h =
      let acks = not (eqb_ℤ req.acks (pos 0)) in
      elim (produce_topics rounds now acks req.topics h) [
        | none ↦ none
        | some (h', topics) ↦ some (
          h',
          if acks
              then some
                  (record { correlation_id = correlation; topics = topics; throttle_ms = pos 0 })
              else none,
        )
      ]
