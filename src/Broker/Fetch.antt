-- ===== src/Broker/Fetch.antt =====
-- handleFetch of cmd/broker/main.go. Rates and traces are left out.
use kafscale.Base.{
  ℕ, ◌*◌, Bool, true, false, ◌&&◌, ◌||◌, not, List, [], ◌∷◌, Option, none, some, Result, ok, err,
  if◌then◌else◌, replicate,
}
use kafscale.Base.Int.{ℤ, pos, negsuc, eqb_ℤ, ltb_ℤ, pos_part}
use kafscale.Base.Bytes.{Bytes}
use kafscale.Base.Maps.{Str, str_Key, str_eq, get, put}
use kafscale.Metadata.Types.{MetadataTopic}
use kafscale.Storage.Types.{Error, offset_out_of_range}
use kafscale.Storage.Log.{PartitionLog}
use kafscale.Storage.Log.Reads.{read_log}
use kafscale.Protocol.Request.Data.{FetchRequest, FetchTopic, FetchPartition}
use kafscale.Protocol.Response.Data.{FetchPartitionResponse, FetchTopicResponse, FetchResponse}
use kafscale.Broker.Types.{
  StoreError, Broker, Handler, HandlerError, store_failed, unsupported_version, observe,
  request_timed_out, unknown_server_error_code, no_error_code, offset_out_of_range_code,
  unknown_topic_or_partition, unknown_topic_id, backpressure_error_code,
}
use kafscale.Broker.Logs.{find_log, check_health, Round, found, get_partition_log}
use kafscale.Broker.Produce.{is_healthy}
use kafscale.Broker.Wait.{Fetching, watermark_after, wait_for_fetch_data}

abbrev pub zero_id : Bytes
zero_id = replicate 16 0

abbrev id_of : Option Bytes → Bytes
id_of none = zero_id
id_of (some id) = id

-- The answer for a partition that is not read.
abbrev pub unread : ℤ → ℤ → FetchPartitionResponse
unread partition code = record {
  partition = partition;
  error_code = code;
  high_watermark = pos 0;
  last_stable_offset = pos 0;
  log_start_offset = pos 0;
  preferred_read_replica = pos 0;
  record_set = [];
  aborted_transactions = [];
}

abbrev pub read_answer : ℤ → ℤ → ℤ → Bytes → FetchPartitionResponse
read_answer partition code watermark bs = record {
  partition = partition;
  error_code = code;
  high_watermark = watermark;
  last_stable_offset = watermark;
  log_start_offset = pos 0;
  preferred_read_replica = negsuc 0;
  record_set = bs;
  aborted_transactions = [];
}

abbrev is_out_of_range : Error → Bool
is_out_of_range offset_out_of_range = true
is_out_of_range _ = false

module _ {M S : Type 0} (b : Broker M S) where
  -- The read at a known watermark. The log is the one of the map: logs are never removed from it.
  -- A panic of the read is answered as an error here, while the Go process would end.
  unfoldable pub read_at :
      ℕ → PartitionLog → FetchPartition → ℤ → Handler M S → Handler M S × FetchPartitionResponse
  read_at now l p watermark h =
      let (w, got) = read_log (observe now b.latency b.s3) l p.fetch_offset p.max_bytes h.world in
      let h' = record h { world = w } in
      let (h'', state) = check_health now h' in
      if ltb_ℤ watermark p.fetch_offset
      then (h, read_answer p.partition offset_out_of_range_code watermark [])
      else (if eqb_ℤ p.fetch_offset watermark
          then (h, read_answer p.partition no_error_code watermark [])
          else (elim got [
            | ok bs ↦ (h', read_answer p.partition no_error_code watermark bs)
            | err e ↦
                if is_out_of_range e
                then (h', read_answer p.partition offset_out_of_range_code watermark [])
                else (h'', read_answer p.partition (backpressure_error_code state) watermark [])
          ]))

  abbrev log_or : PartitionLog → Option PartitionLog → PartitionLog
  log_or l none = l
  log_or l (some l') = l'

  unfoldable pub read_waited :
      Str
      → PartitionLog
      → FetchPartition
      → Fetching M S × ℤ × Result StoreError (Unit {0})
      → Fetching M S × FetchPartitionResponse
  read_waited topic l p (f, next, failed) =
      let h = f.handler in
      elim (watermark_after (b.api.available h.store) p.fetch_offset next failed) [
        | none ↦ (f, unread p.partition unknown_topic_or_partition)
        | some watermark ↦
            let l' = log_or l (find_log topic p.partition h) in
            let (h', answer) = read_at f.now l' p watermark h in (record f { handler = h' }, answer)
      ]

  -- What follows getPartitionLog. It does not come back with `retry`.
  unfoldable pub fetch_from :
      Str
      → ℕ
      → FetchPartition
      → Round
      → Fetching M S
      → Option (Fetching M S × FetchPartitionResponse)
  fetch_from topic max_wait p (found l) f =
      elim (wait_for_fetch_data b topic p.partition p.fetch_offset max_wait f) [
        | none ↦ none
        | some waited ↦ some (read_waited topic l p waited)
      ]
  fetch_from topic max_wait p _ f =
      let code =
        if b.api.available f.handler.store then unknown_server_error_code else request_timed_out in
      some (f, unread p.partition code)

  -- The body of the loop over the partitions.
  unfoldable pub fetch_partition :
      ℕ → Str → ℕ → FetchPartition → Fetching M S → Option (Fetching M S × FetchPartitionResponse)
  fetch_partition rounds topic max_wait p f =
      let (h, state) = check_health f.now f.handler in
      let opened : Option (Fetching M S × FetchPartitionResponse) =
        elim (get_partition_log b rounds f.now topic p.partition h) [
          | none ↦ none
          | some (h', round) ↦ fetch_from topic max_wait p round (record f { handler = h' })
        ] in
      if is_healthy state
      then opened
      else some (record f { handler = h }, unread p.partition (backpressure_error_code state))

  unfoldable pub fetch_partitions :
      ℕ
      → Str
      → ℕ
      → List FetchPartition
      → Fetching M S
      → Option (Fetching M S × List FetchPartitionResponse)
  fetch_partitions rounds topic max_wait [] f = some (f, [])
  fetch_partitions rounds topic max_wait (p ∷ ps) f =
      elim (fetch_partition rounds topic max_wait p f) [
        | none ↦ none
        | some (f', r) ↦ elim (fetch_partitions rounds topic max_wait ps f') [
          | none ↦ none
          | some (f'', rs) ↦ some (f'', r ∷ rs)
        ]
      ]

  abbrev unknown_ids : List FetchPartition → List FetchPartitionResponse
  unknown_ids [] = []
  unknown_ids (p ∷ ps) = unread p.partition unknown_topic_id ∷ unknown_ids ps

  abbrev index_names : List MetadataTopic → List (Bytes × Str) → List (Bytes × Str)
  index_names [] m = m
  index_names (t ∷ ts) m = index_names ts (put t.topic_id t.name m)

  abbrev some_id : List FetchTopic → Bool
  some_id [] = false
  some_id (t ∷ ts) = not (str_eq (id_of t.topic_id) zero_id) || some_id ts

  -- The name of a topic of the request, `none` for an id that stands for no topic.
  unfoldable pub topic_name : List (Bytes × Str) → FetchTopic → Option Str
  topic_name names t =
      if str_eq t.name [] && not (str_eq (id_of t.topic_id) zero_id)
      then get (id_of t.topic_id) names
      else some t.name

  unfoldable pub fetch_topics :
      ℕ
      → ℕ
      → List (Bytes × Str)
      → List FetchTopic
      → Fetching M S
      → Option (Fetching M S × List FetchTopicResponse)
  fetch_topics rounds max_wait names [] f = some (f, [])
  fetch_topics rounds max_wait names (t ∷ ts) f =
      let answer = λ (name : Str) (rs : List FetchPartitionResponse).
        let r : FetchTopicResponse = record {
          name = name;
          topic_id = id_of t.topic_id;
          partitions = rs;
        } in
        r in
      let first : Option (Fetching M S × FetchTopicResponse) = elim (topic_name names t) [
        | none ↦ some (f, answer t.name (unknown_ids t.partitions))
        | some name ↦ elim (fetch_partitions rounds name max_wait t.partitions f) [
          | none ↦ none
          | some (f', rs) ↦ some (f', answer name rs)
        ]
      ] in
      elim first [
        | none ↦ none
        | some (f', r) ↦ elim (fetch_topics rounds max_wait names ts f') [
          | none ↦ none
          | some (f'', rs) ↦ some (f'', r ∷ rs)
        ]
      ]

  -- Versions 11 to 13 are answered. `none` if it is not done with the rounds and wakes given.
  unfoldable pub handle_fetch :
      ℕ
      → ℤ
      → ℤ
      → FetchRequest
      → Fetching M S
      → Option (Fetching M S × Result HandlerError FetchResponse)
  handle_fetch rounds correlation version req f =
      let max_wait = pos_part req.max_wait_ms * 1000000 in
      let (m, loaded) = b.api.metadata [] f.handler.store in
      let asked = some_id req.topics in
      let f' = if asked then record f { handler = record f.handler { store = m } } else f in
      let names : Result HandlerError (List (Bytes × Str)) =
        if asked
        then (elim loaded [
          | err e ↦ err (store_failed e)
          | ok meta ↦ ok (index_names meta.topics [])
        ])
        else ok [] in
      if ltb_ℤ version (pos 11) || ltb_ℤ (pos 13) version
      then some (f, err unsupported_version)
      else (elim names [
        | err e ↦ some (f', err e)
        | ok by_id ↦ elim (fetch_topics rounds max_wait by_id req.topics f') [
          | none ↦ none
          | some (f'', topics) ↦ some (
            f'',
            ok (record {
              correlation_id = correlation;
              throttle_ms = pos 0;
              error_code = no_error_code;
              session_id = pos 0;
              topics = topics;
            }),
          )
        ]
      ])
