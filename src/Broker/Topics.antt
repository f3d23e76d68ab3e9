-- ===== src/Broker/Topics.antt =====
-- The handlers on topics in cmd/broker/main.go: CreateTopics and DeleteTopics.
use kafscale.Base.{Bool, ◌&&◌, ◌||◌, not, List, [], ◌∷◌, Result, ok, err, if◌then◌else◌, length}
use kafscale.Base.Int.{ℤ, pos, leb_ℤ, ltb_ℤ}
use kafscale.Base.Maps.{Str, str_eq}
use kafscale.Base.Text.{text}
use kafscale.Metadata.Types.{ClusterMetadata, topic_exists, invalid_topic, unknown_topic}
use kafscale.Metadata.Memory.{has_topic}
use kafscale.Protocol.Request.Topics.{CreateTopicConfig, CreateTopicsRequest, DeleteTopicsRequest}
use kafscale.Protocol.Response.Topics.{TopicResult, CreateTopicsResponse, DeleteTopicsResponse}
use kafscale.Broker.Types.{
  StoreError, known, Broker, Handler, HandlerError, unsupported_version, error_text, no_error_code,
  request_timed_out, topic_authorization_failed, topic_already_exists, invalid_topic_exception,
  unknown_server_error_code, unknown_topic_or_partition,
}

unfoldable pub create_code : StoreError → ℤ
create_code (known topic_exists) = topic_already_exists
create_code (known invalid_topic) = invalid_topic_exception
create_code _ = unknown_server_error_code

unfoldable pub delete_code : StoreError → ℤ
delete_code (known unknown_topic) = unknown_topic_or_partition
delete_code _ = unknown_server_error_code

-- The result for a topic, from the store's error.
abbrev pub result_of : {A : Type 0} → (StoreError → ℤ) → Str → Result StoreError A → TopicResult
result_of code name (ok a) = record { name = name; error_code = no_error_code; error_message = [] }
result_of code name (err e) = record {
  name = name;
  error_code = code e;
  error_message = error_text e;
}

abbrev without_value : {A : Type 0} → Result StoreError A → Result StoreError (Unit {0})
without_value (ok a) = ok tt
without_value (err e) = err e

abbrev pub all_refused : ℤ → Str → List Str → List TopicResult
all_refused code message [] = []
all_refused code message (name ∷ names) =
    record { name = name; error_code = code; error_message = message }
    ∷ all_refused code message names

abbrev topic_names : List CreateTopicConfig → List Str
topic_names [] = []
topic_names (t ∷ ts) = t.name ∷ topic_names ts

-- Versions 0 to 2 of CreateTopics and DeleteTopics are answered.
abbrev is_old : ℤ → Bool
is_old version = leb_ℤ (pos 0) version && leb_ℤ version (pos 2)

module _ {M S : Type 0} (b : Broker M S) where
  abbrev pub checked_create : CreateTopicConfig → ClusterMetadata → Result StoreError (Unit {0})
  checked_create t meta =
      let replication =
        if leb_ℤ t.replication_factor (pos 0) then pos 1 else t.replication_factor in
      if has_topic t.name meta.topics
      then err (known topic_exists)
      else (if ltb_ℤ (pos (length meta.brokers)) replication
          then err (known invalid_topic)
          else ok tt)

  unfoldable pub validate_create_topic : CreateTopicConfig → M → M × Result StoreError (Unit {0})
  validate_create_topic t m =
      let (m', loaded) = b.api.metadata [] m in
      if str_eq t.name [] || leb_ℤ t.num_partitions (pos 0)
      then (m, err (known invalid_topic))
      else (m', elim loaded [ err e ↦ err e | ok meta ↦ checked_create t meta ])

  unfoldable pub create_one : Bool → CreateTopicConfig → M → M × TopicResult
  create_one validate_only t m =
      let (m', checked) = validate_create_topic t m in
      let (m'', created) =
        b.api.create_topic
          (record {
            name = t.name;
            num_partitions = t.num_partitions;
            replication_factor = t.replication_factor;
          })
          m in
      if validate_only
      then (m', result_of create_code t.name checked)
      else (m'', result_of create_code t.name created)

  unfoldable pub create_all : Bool → List CreateTopicConfig → M → M × List TopicResult
  create_all validate_only [] m = (m, [])
  create_all validate_only (t ∷ ts) m =
      let (m', r) = create_one validate_only t m in
      let (m'', rs) = create_all validate_only ts m' in (m'', r ∷ rs)

  unfoldable pub handle_create_topics :
      ℤ
      → ℤ
      → CreateTopicsRequest
      → Handler M S
      → Handler M S × Result HandlerError CreateTopicsResponse
  handle_create_topics correlation version req h =
      let answer = λ (results : List TopicResult).
        let r : Result HandlerError CreateTopicsResponse =
          ok (record { correlation_id = correlation; throttle_ms = pos 0; topics = results }) in
        r in
      let (m, results) = create_all req.validate_only req.topics h.store in
      let names = topic_names req.topics in
      if not (is_old version)
      then (h, err unsupported_version)
      else (if not b.allow_admin_apis
          then (
            h,
            answer (all_refused topic_authorization_failed (text "admin APIs disabled") names),
          )
          else (if not (b.api.available h.store)
              then (h, answer (all_refused request_timed_out (text "etcd unavailable") names))
              else (record h { store = m }, answer results)))

  unfoldable pub delete_all : List Str → M → M × List TopicResult
  delete_all [] m = (m, [])
  delete_all (name ∷ names) m =
      let (m', deleted) = b.api.delete_topic name m in
      let (m'', rs) = delete_all names m' in (m'', result_of delete_code name deleted ∷ rs)

  -- The logs of a deleted topic stay in the map.
  unfoldable pub handle_delete_topics :
      ℤ
      → ℤ
      → DeleteTopicsRequest
      → Handler M S
      → Handler M S × Result HandlerError DeleteTopicsResponse
  handle_delete_topics correlation version req h =
      let answer = λ (results : List TopicResult).
        let r : Result HandlerError DeleteTopicsResponse =
          ok (record { correlation_id = correlation; throttle_ms = pos 0; topics = results }) in
        r in
      let (m, results) = delete_all req.topic_names h.store in
      let names = req.topic_names in
      if not (is_old version)
      then (h, err unsupported_version)
      else (if not b.allow_admin_apis
          then (
            h,
            answer (all_refused topic_authorization_failed (text "admin APIs disabled") names),
          )
          else (if not (b.api.available h.store)
              then (h, answer (all_refused request_timed_out (text "etcd unavailable") names))
              else (record h { store = m }, answer results)))
