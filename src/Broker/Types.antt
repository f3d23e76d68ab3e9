-- ===== src/Broker/Types.antt =====
-- The handler of cmd/broker/main.go: its settings, its state and what it calls.
use kafscale.Base.{ℕ, Bool, true, false, not, List, Option, none, some, Result}
use kafscale.Base.Int.{ℤ, pos, negsuc}
use kafscale.Base.Maps.{Str}
use kafscale.Base.Text.{text}
use kafscale.Health.{
  S3HealthMonitor, S3HealthState, healthy, degraded, unavailable, record_operation,
}
use kafscale.Group.Types.{
  GroupState, Store, ErrorCode, no_error, unknown_server_error, invalid_request, illegal_generation,
  unknown_member_id, rebalance_in_progress, group_id_not_found,
}
use kafscale.Metadata.Types.{
  MetadataBroker, MetadataTopic, ClusterMetadata, TopicSpec, TopicConfig, MetadataError,
  topic_exists, invalid_topic, unknown_topic, group_id_required,
}
use kafscale.Storage.S3.{S3Client, ByteRange}
use kafscale.Storage.Log.{PartitionLog, PartitionLogConfig, World}
use kafscale.Protocol.Response.Data.{ApiVersion}

-- The errors of the store: its own, that of a context that is done, and others by their text.
pub data StoreError : Type 0 where
  known : MetadataError → StoreError
  context_done : Str → StoreError
  failed : Str → StoreError

-- metadata.Store as the handlers use it; the coordinator gets `groups` of the same store. A store
-- that has no Available is always available.
pub record MetadataStore (M : Type 0) : Type 0 where
  pub available : M → Bool
  pub groups : Store M
  pub metadata : List Str → M → M × Result StoreError ClusterMetadata
  pub next_offset : Str → ℤ → M → M × Result StoreError ℤ
  pub update_offsets : Str → ℤ → ℤ → M → M × Result StoreError (Unit {0})
  pub create_topic : TopicSpec → M → M × Result StoreError MetadataTopic
  pub delete_topic : Str → M → M × Result StoreError (Unit {0})
  pub create_partitions : Str → ℤ → M → M × Result StoreError (Unit {0})
  pub fetch_topic_config : Str → M → M × Result StoreError TopicConfig
  pub update_topic_config : TopicConfig → M → M × Result StoreError (Unit {0})

-- The fields of the handler that do not change, and the three variables of the environment that
-- DescribeConfigs reads. `latency` is the time that the object store's next call takes.
pub record Broker (M S : Type 0) : Type 0 where
  pub api : MetadataStore M
  pub s3 : S3Client S
  pub latency : S → ℕ
  pub api_versions : List ApiVersion
  pub broker_info : MetadataBroker
  pub auto_create_topics : Bool
  pub auto_create_partitions : ℤ  -- int32
  pub allow_admin_apis : Bool
  pub flush_on_ack : Bool
  pub s3_namespace : Str
  pub log_config : PartitionLogConfig
  pub cache_size : ℤ
  pub read_ahead : ℤ
  pub segment_bytes : ℤ
  pub flush_interval : ℕ
  pub s3_bucket : Str
  pub s3_region : Str
  pub s3_endpoint : Str

-- The object store with the monitor that its calls are reported to.
pub record Observed (S : Type 0) : Type 0 where
  pub objects : S
  pub monitor : S3HealthMonitor

-- What the requests change. The lock of the logs is held while one is opened.
pub record Handler (M S : Type 0) : Type 0 where
  pub groups : List (Str × GroupState)
  pub store : M
  pub world : World (Observed S)
  pub logs : List (Str × List (ℤ × PartitionLog))

-- What a handler returns in place of a response.
pub data HandlerError : Type 0 where
  store_failed : StoreError → HandlerError
  unsupported_version encoding_failed group_failed : HandlerError

abbrev pub is_failure {ℓ} : {A : Type ℓ} → Option A → Bool
is_failure none = true
is_failure (some a) = false

abbrev range_op : Option ByteRange → Str
range_op none = text "download_segment"
range_op (some rng) = text "download_segment_range"

-- recordS3Op behind each call: the log reports every call but a listing, and calls a footer's
-- download by a name of its own, which nothing looks at.
module _ {S : Type 0} (now : ℕ) (latency : S → ℕ) where
  abbrev pub report : Str → Bool → S → Observed S → Observed S
  report op erred after o = record {
    objects = after;
    monitor = record_operation op (latency o.objects) erred now o.monitor;
  }

  unfoldable pub observe : S3Client S → S3Client (Observed S)
  observe s3 = record {
    upload_segment = λ key bs o.
        let (s, done) = s3.upload_segment key bs o.objects in
        (report (text "upload_segment") (not done) s o, done);
    upload_index = λ key bs o.
        let (s, done) = s3.upload_index key bs o.objects in
        (report (text "upload_index") (not done) s o, done);
    download_segment = λ key rng o.
        let (s, got) = s3.download_segment key rng o.objects in
        (report (range_op rng) (is_failure got) s o, got);
    download_index = λ key o.
        let (s, got) = s3.download_index key o.objects in
        (report (text "download_index") (is_failure got) s o, got);
    list_segments = λ prefix o.
        let (s, got) = s3.list_segments prefix o.objects in
        (record { objects = s; monitor = o.monitor }, got);
  }

-- The codes of pkg/protocol/errors.go, by name.
abbrev pub no_error_code : ℤ
no_error_code = pos 0

abbrev pub offset_out_of_range_code : ℤ
offset_out_of_range_code = pos 1

abbrev pub unknown_topic_or_partition : ℤ
unknown_topic_or_partition = pos 3

abbrev pub request_timed_out : ℤ
request_timed_out = pos 7

abbrev pub invalid_topic_exception : ℤ
invalid_topic_exception = pos 17

abbrev pub topic_authorization_failed : ℤ
topic_authorization_failed = pos 29

abbrev pub unsupported_version_code : ℤ
unsupported_version_code = pos 35

abbrev pub topic_already_exists : ℤ
topic_already_exists = pos 36

abbrev pub invalid_partitions : ℤ
invalid_partitions = pos 37

abbrev pub invalid_config : ℤ
invalid_config = pos 40

abbrev pub invalid_request_code : ℤ
invalid_request_code = pos 42

abbrev pub unknown_topic_id : ℤ
unknown_topic_id = pos 100

abbrev pub unknown_server_error_code : ℤ
unknown_server_error_code = negsuc 0

-- The number on the wire of a code of the coordinator.
unfoldable pub wire_code : ErrorCode → ℤ
wire_code no_error = pos 0
wire_code unknown_server_error = negsuc 0
wire_code invalid_request = pos 42
wire_code illegal_generation = pos 22
wire_code unknown_member_id = pos 25
wire_code rebalance_in_progress = pos 27
wire_code group_id_not_found = pos 69

-- `err.Error()`
unfoldable pub error_text : StoreError → Str
error_text (known topic_exists) = text "topic already exists"
error_text (known invalid_topic) = text "invalid topic configuration"
error_text (known unknown_topic) = text "unknown topic"
error_text (known group_id_required) = text "consumer group id required"
error_text (context_done t) = t
error_text (failed t) = t

abbrev pub is_unknown_topic : StoreError → Bool
is_unknown_topic (known unknown_topic) = true
is_unknown_topic _ = false

abbrev pub is_topic_exists : StoreError → Bool
is_topic_exists (known topic_exists) = true
is_topic_exists _ = false

unfoldable pub backpressure_error_code : S3HealthState → ℤ
backpressure_error_code degraded = request_timed_out
backpressure_error_code unavailable = unknown_server_error_code
backpressure_error_code healthy = unknown_server_error_code
