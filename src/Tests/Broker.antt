-- ===== src/Tests/Broker.antt =====
-- Runs of the request handlers of cmd/broker/main.go.
use kafscale.Base.{
  ◌≢◌, ℕ, ◌≡◌, refl, true, false, [], ◌∷◌, Option, none, some, Result, ok, arith, inl, inr, List,
}
use kafscale.Base.Bytes.{be64, be16, be32, slice}
use kafscale.Base.Decimal.{decimal20, decimal}
use kafscale.Base.Int.{ℤ, pos, negsuc, ltb_ℤ, wrap32, ◌+ℤ◌, bits32, wrap64, ◌-ℤ◌}
use kafscale.Base.Maps.{get, put}
use kafscale.Base.Text.{text}
use kafscale.Storage.Buffer.{new_write_buffer, append, should_flush, drain}
use kafscale.Storage.Index.{maybe_add, new_index_builder}
use kafscale.Storage.Log.{
  new_partition_log, segment_prefix, flush, append_batch, buffer_batch, flush_locked,
  upload_artifact, add_segment, PartitionLog, segment_key, cache_segment, start_prefetch,
}
use kafscale.Storage.Log.Restore.Recorded.{Recorded}
use kafscale.Storage.Types.{RecordBatch}
use kafscale.Storage.Log.Reads.{
  cached, find_segment, read_log, read_remote, read_segment, segment_range_for_offset,
}
use kafscale.Storage.Lookup.{compute_segment_range, find_index_entry, range_from}
use kafscale.Storage.RecordBatch.{patch_base_offset}
use kafscale.Storage.S3.{MemoryS3, memory_s3, cut}
use kafscale.Storage.Segment.{
  build_segment, add_batches, add_batch, start, last_batch, artifact, build_footer, build_header,
}
use kafscale.Group.Coordinator.{heartbeat, load_group}
use kafscale.Health.{refresh, recompute, set_state, judge, truncate, drop_old, record_operation}
use kafscale.Metadata.Memory.{new_partitions}
use kafscale.Metadata.Memory.Groups.{fetch_consumer_group, memory_store}
use kafscale.Metadata.Memory.Offsets.{
  topic_has_partition, next_offset, partition_key, update_offsets,
}
use kafscale.Metadata.Types.{InMemoryStore}
use kafscale.Protocol.Output.{join, supported}
use kafscale.Protocol.Reader.{read_int32}
use kafscale.Protocol.Request.{Request, heartbeat_request}
use kafscale.Protocol.Request.Data.{ProduceRequest, FetchPartition}
use kafscale.Protocol.Request.Header.{RequestHeader}
use kafscale.Protocol.Request.Topics.{CreateTopicConfig, CreateTopicsRequest}
use kafscale.Protocol.Response.Data.{FetchPartitionResponse}
use kafscale.Protocol.Response.Groups.{encode_heartbeat}
use kafscale.Protocol.Writer.{
  bits16, put_uvarint, write_int16, write_int32, write_tagged_fields, write_uvarint,
}
use kafscale.Broker.Answers.{handle-correlation}
use kafscale.Broker.Durable.{on_memory, acknowledged_survives}
use kafscale.Broker.Fetch.{fetch_partition, read_answer, fetch_from, read_waited, read_at}
use kafscale.Broker.Handle.{
  handle, handle_request, ask_coordinator, handle_group, encode_answer, response_version,
}
use kafscale.Broker.Logs.{
  found, open_log, get_partition_log, Round, find_log, put_log, check_health, try_partition_log,
}
use kafscale.Broker.Memory.{memory_metadata, with_memory}
use kafscale.Broker.Opening.{get_partition_log_spins, get_partition_log_ends}
use kafscale.Broker.Produce.{append_to_log, finish_append, on_flush, handle_produce}
use kafscale.Broker.Refusals.{handle_produce-refuses, SameData, refused_topics}
use kafscale.Broker.Topics.{handle_create_topics}
use kafscale.Broker.Types.{
  Broker, Handler, observe, backpressure_error_code, HandlerError, wire_code,
}
use kafscale.Broker.Validation.{handle_create_topics_validates}
use kafscale.Broker.Wait.{Fetching, timer, wait_for_fetch_data, ask_next}
use kafscale.Broker.Waiting.{wait_for_fetch_data-Ends, fetch_partition_below, Ends}
use kafscale.Tests.Health.{failing}
use kafscale.Tests.Metadata.{hash, store}
use kafscale.Tests.Restore.{turned, batch, config, new_log, new_log-Inv, new_log-Mirrors, few, room}

abbrev pub broker : Broker InMemoryStore MemoryS3
broker = record {
  api = memory_metadata hash [];
  s3 = memory_s3;
  latency = λ s. 20;
  api_versions = [];
  broker_info = record { node_id = pos 1; host = text "broker"; port = pos 9092; rack = none };
  auto_create_topics = true;
  auto_create_partitions = pos 1;
  allow_admin_apis = true;
  flush_on_ack = true;
  s3_namespace = 110 ∷ [];
  log_config = config;
  cache_size = pos 0;
  read_ahead = pos 0;
  segment_bytes = pos 1024;
  flush_interval = 0;
  s3_bucket = [];
  s3_region = [];
  s3_endpoint = [];
}

-- No object yet, and a monitor that knows of a failure.
abbrev pub handler : Handler InMemoryStore MemoryS3
handler = record {
  groups = [];
  store = store;
  world = record {
    s3 = record {
      objects = record { objects = []; index = []; visit = turned };
      monitor = failing;
    };
    cache = none;
    prefetches = [];
  };
  logs = [];
}

abbrev acknowledged : Handler InMemoryStore MemoryS3
acknowledged = (append_to_log (on_memory broker) 5 true (116 ∷ []) (pos 0) new_log batch handler).0

no_error :
    (append_to_log (on_memory broker) 5 true (116 ∷ []) (pos 0) new_log batch handler).1.error_code
    ≡ pos 0
unfolding append_to_log finish_append flush observe new_partition_log new_write_buffer append_batch
    buffer_batch patch_base_offset append should_flush flush_locked drain build_segment add_batches
    add_batch start maybe_add new_index_builder last_batch upload_artifact memory_s3 be64
    add_segment
no_error = refl

same_names :
    segment_prefix (new_partition_log (110 ∷ []) (116 ∷ []) (pos 0) (pos 0) config 9)
    ≡ segment_prefix new_log
unfolding new_partition_log segment_prefix
same_names = refl

abbrev base : ℤ
base =
    (append_to_log (on_memory broker) 5 true (116 ∷ []) (pos 0) new_log batch handler).1.base_offset

acknowledged_survives_example :
    (l' : PartitionLog) × (written : RecordBatch) × ((open_log
        (on_memory broker)
        9
        (116 ∷ [])
        (pos 0)
        (pos 0)
        acknowledged).1
      ≡ found l')
    × (patch_base_offset batch base ≡ ok written)
    × Recorded l' acknowledged.world.s3.objects base written.bytes
unfolding new_partition_log new_write_buffer
acknowledged_survives_example =
    acknowledged_survives broker 5 (116 ∷ []) (pos 0) new_log batch handler 1 broker acknowledged 9
      (pos 0) refl new_log-Inv refl room few new_log-Mirrors no_error refl same_names

abbrev orders : List ℕ
orders = text "orders"

abbrev produce : ProduceRequest
produce = record {
  acks = pos 1;
  timeout_ms = pos 0;
  transactional_id = none;
  topics =
      record { name = orders; partitions = record { partition = pos 0; records = none } ∷ [] } ∷ [];
}

handle_produce-refuses_example :
    (h' : Handler InMemoryStore MemoryS3) × (handle_produce broker 2 20 (pos 7) produce handler
      ≡ some (
        h',
        some (record {
          correlation_id = pos 7;
          topics = refused_topics (negsuc 0) produce.topics;
          throttle_ms = pos 0;
        }),
      ))
    × SameData handler h'
unfolding refresh backpressure_error_code memory_metadata recompute set_state judge truncate
    drop_old
handle_produce-refuses_example = handle_produce-refuses broker 2 20 (pos 7) produce handler refl

get_partition_log_spins_example :
    get_partition_log (with_memory hash [] broker) 9 20 orders (pos 7) handler ≡ none
unfolding find_log wrap32 ◌+ℤ◌ topic_has_partition new_partitions get
get_partition_log_spins_example =
    get_partition_log_spins hash [] broker 20 orders (pos 7) 9 handler refl refl refl refl refl refl

get_partition_log_ends_example :
    (out : Handler InMemoryStore MemoryS3 × Round) × (get_partition_log
        (with_memory hash [] broker)
        2
        20
        orders
        (pos 1)
        handler
      ≡ some out)
unfolding topic_has_partition new_partitions
get_partition_log_ends_example =
    get_partition_log_ends hash [] broker 20 orders (pos 1) 0 1 handler refl (omega arith)
      (inl refl)

-- At the end of the partition, with two sleeps ahead
abbrev waiting : Fetching InMemoryStore MemoryS3
waiting = record { now = 9; handler = handler; wakes = timer 19 handler ∷ timer 24 handler ∷ [] }

wait_for_fetch_data-Ends_example :
    Ends (pos 0) 24 (wait_for_fetch_data broker orders (pos 0) (pos 0) 15 waiting)
wait_for_fetch_data-Ends_example =
    wait_for_fetch_data-Ends broker orders (pos 0) (pos 0) 15 waiting (inr (inr refl))

abbrev new_orders : CreateTopicConfig
new_orders = record { name = orders; num_partitions = pos 2; replication_factor = pos 1 }

abbrev creation : CreateTopicsRequest
creation = record {
  topics = new_orders ∷ record new_orders { name = text "payments" } ∷ [];
  timeout_ms = pos 0;
  validate_only = true;
}

handle_create_topics_validates_example :
    ((handle_create_topics (with_memory hash [] broker) (pos 7) (pos 2) creation handler).1
      ≡ (handle_create_topics
          (with_memory hash [] broker)
          (pos 7)
          (pos 2)
          (record creation { validate_only = false })
          handler).1)
    × ((handle_create_topics (with_memory hash [] broker) (pos 7) (pos 2) creation handler).0
        ≡ handler)
handle_create_topics_validates_example =
    handle_create_topics_validates hash [] broker (pos 7) (pos 2) creation handler
      ((refl, tt), (tt, tt))

abbrev header : RequestHeader
header = record { api_key = pos 12; api_version = pos 4; correlation_id = pos 7; client_id = none }

abbrev beat : Request
beat = heartbeat_request (record {
  group_id = text "g";
  generation_id = pos 1;
  member_id = text "m";
  instance_id = none;
})

abbrev sent : Option (Handler InMemoryStore MemoryS3 × Result HandlerError (Option (List ℕ)))
sent = handle broker 2 20 [] (pos 0) header beat handler

abbrev stored_orders : Handler InMemoryStore MemoryS3
stored_orders = (append_to_log (on_memory broker) 5 true orders (pos 0) new_log batch handler).0

abbrev from_start : FetchPartition
from_start = record { partition = pos 0; fetch_offset = pos 0; max_bytes = pos 1000 }

abbrev reading : Fetching InMemoryStore MemoryS3
reading = record { now = 500; handler = stored_orders; wakes = [] }

abbrev orders_read : Option (Fetching InMemoryStore MemoryS3 × FetchPartitionResponse)
orders_read = fetch_partition (on_memory broker) 2 orders 0 from_start reading

abbrev after_read :
    Option (Fetching InMemoryStore MemoryS3 × FetchPartitionResponse)
    → Fetching InMemoryStore MemoryS3
after_read none = reading
after_read (some (f, r)) = f

abbrev eight_bytes : FetchPartitionResponse
eight_bytes = read_answer (pos 0) (pos 0) (pos 2) (0 ∷ 0 ∷ 0 ∷ 0 ∷ 0 ∷ 0 ∷ 0 ∷ 0 ∷ [])

orders_read_is : orders_read ≡ some (after_read orders_read, eight_bytes)
unfolding fetch_partition check_health refresh recompute set_state judge truncate drop_old
    append_to_log append_batch buffer_batch patch_base_offset should_flush append new_partition_log
    new_write_buffer be64 flush_locked drain build_segment add_batches add_batch upload_artifact
    observe memory_s3 finish_append flush add_segment on_flush wrap64 ◌-ℤ◌ ◌+ℤ◌ put_log
    start_prefetch cache_segment record_operation get_partition_log try_partition_log find_log put
    fetch_from wait_for_fetch_data ask_next next_offset topic_has_partition update_offsets
    new_partitions partition_key decimal read_waited read_at read_log find_segment artifact
    last_batch read_segment cached read_remote segment_range_for_offset build_header build_footer
    maybe_add new_index_builder compute_segment_range find_index_entry range_from wrap32 segment_key
    memory_metadata get segment_prefix be32 bits32 be16 decimal20 cut slice
orders_read_is = refl

abbrev after :
    Option (Handler InMemoryStore MemoryS3 × Result HandlerError (Option (List ℕ)))
    → Handler InMemoryStore MemoryS3
after none = handler
after (some (h, r)) = h

sent_is : sent ≡ some (after sent, ok (some (0 ∷ 0 ∷ 0 ∷ 7 ∷ 0 ∷ 0 ∷ 0 ∷ 0 ∷ 0 ∷ 0 ∷ 25 ∷ 0 ∷ [])))
unfolding handle handle_request ask_coordinator handle_group heartbeat encode_answer memory_metadata
    encode_heartbeat supported response_version join write_int32 be32 bits32 write_tagged_fields
    write_uvarint put_uvarint write_int16 be16 bits16 wire_code load_group get memory_store
    fetch_consumer_group
sent_is = refl

not_empty : eight_bytes.record_set ≢ []
not_empty e = cc

fetch_partition_below_example : (ltb_ℤ (pos 0) (pos 2) ≡ true) × (pos 0 ≡ pos 0)
fetch_partition_below_example =
    fetch_partition_below (on_memory broker) 2 orders 0 from_start reading (after_read orders_read)
      eight_bytes orders_read_is not_empty

handle-correlation_example :
    (rest : List ℕ) × (read_int32 (0 ∷ 0 ∷ 0 ∷ 7 ∷ 0 ∷ 0 ∷ 0 ∷ 0 ∷ 0 ∷ 0 ∷ 25 ∷ 0 ∷ [])
      ≡ ok (pos 7, rest))
handle-correlation_example =
    handle-correlation broker 2 20 [] (pos 0) header beat handler (after sent)
      (0 ∷ 0 ∷ 0 ∷ 7 ∷ 0 ∷ 0 ∷ 0 ∷ 0 ∷ 0 ∷ 0 ∷ 25 ∷ 0 ∷ []) (omega arith, omega arith) sent_is
