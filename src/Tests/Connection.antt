-- ===== src/Tests/Connection.antt =====
-- A run of a connection of pkg/broker/server.go.
use kafscale.Base.{length, ℕ, ◌≡◌, refl, [], ◌∷◌, Option, none, some, ok, arith, List}
use kafscale.Base.Bytes.{be16, be32, All, IsByte, uint}
use kafscale.Base.Int.{pos, bits32, signed32, signed64}
use kafscale.Base.Maps.{get}
use kafscale.Storage.S3.{MemoryS3}
use kafscale.Group.Coordinator.{heartbeat, load_group}
use kafscale.Metadata.Memory.Groups.{fetch_consumer_group, memory_store}
use kafscale.Metadata.Types.{InMemoryStore}
use kafscale.Protocol.Frame.{read_frames, read_frame, write_frame}
use kafscale.Protocol.Output.{join, supported}
use kafscale.Protocol.Reader.{
  read_int32, insufficient_bytes, compact_length, read, read_compact_nullable_string,
  read_compact_string, read_int16, read_nullable_string, read_uvarint, skip_tag, skip_tagged_fields,
  skip_tags, uvarint,
}
use kafscale.Protocol.Request.{parse_request, read_body}
use kafscale.Protocol.Request.Groups.{read_heartbeat}
use kafscale.Protocol.Request.Header.{
  api_of, is_flexible, is_flexible_request, parse_request_header,
}
use kafscale.Protocol.Response.Groups.{encode_heartbeat}
use kafscale.Protocol.Writer.{
  bits16, put_uvarint, write_int16, write_int32, write_tagged_fields, write_uvarint,
}
use kafscale.Broker.Connection.{connection_answers, InOrder, asked}
use kafscale.Broker.Handle.{
  handle, handle_request, ask_coordinator, handle_group, encode_answer, response_version,
}
use kafscale.Broker.Memory.{memory_metadata}
use kafscale.Broker.Server.{Served, Serving, no_frame, broker_handler, handle_connection}
use kafscale.Broker.Types.{wire_code}
use kafscale.Tests.Broker.{broker, handler}

-- A heartbeat in version 4, in its frame
abbrev sent_bytes : List ℕ
sent_bytes =
    0 ∷ 0 ∷ 0 ∷ 21 ∷ 0 ∷ 12 ∷ 0 ∷ 4 ∷ 0 ∷ 0 ∷ 0 ∷ 7 ∷ 255 ∷ 255 ∷ 0 ∷ 2 ∷ 103 ∷ 0 ∷ 0 ∷ 0 ∷ 1 ∷ 2
    ∷ 109 ∷ 0 ∷ 0 ∷ []

abbrev serving : Serving InMemoryStore MemoryS3
serving = record {
  handler = handler;
  turns = record { now = 20; random = pos 0; wakes = []; others = λ h. h } ∷ [];
}

abbrev connection : Option (Served (Serving InMemoryStore MemoryS3))
connection = handle_connection (broker_handler broker 2) 2 serving sent_bytes

abbrev reply : List ℕ
reply = 0 ∷ 0 ∷ 0 ∷ 12 ∷ 0 ∷ 0 ∷ 0 ∷ 7 ∷ 0 ∷ 0 ∷ 0 ∷ 0 ∷ 0 ∷ 0 ∷ 25 ∷ 0 ∷ []

abbrev after_connection :
    Option (Served (Serving InMemoryStore MemoryS3)) → Serving InMemoryStore MemoryS3
after_connection none = serving
after_connection (some (s, written, ending)) = s

sent_bytes-IsByte : All IsByte sent_bytes
sent_bytes-IsByte = omega arith

connection_is : connection ≡ some (after_connection connection, reply, no_frame insufficient_bytes)
unfolding handle handle_request ask_coordinator handle_group heartbeat encode_answer memory_metadata
    encode_heartbeat supported response_version join write_int32 be32 bits32 write_tagged_fields
    write_uvarint put_uvarint write_int16 be16 bits16 wire_code load_group get memory_store
    fetch_consumer_group handle_connection read_frame write_frame broker_handler read_int32 read
    signed32 uint parse_request parse_request_header read_int16 read_nullable_string
    is_flexible_request api_of is_flexible skip_tagged_fields read_uvarint uvarint skip_tags
    skip_tag signed64 read_body read_heartbeat read_compact_string compact_length
    read_compact_nullable_string
connection_is = refl

connection_answers_example :
    (ps : List (List ℕ)) × (read_frames (length ps) reply ≡ ok (ps, []))
    × InOrder (asked 2 sent_bytes) ps
connection_answers_example =
    connection_answers broker 2 2 serving (after_connection connection) sent_bytes reply
      (no_frame insufficient_bytes) sent_bytes-IsByte connection_is
