-- ===== src/Protocol/Request/Header.antt =====
-- Request headers of pkg/protocol/request.go, and the fields that flexible versions write otherwise.
use kafscale.Base.{ℕ, Bool, false, List, Option, none, some, ◌==◌, if◌then◌else◌}
use kafscale.Base.Int.{ℤ, pos, negsuc, leb_ℤ, ltb_ℤ, pos_part}
use kafscale.Base.Bytes.{Bytes}
use kafscale.Base.Maps.{Str}
use kafscale.Protocol.Reader.{
  Reader, ◌>>=◌, ◌>>◌, done, fail_when, either, invalid_count, read_int16, read_int32, read_string,
  read_nullable_string, read_bytes, read_compact_string, read_compact_nullable_string,
  read_compact_bytes, read_compact_array_len, compact_array_len_non_null, skip_tagged_fields,
  make_room, repeat, present,
}

-- The API keys of pkg/protocol/api.go
pub data Api : Type 0 where
  produce fetch list_offsets metadata offset_commit offset_fetch find_coordinator : Api
  join_group heartbeat leave_group sync_group describe_groups list_groups : Api
  api_versions create_topics delete_topics offset_for_leader_epoch : Api
  describe_configs alter_configs create_partitions delete_groups : Api

abbrev low_key : ℕ → Option Api
low_key k =
    if k == 0
    then some produce
    else if k == 1
    then some fetch
    else if k == 2
    then some list_offsets
    else if k == 3
    then some metadata
    else if k == 8
    then some offset_commit
    else if k == 9
    then some offset_fetch
    else if k == 10
    then some find_coordinator
    else if k == 11
    then some join_group
    else if k == 12
    then some heartbeat
    else if k == 13
    then some leave_group
    else if k == 14
    then some sync_group
    else none

abbrev high_key : ℕ → Option Api
high_key k =
    if k == 15
    then some describe_groups
    else if k == 16
    then some list_groups
    else if k == 18
    then some api_versions
    else if k == 19
    then some create_topics
    else if k == 20
    then some delete_topics
    else if k == 23
    then some offset_for_leader_epoch
    else if k == 32
    then some describe_configs
    else if k == 33
    then some alter_configs
    else if k == 37
    then some create_partitions
    else if k == 42
    then some delete_groups
    else none

unfoldable pub api_of : ℤ → Option Api
api_of (pos k) = elim (low_key k) [ some a ↦ some a | none ↦ high_key k ]
api_of (negsuc k) = none

abbrev pub from_version : ℕ → ℤ → Bool
from_version k version = leb_ℤ (pos k) version

unfoldable pub is_flexible : Api → ℤ → Bool
is_flexible api_versions v = from_version 3 v
is_flexible produce v = from_version 9 v
is_flexible metadata v = from_version 9 v
is_flexible fetch v = from_version 12 v
is_flexible find_coordinator v = from_version 3 v
is_flexible sync_group v = from_version 4 v
is_flexible heartbeat v = from_version 4 v
is_flexible list_groups v = from_version 3 v
is_flexible describe_groups v = from_version 5 v
is_flexible offset_for_leader_epoch v = from_version 4 v
is_flexible describe_configs v = from_version 4 v
is_flexible alter_configs v = from_version 2 v
is_flexible create_partitions v = from_version 2 v
is_flexible delete_groups v = from_version 2 v
is_flexible _ v = false

-- isFlexibleRequest; a key that is no API's is not flexible.
unfoldable pub is_flexible_request : ℤ → ℤ → Bool
is_flexible_request key version = elim (api_of key) [
  | none ↦ false
  | some a ↦ is_flexible a version
]

abbrev pub string_of : Bool → Reader Str
string_of flexible = either flexible read_compact_string read_string

abbrev pub nullable_of : Bool → Reader (Option Str)
nullable_of flexible = either flexible read_compact_nullable_string read_nullable_string

-- `none` is a nil slice, which only a flexible version can send.
abbrev pub bytes_of : Bool → Reader (Option Bytes)
bytes_of flexible = either flexible read_compact_bytes (present read_bytes)

-- A count that may not be negative
abbrev pub count_of : Bool → Reader ℤ
count_of flexible =
    either flexible compact_array_len_non_null
      (do n ← read_int32; fail_when (ltb_ℤ n (pos 0)) invalid_count; done n)

-- A count that is negative for null
abbrev pub nullable_count_of : Bool → Reader ℤ
nullable_count_of flexible = either flexible read_compact_array_len read_int32

abbrev pub tags : Bool → Reader (Unit {0})
tags flexible = either flexible skip_tagged_fields (done tt)

-- `xs := make([]T, 0, n)`, and the loop that fills it.
abbrev pub list_of : {A : Type 0} → ℤ → Reader A → Reader (List A)
list_of n r = do make_room n; repeat (pos_part n) r

pub record RequestHeader : Type 0 where
  pub api_key : ℤ  -- int16
  pub api_version : ℤ  -- int16
  pub correlation_id : ℤ  -- int32
  pub client_id : Option Str

unfoldable pub parse_request_header : Reader RequestHeader
parse_request_header = do
  key ← read_int16
  version ← read_int16
  correlation ← read_int32
  client ← read_nullable_string
  tags (is_flexible_request key version)
  done (record {
    api_key = key;
    api_version = version;
    correlation_id = correlation;
    client_id = client;
  })
