-- ===== src/Group/Coordinator/Admin.antt =====
-- OffsetFetch, DescribeGroups, ListGroups and DeleteGroups of pkg/broker/coordinator.go. Case and white
-- space are those of ASCII text.
pub mod Deleted
use kafscale.Base.{
  ℕ, ◌+◌, Bool, true, false, ◌&&◌, ◌||◌, not, List, [], ◌∷◌, Option, none, some, leb, ◌==◌,
  if◌then◌else◌, map,
}
use kafscale.Base.Int.{ℤ, pos, negsuc}
use kafscale.Base.Maps.{Str, str_Key, str_eq, get, delete}
use kafscale.Base.Sort.{sort, str_le}
use kafscale.Base.Text.{text}
use kafscale.Group.Types.{
  GroupMember, ConsumerGroup, Store, ErrorCode, no_error, unknown_server_error, invalid_request,
  group_id_not_found,
}
use kafscale.Group.State.{keys}
use kafscale.Group.Coordinator.{Coordinator, code_of}

-- What OffsetFetch answers for a partition, besides a leader epoch of -1. The store's values behind
-- an error are 0 and "".
pub record FetchedOffset : Type 0 where
  pub partition : ℤ
  pub offset : ℤ
  pub metadata : Str
  pub code : ErrorCode

-- A member without its client's id and host, which the coordinator never stores.
pub record DescribedGroup : Type 0 where
  pub code : ErrorCode
  pub group_id : Str
  pub state : Str
  pub protocol_type : Str
  pub protocol : Str
  pub members : List Str
  pub authorized_operations : ℤ

pub record ListedGroup : Type 0 where
  pub group_id : Str
  pub protocol_type : Str
  pub group_state : Str
  pub group_type : Str

abbrev lower_byte : ℕ → ℕ
lower_byte b = if leb 65 b && leb b 90 then b + 32 else b

unfoldable pub to_lower : Str → Str
to_lower [] = []
to_lower (b ∷ bs) = lower_byte b ∷ to_lower bs

abbrev pub is_space : ℕ → Bool
is_space b = b == 32 || (leb 9 b && leb b 13)

-- `strings.TrimSpace(s) == ""`
unfoldable pub is_blank : Str → Bool
is_blank [] = true
is_blank (b ∷ bs) = is_space b && is_blank bs

unfoldable pub kafka_group_state : Str → Str
kafka_group_state state =
    let s = to_lower state in
    if str_eq s (text "preparing_rebalance")
    then text "PreparingRebalance"
    else (if str_eq s (text "completing_rebalance")
        then text "CompletingRebalance"
        else (if str_eq s (text "stable")
            then text "Stable"
            else (if str_eq s (text "dead")
                then text "Dead"
                else (if str_eq s (text "empty") then text "Empty" else state))))

abbrev without_underscores : Str → Str
without_underscores [] = []
without_underscores (b ∷ bs) =
    if b == 95 then without_underscores bs else b ∷ without_underscores bs

unfoldable pub normalize_group_state : Str → Str
normalize_group_state state = without_underscores (to_lower state)

abbrev any_state : Str → List Str → Bool
any_state key [] = false
any_state key (f ∷ fs) = str_eq (normalize_group_state f) key || any_state key fs

unfoldable pub matches_group_state_filter : Str → List Str → Bool
matches_group_state_filter state [] = true
matches_group_state_filter state (f ∷ fs) = any_state (normalize_group_state state) (f ∷ fs)

abbrev any_type : Str → List Str → Bool
any_type type [] = false
any_type type (f ∷ fs) = str_eq (to_lower f) (to_lower type) || any_type type fs

unfoldable pub matches_group_type_filter : Str → List Str → Bool
matches_group_type_filter type [] = true
matches_group_type_filter type (f ∷ fs) = any_type type (f ∷ fs)

abbrev or_consumer : Str → Str
or_consumer [] = text "consumer"
or_consumer (c ∷ cs) = c ∷ cs

-- -2147483648 stands for operations that were not asked for.
unfoldable pub build_describe_group : ConsumerGroup → Bool → DescribedGroup
build_describe_group g include = record {
  code = no_error;
  group_id = g.group_id;
  state = kafka_group_state g.state;
  protocol_type = or_consumer g.protocol_type;
  protocol = g.protocol;
  members = sort str_le (keys g.members);
  authorized_operations = if include then pos 0 else negsuc 2147483647;
}

abbrev no_group : ErrorCode → Str → DescribedGroup
no_group code id = record {
  code = code;
  group_id = id;
  state = [];
  protocol_type = [];
  protocol = [];
  members = [];
  authorized_operations = pos 0;
}

unfoldable pub list_group : ConsumerGroup → ListedGroup
list_group g = record {
  group_id = g.group_id;
  protocol_type = or_consumer g.protocol_type;
  group_state = kafka_group_state g.state;
  group_type = text "classic";
}

unfoldable pub list_matching : List Str → List Str → List ConsumerGroup → List ListedGroup
list_matching states types [] = []
list_matching states types (g ∷ gs) =
    let rest = list_matching states types gs in
    if matches_group_state_filter (kafka_group_state g.state) states
      && matches_group_type_filter (text "classic") types
    then list_group g ∷ rest
    else rest

module _ {S : Type 0} (api : Store S) where
  unfoldable pub offset_fetch_partition : Str → Str → ℤ → S → FetchedOffset
  offset_fetch_partition group topic partition s =
      elim (api.fetch_consumer_offset group topic partition s) [
        | none ↦ record {
          partition = partition;
          offset = pos 0;
          metadata = [];
          code = unknown_server_error;
        }
        | some (offset, metadata) ↦ record {
          partition = partition;
          offset = offset;
          metadata = metadata;
          code = no_error;
        }
      ]

  abbrev fetch_partitions : Str → Str → List ℤ → S → List FetchedOffset
  fetch_partitions group topic [] s = []
  fetch_partitions group topic (p ∷ ps) s =
      offset_fetch_partition group topic p s ∷ fetch_partitions group topic ps s

  unfoldable pub offset_fetch : Str → List (Str × List ℤ) → S → List (Str × List FetchedOffset)
  offset_fetch group [] s = []
  offset_fetch group ((topic, partitions) ∷ topics) s =
      (topic, fetch_partitions group topic partitions s) ∷ offset_fetch group topics s

  unfoldable pub describe_group : Bool → Str → S → DescribedGroup
  describe_group include id s = elim (api.fetch_consumer_group id s) [
    | none ↦ no_group unknown_server_error id
    | some none ↦ no_group group_id_not_found id
    | some (some g) ↦ build_describe_group g include
  ]

  unfoldable pub describe_groups : Bool → List Str → S → List DescribedGroup
  describe_groups include [] s = []
  describe_groups include (id ∷ ids) s = describe_group include id s ∷ describe_groups include ids s

  unfoldable pub list_groups : List Str → List Str → S → ErrorCode × List ListedGroup
  list_groups states types s = elim (api.list_consumer_groups s) [
    | none ↦ (unknown_server_error, [])
    | some groups ↦ (no_error, list_matching states types groups)
  ]

  unfoldable pub delete_group_state : Str → Coordinator S → Coordinator S
  delete_group_state id c = record c { groups = delete id c.groups }

  -- The answer for one group. A group that the store does not know is forgotten too.
  unfoldable pub delete_one : Str → Coordinator S → Coordinator S × ErrorCode
  delete_one id c =
      let (s, deleted) = api.delete_consumer_group id c.store in
      let stored : Coordinator S × ErrorCode = elim (api.fetch_consumer_group id c.store) [
        | none ↦ (c, unknown_server_error)
        | some none ↦ (delete_group_state id c, group_id_not_found)
        | some (some g) ↦
            if deleted
            then (delete_group_state id (record c { store = s }), no_error)
            else (record c { store = s }, unknown_server_error)
      ] in
      if is_blank id then (c, invalid_request) else stored

  -- The lock is held only where a group's state is deleted; nothing comes between here.
  unfoldable pub delete_groups : List Str → Coordinator S → Coordinator S × List (Str × ErrorCode)
  delete_groups [] c = (c, [])
  delete_groups (id ∷ ids) c =
      let (c', code) = delete_one id c in
      let (c'', codes) = delete_groups ids c' in (c'', (id, code) ∷ codes)
