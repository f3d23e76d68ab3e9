-- ===== src/Broker/Configs.antt =====
-- The handlers on configurations in cmd/broker/main.go: DescribeConfigs and AlterConfigs. White space is
-- that of ASCII text.
use kafscale.Base.{
  ◌/◌, Bool, true, false, ◌&&◌, ◌||◌, not, List, [], ◌∷◌, ◌++◌, Option, none, some, ok, err,
  if◌then◌else◌,
}
use kafscale.Base.Int.{ℤ, pos, negsuc, eqb_ℤ, leb_ℤ, ltb_ℤ}
use kafscale.Base.Maps.{Str, str_eq}
use kafscale.Base.Text.{text}
use kafscale.Base.Decimal.{decimal, parse_int64}
use kafscale.Group.State.{contains}
use kafscale.Group.Coordinator.Admin.{is_space}
use kafscale.Metadata.Types.{TopicConfig}
use kafscale.Protocol.Request.Configs.{
  DescribeConfigsResource, DescribeConfigsRequest, AlterConfigsResource, AlterConfigsRequest,
}
use kafscale.Protocol.Response.Topics.{
  DescribedConfig, DescribedResource, DescribeConfigsResponse, AlteredResource,
  AlterConfigsResponse,
}
use kafscale.Broker.Types.{
  Broker, Handler, no_error_code, request_timed_out, invalid_config, invalid_request_code,
  unknown_topic_or_partition, unknown_server_error_code,
}

-- The types of resources and of values, by their numbers in pkg/protocol/config.go.
abbrev pub topic_resource : ℤ
topic_resource = pos 2

abbrev pub broker_resource : ℤ
broker_resource = pos 4

abbrev pub string_type : ℤ
string_type = pos 2

abbrev pub int_type : ℤ
int_type = pos 3

abbrev pub long_type : ℤ
long_type = pos 5

-- `none` is a nil set, which allows every name.
abbrev pub is_allowed : Option (List Str) → Str → Bool
is_allowed none name = true
is_allowed (some names) name = contains name names

unfoldable pub choose_config_source : Bool → Bool → ℤ
choose_config_source is_default read_only =
    if is_default then pos 5 else if read_only then pos 4 else pos 1

-- What appendConfigEntry appends.
unfoldable pub config_entry : Option (List Str) → Str → Str → Bool → ℤ → Bool → List DescribedConfig
config_entry allow name value is_default config_type read_only =
    let entry : DescribedConfig = record {
      name = name;
      value = some value;
      read_only = read_only;
      is_default = is_default;
      source = choose_config_source is_default read_only;
      is_sensitive = false;
      synonyms = [];
      config_type = config_type;
      documentation = none;
    } in
    if is_allowed allow name then entry ∷ [] else []

unfoldable pub normalize_retention : ℤ → Str × Bool
normalize_retention value =
    let v = if eqb_ℤ value (pos 0) then negsuc 0 else value in (decimal v, eqb_ℤ v (negsuc 0))

unfoldable pub normalize_segment_bytes : ℤ → ℤ → Str × Bool
normalize_segment_bytes value fallback =
    if leb_ℤ value (pos 0) then (decimal fallback, true) else (decimal value, false)

unfoldable pub trim_left : Str → Str
trim_left [] = []
trim_left (c ∷ cs) = if is_space c then trim_left cs else c ∷ cs

unfoldable pub trim_right : Str → Str
trim_right [] = []
trim_right (c ∷ cs) =
    let rest = trim_right cs in
    elim rest [ [] ↦ if is_space c then [] else c ∷ [] | d ∷ ds ↦ c ∷ d ∷ ds ]

unfoldable pub parse_config_int64 : Str → Option ℤ
parse_config_int64 value = parse_int64 (trim_right (trim_left value))

-- A limit is -1, or not negative.
abbrev pub as_limit : Option ℤ → Option ℤ
as_limit none = none
as_limit (some v) = if ltb_ℤ v (pos 0) && not (eqb_ℤ v (negsuc 0)) then none else some v

abbrev pub as_size : Option ℤ → Option ℤ
as_size none = none
as_size (some v) = if leb_ℤ v (pos 0) then none else some v

abbrev with_value : Option ℤ → (ℤ → TopicConfig) → Option TopicConfig
with_value none f = none
with_value (some v) f = some (f v)

-- The switch on the name of an entry; `none` is INVALID_CONFIG.
unfoldable pub apply_entry : Str → Str → TopicConfig → Option TopicConfig
apply_entry name value cfg =
    let v = parse_config_int64 value in
    if str_eq name (text "retention.ms")
    then with_value (as_limit v) (λ n. record cfg { retention_ms = n })
    else (if str_eq name (text "retention.bytes")
        then with_value (as_limit v) (λ n. record cfg { retention_bytes = n })
        else (if str_eq name (text "segment.bytes")
            then with_value (as_size v) (λ n. record cfg { segment_bytes = n })
            else none))

-- The loop over the entries: the first that is refused ends it.
unfoldable pub apply_entries : List (Str × Option Str) → TopicConfig → Option TopicConfig
apply_entries [] cfg = some cfg
apply_entries ((name, none) ∷ entries) cfg = none
apply_entries ((name, some value) ∷ entries) cfg = elim (apply_entry name value cfg) [
  | none ↦ none
  | some cfg' ↦ apply_entries entries cfg'
]

abbrev altered : AlterConfigsResource → ℤ → AlteredResource
altered r code = record {
  error_code = code;
  error_message = none;
  resource_type = r.resource_type;
  resource_name = r.resource_name;
}

abbrev all_altered : ℤ → List AlterConfigsResource → List AlteredResource
all_altered code [] = []
all_altered code (r ∷ rs) = altered r code ∷ all_altered code rs

abbrev described : DescribeConfigsResource → ℤ → List DescribedConfig → DescribedResource
described r code configs = record {
  error_code = code;
  error_message = none;
  resource_type = r.resource_type;
  resource_name = r.resource_name;
  configs = configs;
}

module _ {M S : Type 0} (b : Broker M S) where
  unfoldable pub topic_config_entries : TopicConfig → Option (List Str) → List DescribedConfig
  topic_config_entries cfg allow =
      let (ms, ms_default) = normalize_retention cfg.retention_ms in
      let (bytes, bytes_default) = normalize_retention cfg.retention_bytes in
      let (size, size_default) = normalize_segment_bytes cfg.segment_bytes b.segment_bytes in
      config_entry allow (text "retention.ms") ms ms_default long_type false
      ++ (config_entry allow (text "retention.bytes") bytes bytes_default long_type false
          ++ config_entry allow (text "segment.bytes") size size_default int_type false)

  abbrev setting : Option (List Str) → Str → Str → ℤ → List DescribedConfig
  setting allow name value config_type = config_entry allow name value true config_type true

  unfoldable pub broker_config_entries : Option (List Str) → List DescribedConfig
  broker_config_entries allow =
      let host = b.broker_info.host ++ (b':' ∷ decimal b.broker_info.port) in
      setting allow (text "broker.id") (decimal b.broker_info.node_id) int_type
      ++ (setting allow (text "advertised.listeners") host string_type
          ++ (setting allow (text "kafscale.s3.bucket") b.s3_bucket string_type
              ++ (setting allow (text "kafscale.s3.region") b.s3_region string_type
                  ++ (setting allow (text "kafscale.s3.endpoint") b.s3_endpoint string_type
                      ++ (setting allow (text "kafscale.cache.bytes") (decimal b.cache_size)
                            long_type
                          ++ (setting allow (text "kafscale.readahead.segments")
                                (decimal b.read_ahead) int_type
                              ++ (setting allow (text "kafscale.segment.bytes")
                                    (decimal b.segment_bytes) int_type
                                  ++ setting allow (text "kafscale.flush.interval.ms")
                                      (decimal (pos (b.flush_interval / 1000000))) long_type)))))))

  unfoldable pub describe_resource : DescribeConfigsResource → M → M × DescribedResource
  describe_resource r m =
      let (m', fetched) = b.api.fetch_topic_config r.resource_name m in
      if eqb_ℤ r.resource_type topic_resource
      then (
        m',
        elim fetched [
          | err e ↦ described r unknown_topic_or_partition []
          | ok cfg ↦ described r no_error_code (topic_config_entries cfg r.config_names)
        ],
      )
      else (if eqb_ℤ r.resource_type broker_resource
          then (m, described r no_error_code (broker_config_entries r.config_names))
          else (m, described r invalid_request_code []))

  unfoldable pub describe_resources : List DescribeConfigsResource → M → M × List DescribedResource
  describe_resources [] m = (m, [])
  describe_resources (r ∷ rs) m =
      let (m', d) = describe_resource r m in
      let (m'', ds) = describe_resources rs m' in (m'', d ∷ ds)

  unfoldable pub handle_describe_configs :
      ℤ → DescribeConfigsRequest → Handler M S → Handler M S × DescribeConfigsResponse
  handle_describe_configs correlation req h =
      let (m, resources) = describe_resources req.resources h.store in
      (
        record h { store = m },
        record { correlation_id = correlation; throttle_ms = pos 0; resources = resources },
      )

  -- `cfg` is a clone of the stored configuration.
  unfoldable pub alter_topic : Bool → AlterConfigsResource → TopicConfig → M → M × ℤ
  alter_topic validate_only r cfg m = elim (apply_entries r.configs cfg) [
    | none ↦ (m, invalid_config)
    | some cfg' ↦
        let (m', updated) = b.api.update_topic_config cfg' m in
        if validate_only
        then (m, no_error_code)
        else (m', elim updated [ ok _ ↦ no_error_code | err e ↦ unknown_server_error_code ])
  ]

  unfoldable pub alter_resource : Bool → AlterConfigsResource → M → M × ℤ
  alter_resource validate_only r m =
      let (m', fetched) = b.api.fetch_topic_config r.resource_name m in
      if not (eqb_ℤ r.resource_type topic_resource) || str_eq r.resource_name []
      then (m, invalid_request_code)
      else (elim fetched [
        | err e ↦ (m', unknown_topic_or_partition)
        | ok cfg ↦ alter_topic validate_only r cfg m'
      ])

  unfoldable pub alter_resources : Bool → List AlterConfigsResource → M → M × List AlteredResource
  alter_resources validate_only [] m = (m, [])
  alter_resources validate_only (r ∷ rs) m =
      let (m', code) = alter_resource validate_only r m in
      let (m'', codes) = alter_resources validate_only rs m' in (m'', altered r code ∷ codes)

  unfoldable pub handle_alter_configs :
      ℤ → AlterConfigsRequest → Handler M S → Handler M S × AlterConfigsResponse
  handle_alter_configs correlation req h =
      let (m, resources) = alter_resources req.validate_only req.resources h.store in
      let timed_out = all_altered request_timed_out req.resources in
      if not (b.api.available h.store)
      then (h, record { correlation_id = correlation; throttle_ms = pos 0; resources = timed_out })
      else (
        record h { store = m },
        record { correlation_id = correlation; throttle_ms = pos 0; resources = resources },
      )
