-- ===== src/Broker/Cluster.antt =====
-- The cluster in the answers of cmd/broker/main.go: the cases for ApiVersions, Metadata and
-- FindCoordinator of Handle, coordinatorBroker and generateApiVersions.
use kafscale.Base.{
  Bool, true, false, List, [], ◌∷◌, Option, none, some, Result, ok, err, if◌then◌else◌, replicate,
}
use kafscale.Base.Int.{ℤ, pos, negsuc, eqb_ℤ, ltb_ℤ}
use kafscale.Base.Bytes.{Bytes}
use kafscale.Base.Maps.{Str, str_Key, str_eq, get, put}
use kafscale.Group.Coordinator.Admin.{is_blank}
use kafscale.Metadata.Types.{MetadataBroker, MetadataTopic, ClusterMetadata}
use kafscale.Protocol.Request.Topics.{MetadataRequest}
use kafscale.Protocol.Response.Data.{ApiVersion, ApiVersionsResponse, MetadataResponse}
use kafscale.Protocol.Response.Groups.{FindCoordinatorResponse}
use kafscale.Broker.Types.{
  StoreError, Broker, Handler, HandlerError, store_failed, no_error_code, unsupported_version_code,
  unknown_topic_id,
}
use kafscale.Broker.Logs.{ensure_topic}

-- An API key with the versions from `low` to `high`.
abbrev supports : ℤ → ℤ → ℤ → ApiVersion
supports key low high = record { api_key = key; min_version = low; max_version = high }

abbrev without_support : List ℤ → List ApiVersion
without_support [] = []
without_support (key ∷ keys) = supports key (negsuc 0) (negsuc 0) ∷ without_support keys

unfoldable pub generate_api_versions : List ApiVersion
generate_api_versions =
    supports (pos 18) (pos 0) (pos 4)
    ∷ supports (pos 3) (pos 0) (pos 12)
    ∷ supports (pos 0) (pos 0) (pos 9)
    ∷ supports (pos 1) (pos 11) (pos 13)
    ∷ supports (pos 10) (pos 3) (pos 3)
    ∷ supports (pos 2) (pos 0) (pos 4)
    ∷ supports (pos 11) (pos 4) (pos 4)
    ∷ supports (pos 14) (pos 4) (pos 4)
    ∷ supports (pos 12) (pos 4) (pos 4)
    ∷ supports (pos 13) (pos 4) (pos 4)
    ∷ supports (pos 8) (pos 3) (pos 3)
    ∷ supports (pos 9) (pos 5) (pos 5)
    ∷ supports (pos 15) (pos 5) (pos 5)
    ∷ supports (pos 16) (pos 5) (pos 5)
    ∷ supports (pos 23) (pos 3) (pos 3)
    ∷ supports (pos 32) (pos 4) (pos 4)
    ∷ supports (pos 33) (pos 1) (pos 1)
    ∷ supports (pos 37) (pos 0) (pos 3)
    ∷ supports (pos 19) (pos 0) (pos 2)
    ∷ supports (pos 20) (pos 0) (pos 2)
    ∷ supports (pos 42) (pos 0) (pos 2)
    ∷ without_support
        (pos 4 ∷ pos 5 ∷ pos 6 ∷ pos 7 ∷ pos 21 ∷ pos 22 ∷ pos 24 ∷ pos 25 ∷ pos 26 ∷ [])

abbrev pub broker_by_id : ℤ → List MetadataBroker → Option MetadataBroker
broker_by_id id [] = none
broker_by_id id (b ∷ bs) = if eqb_ℤ b.node_id id then some b else broker_by_id id bs

abbrev first_or : MetadataBroker → List MetadataBroker → MetadataBroker
first_or info [] = info
first_or info (b ∷ bs) = b

-- The broker's own entry in the metadata, else the first one.
abbrev own_or_first : MetadataBroker → List MetadataBroker → MetadataBroker
own_or_first info bs = elim (broker_by_id info.node_id bs) [ some b ↦ b | none ↦ first_or info bs ]

abbrev pub null_id : Bytes
null_id = replicate 16 0

abbrev uses_ids : List Bytes → Bool
uses_ids [] = false
uses_ids (id ∷ ids) = if str_eq id null_id then uses_ids ids else true

abbrev index_by_id :
    List MetadataTopic → List (Bytes × MetadataTopic) → List (Bytes × MetadataTopic)
index_by_id [] m = m
index_by_id (t ∷ ts) m = index_by_id ts (put t.topic_id t m)

abbrev unknown_id : Bytes → MetadataTopic
unknown_id id = record {
  error_code = unknown_topic_id;
  name = [];
  topic_id = id;
  is_internal = false;
  partitions = [];
  topic_authorized_operations = pos 0;
}

unfoldable pub topics_by_id : List (Bytes × MetadataTopic) → List Bytes → List MetadataTopic
topics_by_id index [] = []
topics_by_id index (id ∷ ids) =
    let rest = topics_by_id index ids in
    if str_eq id null_id
    then rest
    else (elim (get id index) [ none ↦ unknown_id id | some t ↦ t ]) ∷ rest

module _ {M S : Type 0} (b : Broker M S) where
  abbrev pub api_versions_response : ℤ → ℤ → ApiVersionsResponse
  api_versions_response correlation version = record {
    correlation_id = correlation;
    error_code = if ltb_ℤ (pos 4) version then unsupported_version_code else no_error_code;
    throttle_ms = pos 0;
    versions = b.api_versions;
  }

  unfoldable pub coordinator_broker : M → M × MetadataBroker
  coordinator_broker m =
      let (m', loaded) = b.api.metadata [] m in
      (
        m',
        elim loaded [ err e ↦ b.broker_info | ok meta ↦ own_or_first b.broker_info meta.brokers ],
      )

  abbrev pub find_coordinator_response : ℤ → MetadataBroker → FindCoordinatorResponse
  find_coordinator_response correlation coord = record {
    correlation_id = correlation;
    throttle_ms = pos 0;
    error_code = no_error_code;
    error_message = none;
    node_id = coord.node_id;
    host = coord.host;
    port = coord.port;
  }

  -- The loop that creates the topics asked for; blank names are passed over.
  unfoldable pub create_asked : List Str → M → M × Result StoreError (Unit {0})
  create_asked [] m = (m, ok tt)
  create_asked (name ∷ names) m =
      let (m', ensured) = ensure_topic b name (pos 0) m in
      let rest = create_asked names (if is_blank name then m else m') in
      if is_blank name then rest else (elim ensured [ err e ↦ (m', err e) | ok _ ↦ rest ])

  unfoldable pub load_metadata : MetadataRequest → M → M × Result StoreError ClusterMetadata
  load_metadata req m =
      let (m', loaded) = b.api.metadata [] m in
      if uses_ids req.topic_ids
      then (
        m',
        elim loaded [
          | err e ↦ err e
          | ok all ↦
              ok (record all { topics = topics_by_id (index_by_id all.topics []) req.topic_ids })
        ],
      )
      else b.api.metadata req.topics m

  abbrev metadata_response : ℤ → ClusterMetadata → MetadataResponse
  metadata_response correlation meta = record {
    correlation_id = correlation;
    throttle_ms = pos 0;
    brokers = meta.brokers;
    cluster_id = meta.cluster_id;
    controller_id = meta.controller_id;
    topics = meta.topics;
    cluster_authorized_operations = pos 0;
  }

  unfoldable pub handle_metadata :
      ℤ → MetadataRequest → Handler M S → Handler M S × Result HandlerError MetadataResponse
  handle_metadata correlation req h =
      let (m, created) : M × Result StoreError (Unit {0}) =
        if b.auto_create_topics then create_asked req.topics h.store else (h.store, ok tt) in
      let (m', loaded) = load_metadata req m in
      elim created [
        | err e ↦ (record h { store = m }, err (store_failed e))
        | ok _ ↦ (
          record h { store = m' },
          elim loaded [
            | err e ↦ err (store_failed e)
            | ok meta ↦ ok (metadata_response correlation meta)
          ],
        )
      ]
