-- ===== src/Broker/Partitions.antt =====
-- The handler of CreatePartitions in cmd/broker/main.go.
use kafscale.Base.{
  Bool, true, false, not, List, [], ◌∷◌, Option, none, some, Result, ok, err, if◌then◌else◌, length,
}
use kafscale.Base.Int.{ℤ, pos, eqb_ℤ, leb_ℤ, wrap32}
use kafscale.Base.Maps.{Str}
use kafscale.Base.Text.{text}
use kafscale.Group.State.{contains}
use kafscale.Group.Coordinator.Admin.{is_blank}
use kafscale.Metadata.Types.{MetadataTopic, invalid_topic, unknown_topic}
use kafscale.Protocol.Request.Topics.{CreatePartitionsTopic, CreatePartitionsRequest}
use kafscale.Protocol.Response.Topics.{CreatedPartitionsTopic, CreatePartitionsResponse}
use kafscale.Broker.Types.{
  StoreError, known, Broker, Handler, error_text, no_error_code, request_timed_out,
  invalid_topic_exception, unknown_server_error_code, unknown_topic_or_partition,
  invalid_partitions, invalid_request_code,
}

unfoldable pub partitions_code : StoreError → ℤ
partitions_code (known unknown_topic) = unknown_topic_or_partition
partitions_code (known invalid_topic) = invalid_partitions
partitions_code _ = unknown_server_error_code

abbrev pub partitions_result : Str → ℤ → Option Str → CreatedPartitionsTopic
partitions_result name code message = record {
  name = name;
  error_code = code;
  error_message = message;
}

abbrev partitions_answer : Str → Result StoreError (Unit {0}) → CreatedPartitionsTopic
partitions_answer name (ok _) = partitions_result name no_error_code none
partitions_answer name (err e) = partitions_result name (partitions_code e) (some (error_text e))

abbrev no_assignments : Option (List (List ℤ)) → Bool
no_assignments none = true
no_assignments (some []) = true
no_assignments (some (a ∷ as')) = false

abbrev all_timed_out : List CreatePartitionsTopic → List CreatedPartitionsTopic
all_timed_out [] = []
all_timed_out (t ∷ ts) =
    partitions_result t.name request_timed_out (some (text "etcd unavailable")) ∷ all_timed_out ts

module _ {M S : Type 0} (b : Broker M S) where
  abbrev pub checked_partitions : ℤ → List MetadataTopic → Result StoreError (Unit {0})
  checked_partitions count [] = err (known unknown_topic)
  checked_partitions count (t ∷ ts) =
      if not (eqb_ℤ t.error_code (pos 0))
      then err (known unknown_topic)
      else (if leb_ℤ count (wrap32 (pos (length t.partitions)))
          then err (known invalid_topic)
          else ok tt)

  unfoldable pub validate_create_partitions : Str → ℤ → M → M × Result StoreError (Unit {0})
  validate_create_partitions name count m =
      let (m', loaded) = b.api.metadata (name ∷ []) m in
      (m', elim loaded [ err e ↦ err e | ok meta ↦ checked_partitions count meta.topics ])

  -- The loop's body behind the test for a blank name: `seen` holds the names before this one.
  unfoldable pub create_partitions_of :
      Bool → List Str → CreatePartitionsTopic → M → M × CreatedPartitionsTopic
  create_partitions_of validate_only seen t m =
      let (m', checked) = validate_create_partitions t.name t.count m in
      let (m'', created) = b.api.create_partitions t.name t.count m in
      if contains t.name seen
      then (
        m,
        partitions_result t.name invalid_request_code (some (text "duplicate topic in request")),
      )
      else (if leb_ℤ t.count (pos 0)
          then (
            m,
            partitions_result t.name invalid_partitions (some (text "invalid partition count")),
          )
          else (if not (no_assignments t.assignments)
              then (
                m,
                partitions_result t.name invalid_request_code
                    (some (text "replica assignment not supported")),
              )
              else (if validate_only
                  then (m', partitions_answer t.name checked)
                  else (m'', partitions_answer t.name created))))

  unfoldable pub create_partitions_loop :
      Bool → List Str → List CreatePartitionsTopic → M → M × List CreatedPartitionsTopic
  create_partitions_loop validate_only seen [] m = (m, [])
  create_partitions_loop validate_only seen (t ∷ ts) m =
      let blank = is_blank t.name in
      let one : M × CreatedPartitionsTopic =
        if blank
        then (
          m,
          partitions_result t.name invalid_topic_exception (some (text "invalid topic name")),
        )
        else create_partitions_of validate_only seen t m in
      let (m', rs) =
        create_partitions_loop validate_only (if blank then seen else t.name ∷ seen) ts one.0 in
      (m', one.1 ∷ rs)

  unfoldable pub handle_create_partitions :
      ℤ → CreatePartitionsRequest → Handler M S → Handler M S × CreatePartitionsResponse
  handle_create_partitions correlation req h =
      let (m, results) = create_partitions_loop req.validate_only [] req.topics h.store in
      if not (b.api.available h.store)
      then (
        h,
        record {
          correlation_id = correlation;
          throttle_ms = pos 0;
          topics = all_timed_out req.topics;
        },
      )
      else (
        record h { store = m },
        record { correlation_id = correlation; throttle_ms = pos 0; topics = results },
      )
