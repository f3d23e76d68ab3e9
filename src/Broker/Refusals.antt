-- ===== src/Broker/Refusals.antt =====
-- When cmd/broker/main.go writes nothing: Produce without its stores, and the administration of topics
-- where it is switched off.
use kafscale.Base.{
  ℕ, ◌≡◌, refl, ◌∙◌, ◌&&◌, Bool, true, false, not, List, [], ◌∷◌, none, some, arith, Bool-cases,
  inl, inr, if◌then◌else◌,
}
use kafscale.Base.Int.{ℤ, pos, eqb_ℤ}
use kafscale.Base.Maps.{Str}
use kafscale.Health.{S3HealthState, refresh}
use kafscale.Health.Window.{refresh-state}
use kafscale.Protocol.Request.Data.{ProduceRequest, ProduceTopic, ProducePartition}
use kafscale.Protocol.Response.Data.{ProducePartitionResponse, ProduceTopicResponse}
use kafscale.Broker.Types.{Broker, Handler, request_timed_out, backpressure_error_code}
use kafscale.Broker.Logs.{check_health}
use kafscale.Broker.Produce.{
  is_healthy, refused, refuse_by_health, produce_partition, produce_partitions, produce_topics,
  handle_produce,
}

-- Only the monitor may differ.
pub record SameData {M S : Type 0} (h h' : Handler M S) : Type 0 where
  pub same_store : h'.store ≡ h.store
  pub same_logs : h'.logs ≡ h.logs
  pub same_groups : h'.groups ≡ h.groups
  pub same_objects : h'.world.s3.objects ≡ h.world.s3.objects
  pub same_cache : h'.world.cache ≡ h.world.cache

-- The code that Produce answers with when it does not write.
abbrev pub refusal_code : Bool → S3HealthState → ℤ
refusal_code true state = backpressure_error_code state
refusal_code false state = request_timed_out

abbrev pub all_refused : ℤ → List ProducePartition → List ProducePartitionResponse
all_refused code [] = []
all_refused code (p ∷ ps) = refused p.partition code ∷ all_refused code ps

abbrev pub refused_topics : ℤ → List ProduceTopic → List ProduceTopicResponse
refused_topics code [] = []
refused_topics code (t ∷ ts) =
    record { name = t.name; partitions = all_refused code t.partitions } ∷ refused_topics code ts

abbrev pub state_at : {M S : Type 0} → ℕ → Handler M S → S3HealthState
state_at now h = (refresh now h.world.s3.monitor).state

-- What a refusal leaves: the same data, and a monitor that says the same at this time.
abbrev Left : {M S : Type 0} → ℕ → Handler M S → Handler M S → Type 0
Left now h h' = SameData h h' × (state_at now h' ≡ state_at now h)

module _ {M S : Type 0} (b : Broker M S) (rounds now : ℕ) where
  check_health-Left : (h : Handler M S) → Left now h (check_health now h).0
  unfolding check_health
  check_health-Left h = (
    record {
      same_store = refl;
      same_logs = refl;
      same_groups = refl;
      same_objects = refl;
      same_cache = refl;
    },
    refresh-state now h.world.s3.monitor,
  )

  Left-trans : (h h' h'' : Handler M S) → Left now h h' → Left now h' h'' → Left now h h''
  Left-trans h h' h'' (d, s) (d', s') = (
    record {
      same_store = d'.same_store ∙ d.same_store;
      same_logs = d'.same_logs ∙ d.same_logs;
      same_groups = d'.same_groups ∙ d.same_groups;
      same_objects = d'.same_objects ∙ d.same_objects;
      same_cache = d'.same_cache ∙ d.same_cache;
    },
    s' ∙ s,
  )

  Left-refl : (h : Handler M S) → Left now h h
  Left-refl h = (
    record {
      same_store = refl;
      same_logs = refl;
      same_groups = refl;
      same_objects = refl;
      same_cache = refl;
    },
    refl,
  )

  abbrev code_at : Handler M S → ℤ
  code_at h = refusal_code (b.api.available h.store) (state_at now h)

  abbrev Refuses : Handler M S → Type 0
  Refuses h = b.api.available h.store && is_healthy (state_at now h) ≡ false

  produce_partition-Refuses :
      (acks : Bool) (topic : Str) (p : ProducePartition) (h : Handler M S)
      → Refuses h
      → (h' : Handler M S) × (produce_partition b rounds now acks topic p h
          ≡ some (h', refused p.partition (code_at h)))
        × Left now h h'
  unfolding produce_partition refuse_by_health check_health
  produce_partition-Refuses acks topic p h r = elim (Bool-cases (b.api.available h.store)) [
    | inr down ↦ (h, rw (down, produce_partition) refl, Left-refl h)
    | inl up ↦ (
      (check_health now (check_health now h).0).0,
      rw (up, produce_partition, rw up at r) (rw (refresh-state now h.world.s3.monitor) refl),
      Left-trans h _ _ (check_health-Left h) (check_health-Left (check_health now h).0),
    )
  ]

  code_at-Left : (h h' : Handler M S) → Left now h h' → code_at h' ≡ code_at h
  code_at-Left h h' (d, s) = rw (d.same_store, s) refl

  Refuses-Left : (h h' : Handler M S) → Left now h h' → Refuses h → Refuses h'
  Refuses-Left h h' (d, s) r = rw (d.same_store, s) r

  produce_partitions-Refuses :
      (acks : Bool) (topic : Str) (ps : List ProducePartition) (h : Handler M S)
      → Refuses h
      → (h' : Handler M S) × (produce_partitions b rounds now acks topic ps h
          ≡ some (h', all_refused (code_at h) ps))
        × Left now h h'
  unfolding produce_partitions
  produce_partitions-Refuses acks topic [] h r = (h, refl, Left-refl h)
  produce_partitions-Refuses acks topic (p ∷ ps) h r =
      let (h', first, left) = produce_partition-Refuses acks topic p h r in
      let (h'', rest, left') =
        produce_partitions-Refuses acks topic ps h' (Refuses-Left h h' left r) in
      (
        h'',
        rw (first, produce_partitions) (rw rest (rw (code_at-Left h h' left) refl)),
        Left-trans h h' h'' left left',
      )

  produce_topics-Refuses :
      (acks : Bool) (ts : List ProduceTopic) (h : Handler M S)
      → Refuses h
      → (h' : Handler M S) × (produce_topics b rounds now acks ts h
          ≡ some (h', refused_topics (code_at h) ts))
        × Left now h h'
  unfolding produce_topics
  produce_topics-Refuses acks [] h r = (h, refl, Left-refl h)
  produce_topics-Refuses acks (t ∷ ts) h r =
      let (h', first, left) = produce_partitions-Refuses acks t.name t.partitions h r in
      let (h'', rest, left') = produce_topics-Refuses acks ts h' (Refuses-Left h h' left r) in
      (
        h'',
        rw (first, produce_topics) (rw rest (rw (code_at-Left h h' left) refl)),
        Left-trans h h' h'' left left',
      )

  -- While the metadata store is not available, or the object store is not healthy, Produce writes nothing:
  -- the logs, both stores, the cache and the groups stay as they were, and every partition of the request
  -- is refused, by REQUEST_TIMED_OUT in the first case and by the health in the second. A client that asked
  -- for no acknowledgement gets no answer.
  pub handle_produce-refuses :
      (correlation : ℤ) (req : ProduceRequest) (h : Handler M S)
      → b.api.available h.store && is_healthy (state_at now h) ≡ false
      → (h' : Handler M S) × (handle_produce b rounds now correlation req h
          ≡ some (
            h',
            if eqb_ℤ req.acks (pos 0)
                then none
                else some (record {
                  correlation_id = correlation;
                  topics =
                      refused_topics
                        (refusal_code (b.api.available h.store) (state_at now h))
                        req.topics;
                  throttle_ms = pos 0;
                }),
          ))
        × SameData h h'
  unfolding handle_produce
  handle_produce-refuses correlation req h r =
      let (h', all, left) = produce_topics-Refuses (not (eqb_ℤ req.acks (pos 0))) req.topics h r in
      (h', rw (all, handle_produce) (ground arith), left.0)
