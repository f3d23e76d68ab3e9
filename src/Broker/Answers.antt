-- ===== src/Broker/Answers.antt =====
-- The correlation id of what Handle (cmd/broker/main.go) answers, by which a client knows the request.
use kafscale.Base.{
  ℕ, ◌≡◌, refl, sym, subst, ap, ◌∙◌, List, Option, none, some, Result, ok, err, arith, Bool-cases,
  inl, inr, Result-cases,
}
use kafscale.Base.Int.{ℤ, IsI32}
use kafscale.Base.Bytes.{Bytes}
use kafscale.Protocol.Reader.{read_int32}
use kafscale.Protocol.Request.Header.{RequestHeader}
use kafscale.Protocol.Request.{
  Request, api_versions_request, fetch_request, metadata_request, join_group_request,
  sync_group_request, heartbeat_request, leave_group_request, offset_commit_request,
  offset_fetch_request, delete_groups_request, describe_groups_request, list_groups_request,
}
use kafscale.Protocol.Response.Data.{FetchResponse}
use kafscale.Protocol.Response.Correlation.{Response, encode, correlation_of, encode-correlation}
use kafscale.Protocol.Request.Data.{FetchRequest}
use kafscale.Protocol.Request.Topics.{MetadataRequest}
use kafscale.Group.Coordinator.{Coordinator}
use kafscale.Broker.Types.{Broker, Handler, HandlerError}
use kafscale.Broker.Produce.{handle_produce}
use kafscale.Broker.Wait.{Wake, Fetching}
use kafscale.Broker.Fetch.{handle_fetch}
use kafscale.Broker.Topics.{handle_create_topics, handle_delete_topics}
use kafscale.Broker.Partitions.{handle_create_partitions}
use kafscale.Broker.Configs.{handle_describe_configs, handle_alter_configs}
use kafscale.Broker.Offsets.{handle_list_offsets, handle_offset_for_leader_epoch}
use kafscale.Broker.Cluster.{coordinator_broker, handle_metadata}
use kafscale.Broker.Groups.{
  join_response, join_timed_out, sync_response, sync_timed_out, commit_response, commit_timed_out,
  fetch_timed_out,
}
use kafscale.Broker.Groups.Admin.{
  describe_response, describe_timed_out, list_response, list_timed_out, delete_response,
  delete_timed_out,
}
use kafscale.Broker.Handle.{
  Answer, encoded, answer_with, handle_group, group_unavailable, ask_coordinator, handle_request,
  encode_answer, response_version, handle,
}

-- The answer is to the request with this id, if it is a response.
abbrev pub Answers : ℤ → Answer → Type 0
Answers cid (err e) = Unit {0}
Answers cid (ok none) = Unit {0}
Answers cid (ok (some r)) = correlation_of r ≡ cid

-- Likewise of a handler that may not be done.
abbrev AnswersIf : {A : Type 0} → ℤ → Option (A × Answer) → Type 0
AnswersIf cid none = Unit {0}
AnswersIf cid (some (h, answer)) = Answers cid answer

abbrev fetch_answer :
    {M S : Type 0}
    → Option (Fetching M S × Result HandlerError FetchResponse)
    → Option (Handler M S × Answer)
fetch_answer none = none
fetch_answer (some (f, r)) = some (f.handler, answer_with Response.fetch r)

encoded-correlation :
    {H : Type 0} (cid version : ℤ) (out : Option (H × Answer)) (h : H) (bs : Bytes)
    → IsI32 cid
    → AnswersIf cid out
    → encoded version out ≡ some (h, ok (some bs))
    → (rest : Bytes) × (read_int32 bs ≡ ok (cid, rest))
unfolding encode_answer
encoded-correlation cid version none h bs fits a e = cc
encoded-correlation cid version (some (h', err x)) h bs fits a e = cc
encoded-correlation cid version (some (h', ok none)) h bs fits a e = cc
encoded-correlation cid version (some (h', ok (some r))) h bs fits a e =
    elim (Result-cases (encode r version)) [
      | inr (x, failed) ↦ cc (rw (failed, encode_answer) at e)
      | inl (out, made) ↦
          let same : out ≡ bs = cc (rw (made, encode_answer) at e) in
          subst (λ c. (rest : Bytes) × (read_int32 bs ≡ ok (c, rest))) a
            (encode-correlation r version bs (subst (λ c. IsI32 c) (sym a) fits)
              (made ∙ ap ok same))
    ]

module _ {M S : Type 0} (b : Broker M S) where
  group_unavailable-Answers : (cid : ℤ) (req : Request) → Answers cid (group_unavailable b cid req)
  unfolding group_unavailable join_timed_out sync_timed_out commit_timed_out fetch_timed_out
      describe_timed_out list_timed_out delete_timed_out
  group_unavailable-Answers cid req = ground arith

  handle_group-Answers :
      (now : ℕ) (random cid : ℤ) (req : Request) (c : Coordinator M)
      → Answers cid (handle_group b now random cid req c).1
  unfolding handle_group join_response sync_response commit_response describe_response list_response
      delete_response
  handle_group-Answers now random cid req c = ground arith

  handle_metadata-Answers :
      (cid : ℤ) (r : MetadataRequest) (h : Handler M S)
      → Answers cid (answer_with Response.metadata (handle_metadata b cid r h).1)
  unfolding handle_metadata
  handle_metadata-Answers cid r h = ground arith

  handle_fetch-Answers :
      (rounds : ℕ) (cid version : ℤ) (r : FetchRequest) (f : Fetching M S)
      → AnswersIf cid (fetch_answer (handle_fetch b rounds cid version r f))
  unfolding handle_fetch
  handle_fetch-Answers rounds cid version r f = ground arith

  ask_coordinator-Answers :
      (now : ℕ) (random cid : ℤ) (req : Request) (h : Handler M S)
      → Answers cid (ask_coordinator b now random cid req h).1
  unfolding ask_coordinator
  ask_coordinator-Answers now random cid req h = elim (Bool-cases (b.api.available h.store)) [
    | inl up ↦ rw (up, ask_coordinator) (handle_group-Answers now random cid req _)
    | inr down ↦ rw (down, ask_coordinator) (group_unavailable-Answers cid req)
  ]

  handle_request-Answers :
      (rounds now : ℕ) (wakes : List (Wake M S)) (random : ℤ) (header : RequestHeader)
      (req : Request) (h : Handler M S)
      → AnswersIf header.correlation_id (handle_request b rounds now wakes random header req h)
  unfolding handle_request handle_produce handle_list_offsets handle_create_topics
      handle_delete_topics handle_offset_for_leader_epoch handle_describe_configs
      handle_alter_configs handle_create_partitions coordinator_broker
  handle_request-Answers rounds now wakes random header (metadata_request r) h =
      handle_metadata-Answers header.correlation_id r h
  handle_request-Answers rounds now wakes random header (fetch_request r) h = ground (
    arith,
    handle_fetch-Answers rounds header.correlation_id header.api_version r
        (record { now = now; handler = h; wakes = wakes }),
  )
  handle_request-Answers rounds now wakes random header (api_versions_request r) h = refl
  handle_request-Answers rounds now wakes random header (join_group_request r) h =
      ask_coordinator-Answers now random header.correlation_id (join_group_request r) h
  handle_request-Answers rounds now wakes random header (sync_group_request r) h =
      ask_coordinator-Answers now random header.correlation_id (sync_group_request r) h
  handle_request-Answers rounds now wakes random header (heartbeat_request r) h =
      ask_coordinator-Answers now random header.correlation_id (heartbeat_request r) h
  handle_request-Answers rounds now wakes random header (leave_group_request r) h =
      ask_coordinator-Answers now random header.correlation_id (leave_group_request r) h
  handle_request-Answers rounds now wakes random header (offset_commit_request r) h =
      ask_coordinator-Answers now random header.correlation_id (offset_commit_request r) h
  handle_request-Answers rounds now wakes random header (offset_fetch_request r) h =
      ask_coordinator-Answers now random header.correlation_id (offset_fetch_request r) h
  handle_request-Answers rounds now wakes random header (delete_groups_request ids) h =
      ask_coordinator-Answers now random header.correlation_id (delete_groups_request ids) h
  handle_request-Answers rounds now wakes random header (describe_groups_request r) h =
      ask_coordinator-Answers now random header.correlation_id (describe_groups_request r) h
  handle_request-Answers rounds now wakes random header (list_groups_request r) h =
      ask_coordinator-Answers now random header.correlation_id (list_groups_request r) h
  handle_request-Answers rounds now wakes random header req h = ground arith

  -- A response that Handle sends, as bytes, begins with the correlation id of the request, an int32,
  -- whatever the request and its version and whatever the stores do.
  pub handle-correlation :
      (rounds now : ℕ) (wakes : List (Wake M S)) (random : ℤ) (header : RequestHeader)
      (req : Request) (h h' : Handler M S) (bs : Bytes)
      → IsI32 header.correlation_id
      → handle b rounds now wakes random header req h ≡ some (h', ok (some bs))
      → (rest : Bytes) × (read_int32 bs ≡ ok (header.correlation_id, rest))
  unfolding handle
  handle-correlation rounds now wakes random header req h h' bs fits answered =
      encoded-correlation header.correlation_id (response_version header.api_version req)
        (handle_request b rounds now wakes random header req h) h' bs fits
        (handle_request-Answers rounds now wakes random header req h) answered
