-- ===== src/Broker/Ending.antt =====
-- How the loop of a connection (handleConnection of pkg/broker/server.go) ends.
use kafscale.Base.{ℕ, zero, suc, ◌≡◌, ◌⊎◌, List, [], ◌∷◌, Option, none, some, ok, err}
use kafscale.Base.Bytes.{Bytes}
use kafscale.Protocol.Frame.{read_frame}
use kafscale.Protocol.Request.Header.{RequestHeader}
use kafscale.Protocol.Request.{
  Request, parse_request, produce_request, fetch_request, list_offsets_request,
}
use kafscale.Broker.Types.{Broker}
use kafscale.Broker.Handle.{handle}
use kafscale.Broker.Server.{Served, handle_connection, Turn, Serving, broker_handler}

-- The requests that the bytes of a connection hold, of n frames at most.
abbrev pub requests : ℕ → Bytes → List (RequestHeader × Request)
requests zero bs = []
requests (suc n) bs = elim (read_frame bs) [
  | err e ↦ []
  | ok (payload, later) ↦ elim (parse_request payload) [
    | err e ↦ []
    | ok (asked, left) ↦ asked ∷ requests n later
  ]
]

-- The requests of which partitions' logs are opened.
abbrev pub OpensLogs : Request → Type 0
OpensLogs (produce_request r) = Unit {0}
OpensLogs (fetch_request r) = Unit {0}
OpensLogs (list_offsets_request r) = Unit {0}
OpensLogs _ = ⊥

module _ {M S : Type 0} (b : Broker M S) (rounds : ℕ) where
  abbrev pub Reads : Bytes → RequestHeader → Request → Bytes → Type 0
  Reads bs header req later =
      (payload : Bytes) × (left : Bytes) × (read_frame bs ≡ ok (payload, later))
      × (parse_request payload ≡ ok ((header, req), left))

  -- The handler and the bytes of a connection, and those after some of its requests.
  pub data Reaches : Serving M S → Bytes → Serving M S → Bytes → Type 0 where
    here : {s : Serving M S} {bs : Bytes} → Reaches s bs s bs
    answered :
        {s s' s'' : Serving M S} {bs later rest : Bytes} {header : RequestHeader} {req : Request}
        {answer : Option Bytes}
        → Reads bs header req later
        → (broker_handler b rounds).handle header req s ≡ some (s', ok answer)
        → Reaches s' later s'' rest
        → Reaches s bs s'' rest

  -- The connection reaches a request that opens logs and of which Handle does not come back.
  abbrev pub IsStuck : Serving M S → Bytes → Type 0
  IsStuck s bs =
      (s' : Serving M S) × (rest : Bytes) × (header : RequestHeader) × (req : Request)
      × (later : Bytes) × (t : Turn M S) × (turns : List (Turn M S)) × Reaches s bs s' rest
      × Reads rest header req later
      × OpensLogs req
      × (s'.turns ≡ t ∷ turns)
      × (handle b rounds t.now t.wakes t.random header req (t.others s'.handler) ≡ none)

  abbrev pub EndsOrIsStuck : ℕ → Serving M S → Bytes → Type 0
  EndsOrIsStuck n s bs =
      ((out : Served (Serving M S)) × (handle_connection (broker_handler b rounds) n s bs
          ≡ some out))
      ⊎ IsStuck s bs
