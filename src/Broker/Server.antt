-- ===== src/Broker/Server.antt =====
-- pkg/broker/server.go: the loop of handleConnection over the frames of one connection. Accepting
-- connections is left to the network; what the client sends is a list of bytes that ends.
use kafscale.Base.{ℕ, zero, suc, List, [], ◌∷◌, ◌++◌, Option, none, some, Result, ok, err}
use kafscale.Base.Int.{ℤ}
use kafscale.Base.Bytes.{Bytes}
use kafscale.Protocol.Reader.{Error, panic}
use kafscale.Protocol.Frame.{read_frame, write_frame}
use kafscale.Protocol.Request.Header.{RequestHeader}
use kafscale.Protocol.Request.{Request, parse_request}
use kafscale.Broker.Types.{Broker, Handler, HandlerError}
use kafscale.Broker.Wait.{Wake}
use kafscale.Broker.Handle.{handle}

-- The interface Handler: its answer to a request, `none` if it does not come back.
pub record RequestHandler (H : Type 0) : Type 0 where
  pub handle : RequestHeader → Request → H → Option (H × Result HandlerError (Option Bytes))

-- Why the loop ends. A panic while a request is parsed ends the process.
pub data Ending : Type 0 where
  no_frame : Error → Ending
  bad_request : Error → Ending
  not_handled : HandlerError → Ending
  not_written : Ending
  crashed : Ending

abbrev pub refuse : Error → Ending
refuse panic = crashed
refuse e = bad_request e

-- The state, the bytes written to the connection, and the reason of the end.
abbrev pub Served : Type 0 → Type 0
Served H = H × Bytes × Ending

abbrev pub after_write : {H : Type 0} → Bytes → Option (Served H) → Option (Served H)
after_write bs none = none
after_write bs (some (h, written, ending)) = some (h, bs ++ written, ending)

module _ {H : Type 0} (handler : RequestHandler H) where
  -- A request is handled, its response written, and the loop goes on with the state behind it.
  abbrev pub after_handle :
      RequestHeader → Request → H → (H → Option (Served H)) → Option (Served H)
  after_handle header req h next = elim (handler.handle header req h) [
    | none ↦ none
    | some (h', err e) ↦ some (h', [], not_handled e)
    | some (h', ok none) ↦ next h'
    | some (h', ok (some response)) ↦ elim (write_frame response) [
      | none ↦ some (h', [], not_written)
      | some frame ↦ after_write frame (next h')
    ]
  ]

  -- The loop, for a number of frames at most: `none` if it is not over then, or a request is not.
  unfoldable pub handle_connection : ℕ → H → Bytes → Option (Served H)
  handle_connection zero h bs = none
  handle_connection (suc n) h bs = elim (read_frame bs) [
    | err e ↦ some (h, [], no_frame e)
    | ok (payload, later) ↦ elim (parse_request payload) [
      | err e ↦ some (h, [], refuse e)
      | ok ((header, req), left) ↦ after_handle header req h (λ h'. handle_connection n h' later)
    ]
  ]

-- When a request is handled: the time, the random number for a new member, the sleeps of a fetch, and
-- what other connections have done to the handler's state before.
pub record Turn (M S : Type 0) : Type 0 where
  pub now : ℕ
  pub random : ℤ
  pub wakes : List (Wake M S)
  pub others : Handler M S → Handler M S

-- The broker's handler with the turns to come.
pub record Serving (M S : Type 0) : Type 0 where
  pub handler : Handler M S
  pub turns : List (Turn M S)

abbrev served_by :
    {M S : Type 0}
    → List (Turn M S)
    → Option (Handler M S × Result HandlerError (Option Bytes))
    → Option (Serving M S × Result HandlerError (Option Bytes))
served_by turns none = none
served_by turns (some (h, r)) = some (record { handler = h; turns = turns }, r)

-- Handle of cmd/broker/main.go as the server is given it.
unfoldable pub broker_handler : {M S : Type 0} → Broker M S → ℕ → RequestHandler (Serving M S)
broker_handler b rounds = record {
  handle = λ header req s. elim s.turns [
    | [] ↦ none
    | t ∷ turns ↦
        served_by turns (handle b rounds t.now t.wakes t.random header req (t.others s.handler))
  ];
}
