-- ===== src/Broker/Connection.antt =====
-- The connections of pkg/broker/server.go: what the client reads, and that the loop ends.
use kafscale.Base.{
  ℕ, zero, suc, ◌≡◌, ◌⊎◌, refl, sym, ap, ◌∙◌, List, [], ◌∷◌, ◌++◌, Option, none, some, ok, err,
  arith, Bool-cases, inl, inr, Result-cases, Option-cases, length, ltb,
}
use mathlib.Core.List.{append_assoc, append-nil}
use kafscale.Base.Int.{ℤ, IsI32}
use kafscale.Base.Bytes.{Bytes, All, IsByte, be32}
use kafscale.Protocol.Reader.{read_int32}
use kafscale.Protocol.Frame.{
  read_frame, write_frame, frames, IsPayload, read_frames, read_frames-frames,
}
use kafscale.Protocol.Request.Header.{RequestHeader}
use kafscale.Protocol.Request.{Request, parse_request}
use kafscale.Broker.Types.{Broker}
use kafscale.Broker.Handle.{handle}
use kafscale.Broker.Answers.{handle-correlation}
use kafscale.Broker.Server.{
  RequestHandler, Ending, Served, handle_connection, after_handle, Turn, Serving, broker_handler,
}
use kafscale.Protocol.Received.{read_frame-ok, parse_request-IsI32}

-- The correlation ids of the requests that the bytes of a connection hold, of n frames at most.
abbrev pub asked : ℕ → Bytes → List ℤ
asked zero bs = []
asked (suc n) bs = elim (read_frame bs) [
  | err e ↦ []
  | ok (payload, later) ↦ elim (parse_request payload) [
    | err e ↦ []
    | ok ((header, req), left) ↦ header.correlation_id ∷ asked n later
  ]
]

abbrev pub BeginsWith : ℤ → Bytes → Type 0
BeginsWith id p = (rest : Bytes) × (read_int32 p ≡ ok (id, rest))

-- The payloads begin with these ids in this order; an id may be without a payload.
abbrev pub InOrder : List ℤ → List Bytes → Type 0
InOrder ids [] = Unit {0}
InOrder [] (p ∷ ps) = ⊥
InOrder (id ∷ ids) (p ∷ ps) = (BeginsWith id p × InOrder ids ps) ⊎ InOrder ids (p ∷ ps)

-- What a handler must do for it: its responses begin with the correlation id of the request.
abbrev pub Correlates : {H : Type 0} → RequestHandler H → Type 0
Correlates handler =
    (header : RequestHeader)
    → (req : Request) → (h h' : _) → (bs : Bytes) → IsI32 header.correlation_id
    → handler.handle header req h ≡ some (h', ok (some bs))
    → BeginsWith header.correlation_id bs

InOrder-skip : (id : ℤ) (ids : List ℤ) (ps : List Bytes) → InOrder ids ps → InOrder (id ∷ ids) ps
InOrder-skip id ids [] o = tt
InOrder-skip id ids (p ∷ ps) o = inr o

frame_of : {bs bs' : Bytes} → Path (Option Bytes) (some bs) (some bs') → bs' ≡ bs
frame_of e = cc

write_frame-ok :
    (response frame : Bytes)
    → write_frame response ≡ some frame
    → (frame ≡ be32 (length response) ++ response) × IsPayload response
unfolding write_frame
write_frame-ok response frame e = elim (Bool-cases (ltb 2147483647 (length response))) [
  | inl large ↦ cc (rw (large, write_frame) at e)
  | inr fits ↦ (frame_of (rw (fits, write_frame) at e), ground arith)
]

written_of :
    {H : Type 0} {h h' : H} {bs bs' : Bytes} {ending ending' : Ending}
    → Path (Option (Served H)) (some (h, bs, ending)) (some (h', bs', ending'))
    → bs ≡ bs'
written_of e = cc

module _ {H : Type 0} (handler : RequestHandler H) where
  -- What the client reads of an end of the loop.
  abbrev Reads : ℕ → Type 0
  Reads n =
      (h h' : H)
      → (bs written : Bytes) → (ending : Ending) → Correlates handler
      → All IsByte bs
      → handle_connection handler n h bs ≡ some (h', written, ending)
      → (ps : List Bytes) × (written ≡ frames ps) × All IsPayload ps × InOrder (asked n bs) ps

  answered-InOrder :
      (n : ℕ) (header : RequestHeader) (req : Request) (h h' : H) (later written : Bytes)
      (ending : Ending)
      → Correlates handler
      → All IsByte later
      → IsI32 header.correlation_id
      → Reads n
      → after_handle handler header req h (λ h1. handle_connection handler n h1 later)
        ≡ some (h', written, ending)
      → (ps : List Bytes) × (written ≡ frames ps)
        × All IsPayload ps
        × InOrder (header.correlation_id ∷ asked n later) ps
  answered-InOrder n header req h h' later written ending law bytes id reads e =
      elim (Option-cases (handler.handle header req h)) [
        | inl never ↦ cc (rw (never, after_handle) at e)
        | inr ((h1, err x), out) ↦ ([], sym (written_of (rw (out, after_handle) at e)), tt, tt)
        | inr ((h1, ok none), out) ↦
            let (ps, is, fit, o) =
              reads h1 h' later written ending law bytes (rw (out, after_handle) at e) in
            (ps, is, fit, InOrder-skip header.correlation_id (asked n later) ps o)
        | inr ((h1, ok (some response)), out) ↦ elim (Option-cases (write_frame response)) [
          | inl large ↦ ([], sym (written_of (rw (out, after_handle, large) at e)), tt, tt)
          | inr (frame, framed) ↦ elim (Option-cases (handle_connection handler n h1 later)) [
            | inl never ↦ cc (rw (out, after_handle, framed, never) at e)
            | inr ((h2, rest, last), served) ↦
                let (ps, is, fit, o) = reads h1 h2 later rest last law bytes served in
                let (frame_is, small) = write_frame-ok response frame framed in
                (
                  response ∷ ps,
                  sym (written_of (rw (out, after_handle, framed, served) at e))
                      ∙ rw (frame_is, is)
                          (append_assoc (be32 (length response)) response (frames ps)),
                  (small, fit),
                  inl (law header req h h1 response id out, o),
                )
          ]
        ]
      ]

  handle_connection-InOrder :
      (n : ℕ) (h h' : H) (bs written : Bytes) (ending : Ending)
      → Correlates handler
      → All IsByte bs
      → handle_connection handler n h bs ≡ some (h', written, ending)
      → (ps : List Bytes) × (written ≡ frames ps) × All IsPayload ps × InOrder (asked n bs) ps
  unfolding handle_connection
  handle_connection-InOrder zero h h' bs written ending law bytes e = cc
  handle_connection-InOrder (suc n) h h' bs written ending law bytes e =
      elim (Result-cases (read_frame bs)) [
        | inr (x, none_read) ↦
            ([], sym (written_of (rw (none_read, handle_connection) at e)), tt, tt)
        | inl ((payload, later), got) ↦ elim (Result-cases (parse_request payload)) [
          | inr (x, bad) ↦ ([], sym (written_of (rw (got, handle_connection, bad) at e)), tt, tt)
          | inl (((header, req), left), parsed) ↦
              let (_, are_bytes) = read_frame-ok bs payload later got in
              let (payload_bytes, later_bytes) = are_bytes bytes in
              let id = parse_request-IsI32 payload left header req payload_bytes parsed in
              let (ps, is, fit, o) =
                answered-InOrder n header req h h' later written ending law later_bytes id
                  (handle_connection-InOrder n) (rw (got, handle_connection, parsed) at e) in
              (ps, is, fit, rw (got, asked, parsed) o)
        ]
      ]

-- The broker's responses begin with the correlation id of their request.
module _ {M S : Type 0} (b : Broker M S) (rounds : ℕ) where
  turn-Correlates :
      (header : RequestHeader) (req : Request) (s s' : Serving M S) (bs : Bytes)
      (turns : List (Turn M S))
      → s.turns ≡ turns
      → IsI32 header.correlation_id
      → (broker_handler b rounds).handle header req s ≡ some (s', ok (some bs))
      → BeginsWith header.correlation_id bs
  unfolding broker_handler
  turn-Correlates header req s s' bs [] none_left id e = cc (rw (none_left, broker_handler) at e)
  turn-Correlates header req s s' bs (t ∷ turns) next id e =
      elim (Option-cases (handle b rounds t.now t.wakes t.random header req (t.others s.handler))) [
        | inl never ↦ cc (rw (next, broker_handler, never) at e)
        | inr ((h', r), out) ↦
            let same : r ≡ ok (some bs) =
              (let answered = rw (next, broker_handler, out) at e in cc) in
            handle-correlation b rounds t.now t.wakes t.random header req (t.others s.handler) h' bs
              id (out ∙ ap (λ r. some (h', r)) same)
      ]

  broker_handler-Correlates : Correlates (broker_handler b rounds)
  broker_handler-Correlates header req s s' bs = turn-Correlates header req s s' bs s.turns refl

-- A client of the broker reads from its connection whole responses, each beginning with the correlation
-- id of one of its requests, in the order of the requests; some may be left without a response. What it
-- sends are bytes, and the loop of the connection has ended.
pub connection_answers :
    {M S : Type 0} (b : Broker M S) (rounds n : ℕ) (s s' : Serving M S) (bs written : Bytes)
    (ending : Ending)
    → All IsByte bs
    → handle_connection (broker_handler b rounds) n s bs ≡ some (s', written, ending)
    → (ps : List Bytes) × (read_frames (length ps) written ≡ ok (ps, [])) × InOrder (asked n bs) ps
connection_answers b rounds n s s' bs written ending bytes e =
    let (ps, is, fit, o) =
      handle_connection-InOrder (broker_handler b rounds) n s s' bs written ending
        (broker_handler-Correlates b rounds) bytes e in
    (ps, rw (is ∙ sym (append-nil (frames ps))) (read_frames-frames ps [] fit), o)
