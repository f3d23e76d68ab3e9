-- ===== src/Protocol/Frame.antt =====
-- pkg/protocol/frame.go: frames with their size in front, over a stream of bytes. A stream that ends
-- inside a frame, or before it, is an error of io.ReadFull.
use kafscale.Base.{
  ℕ, zero, suc, ◌<◌, ◌≡◌, refl, List, [], ◌∷◌, ◌++◌, Option, none, some, ok, ltb, if◌then◌else◌,
  length, arith, ◌∙◌,
}
use mathlib.Core.List.{append_assoc}
use kafscale.Base.Int.{pos, ltb_ℤ, signed32}
use kafscale.Base.Bytes.{Bytes, All, be32, uint, uint-be32}
use kafscale.Protocol.Reader.{
  Reader, ◌>>=◌, ◌>>◌, done, fail_when, read, read_int32, invalid_length, bind_ok,
}
use kafscale.Protocol.RoundTrip.{read-append, not_negative}

unfoldable pub read_frame : Reader Bytes
read_frame = do l ← read_int32; fail_when (ltb_ℤ l (pos 0)) invalid_length; read l

-- `none` is the error for a payload that is too large.
unfoldable pub write_frame : Bytes → Option Bytes
write_frame payload =
    if ltb 2147483647 (length payload) then none else some (be32 (length payload) ++ payload)

abbrev pub IsPayload : Bytes → Type 0
IsPayload p = length p < 2147483648

-- What a connection carries after the payloads are written one by one.
abbrev pub frames : List Bytes → Bytes
frames [] = []
frames (p ∷ ps) = be32 (length p) ++ (p ++ frames ps)

-- The frames that the loop of handleConnection in pkg/broker/server.go gets, n of them at most.
unfoldable pub read_frames : ℕ → Reader (List Bytes)
read_frames zero = done []
read_frames (suc n) = do p ← read_frame; ps ← read_frames n; done (p ∷ ps)

read_int32-be32 :
    (n : ℕ) (rest : Bytes) → n < 2147483648 → read_int32 (be32 n ++ rest) ≡ ok (pos n, rest)
unfolding read_int32 signed32 be32
read_int32-be32 n rest h =
    bind_ok (read (pos 4)) (λ b. done (signed32 (uint b))) (read-append (be32 n) rest)
    ∙ rw (uint-be32 n (omega arith)) (ground arith)

read_frame-append :
    (p rest : Bytes) → IsPayload p → read_frame (be32 (length p) ++ (p ++ rest)) ≡ ok (p, rest)
unfolding read_frame
read_frame-append p rest h =
    rw (read_int32-be32 (length p) (p ++ rest) h, read_frame, ◌>>=◌)
      (rw (not_negative (length p)) (read-append p rest))

-- The payloads that were written to a connection, each of less than 2^31 bytes, are read from it in
-- the same order, and what follows them is left.
pub read_frames-frames :
    (ps : List Bytes) (rest : Bytes)
    → All IsPayload ps
    → read_frames (length ps) (frames ps ++ rest) ≡ ok (ps, rest)
unfolding read_frames
read_frames-frames [] rest h = refl
read_frames-frames (p ∷ ps) rest h =
    rw (append_assoc (be32 (length p)) (p ++ frames ps) rest, append_assoc p (frames ps) rest)
      (bind_ok read_frame (λ q. do qs ← read_frames (length ps); done (q ∷ qs))
          (read_frame-append p (frames ps ++ rest) h.0)
        ∙ bind_ok (read_frames (length ps)) (λ qs. done (p ∷ qs)) (read_frames-frames ps rest h.1))
