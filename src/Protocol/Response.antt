-- ===== src/Protocol/Response.antt =====
-- The encoders of pkg/protocol/response.go.
pub mod Data
pub mod Groups
pub mod Topics
pub mod Correlation
use kafscale.Base.{ℕ, List, ◌++◌, Option, none, some, ltb, if◌then◌else◌, length}
use kafscale.Base.Int.{pos}
use kafscale.Base.Bytes.{Bytes}
use kafscale.Protocol.Writer.{write_int32}

-- The frame of a response; `none` is the error for a payload that is too large.
unfoldable pub encode_response : Bytes → Option Bytes
encode_response payload =
    if ltb 2147483647 (length payload)
    then none
    else some (write_int32 (pos (length payload)) ++ payload)
