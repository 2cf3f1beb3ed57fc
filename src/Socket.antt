-- ===== src/Socket.antt =====
-- One connection to a daemon's Unix socket. The same code stands in the `control_plane` of every
-- daemon: crates/hivebus/src/main.rs, crates/netop/src/main.rs, crates/netgate/src/main.rs,
-- crates/imager/src/main.rs, crates/orchestrator/src/main.rs and crates/pxeboot/src/main.rs.
-- A connection serves one request. What a daemon does with it is an argument.
pub mod Laws
pub mod Setup
use hivebus.Prelude.{ℕ, List}
use hivebus.Result.{Result}
use hivebus.Bincode.{Codec}
use hivebus.Proto.Message.{ControlOp, ControlReply}
use hivebus.Proto.Control.{
  Encoding, frame, failed, panic, encode_control, decode_control, payload, bad_marker, too_large,
  truncated, read_frame,
}

-- What a daemon does with a request: it replies, or the process exits.
pub data Answer : Type 0 where
  reply : ControlReply → Answer
  exit : Answer

-- How a connection ends: with the bytes of a reply, without any, with the exit of the process, or
-- with a panic of the task that serves it.
pub data Connection : Type 0 where
  replied : List ℕ → Connection
  closed : Connection
  exited : Connection
  panicked : Connection

pub record ControlCodecs : Type 0 where
  pub op : Codec ControlOp
  pub reply : Codec ControlReply

abbrev end_of : Encoding → Connection
end_of (frame bytes) = replied bytes
end_of (failed e) = closed
end_of panic = panicked

unfoldable pub finish : ControlCodecs → Answer → Connection
finish codecs (reply r) = end_of (encode_control codecs.reply r)
finish codecs exit = exited

module _ {S : Type 0} (codecs : ControlCodecs) (handle : Result ControlOp → S → Answer × S) where
  unfoldable pub serve : List ℕ → S → Connection × S
  serve stream s = elim (read_frame stream) [
    | payload bytes ↦
        let (answer, s') = handle (decode_control codecs.op bytes) s in (finish codecs answer, s')
    | bad_marker marker ↦ (closed, s)
    | too_large payload_len ↦ (closed, s)
    | truncated ↦ (closed, s)
  ]
