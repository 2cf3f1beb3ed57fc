-- ===== src/Proto/Message.antt =====
-- The requests and replies of the control plane, of crates/proto/src/lib.rs.
use hivebus.Prelude.{ℕ, Option, List}
use hivebus.Std.Text.{Str}
use hivebus.Proto.Node.{NodeInfo}

pub data ControlOp : Type 0 where
  ping get_nodes get_master step_down shutdown : ControlOp
  custom : Str → List ℕ → ControlOp

pub data ControlReply : Type 0 where
  ok : ControlReply
  error : Str → ControlReply
  nodes : List NodeInfo → ControlReply
  master : Option NodeInfo → ControlReply
  reply_data : Str → List ℕ → ControlReply
