-- ===== src/Proto/Payload.antt =====
-- The payloads of the discovery frames of crates/proto/src/lib.rs.
use hivebus.Prelude.{ℕ, Bool, List}
use hivebus.Std.Text.{Str}
use hivebus.Std.Net.{SocketAddr}
use hivebus.Proto.Node.{NodeState}

pub record HeartbeatPayload : Type 0 where
  pub incarnation : ℕ
  pub epoch_ms : ℕ

pub record AnnouncePayload : Type 0 where
  pub incarnation : ℕ
  pub hostname : Str
  pub control_addr : SocketAddr
  pub version : Str

pub record LeavePayload : Type 0 where
  pub incarnation : ℕ
  pub reason : Str

pub record GossipEntry : Type 0 where
  pub node_id : ℕ
  pub incarnation : ℕ
  pub state : NodeState
  pub epoch_ms : ℕ

pub record GossipPayload : Type 0 where
  pub entries : List GossipEntry

pub record VoteRequestPayload : Type 0 where
  pub term : ℕ
  pub candidate_id : ℕ
  pub last_log_index : ℕ
  pub last_log_term : ℕ

pub record VoteGrantPayload : Type 0 where
  pub term : ℕ
  pub granted : Bool
