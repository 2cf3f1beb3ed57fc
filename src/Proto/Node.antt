-- ===== src/Proto/Node.antt =====
-- The node state and `NodeInfo` of crates/proto/src/lib.rs.
use hivebus.Prelude.{ℕ, Bool, true, false, none, some, ltb}
use hivebus.Std.Text.{Str}
use hivebus.Std.Net.{SocketAddr}
use hivebus.Std.Time.{SystemTime, Duration, duration_since}

pub data NodeState : Type 0 where
  alive suspect dead : NodeState

-- `==` of `NodeState`
abbrev pub state_eq : NodeState → NodeState → Bool
state_eq alive alive = true
state_eq suspect suspect = true
state_eq dead dead = true
state_eq _ _ = false

pub record NodeInfo : Type 0 where
  pub node_id : ℕ
  pub hostname : Str
  pub control_addr : SocketAddr
  pub state : NodeState
  pub incarnation : ℕ
  pub last_seen : SystemTime
  pub is_master : Bool

-- `elapsed` is the time from `last_seen` to now, an error if the clock has gone back.
unfoldable pub is_timed_out : SystemTime → NodeInfo → Duration → Bool
is_timed_out now node dead_threshold = elim (duration_since now node.last_seen) [
  | some e ↦ ltb dead_threshold e
  | none ↦ true
]
