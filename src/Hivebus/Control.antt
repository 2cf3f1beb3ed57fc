-- ===== src/Hivebus/Control.antt =====
-- `control_plane_task` of crates/hivebus/src/main.rs: the requests that the daemon answers.
pub mod Replies
use hivebus.Prelude.{
  ℕ, Option, none, some, Bool, true, false, List, [], ◌∷◌, ◌++◌, ◌==◌, nat_eq, sort_by_key,
  if◌then◌else◌,
}
use hivebus.Result.{Result, ok, err}
use hivebus.Std.HashMap
use hivebus.Std.Net.{SocketAddr}
use hivebus.Std.Text.{Str, str}
use hivebus.Std.Time.{SystemTime}
use hivebus.Proto.Node.{NodeInfo, alive}
use hivebus.Proto.Message.{
  ControlOp, ping, get_nodes, get_master, step_down, shutdown, custom, ControlReply, error, nodes,
  master,
}
use hivebus.Proto.Message
use hivebus.Hivebus.Members.{Members, master_from}
use hivebus.Socket.{ControlCodecs, Answer, reply, exit, Connection, serve}

-- What the daemon knows of its own node.
pub record Local : Type 0 where
  pub self_id : ℕ
  pub self_hostname : Str
  pub self_control_addr : SocketAddr
  pub incarnation : ℕ

unfoldable pub local_node_info : Local → SystemTime → Bool → NodeInfo
local_node_info self now is_master = record {
  node_id = self.self_id;
  hostname = self.self_hostname;
  control_addr = self.self_control_addr;
  state = alive;
  incarnation = self.incarnation;
  last_seen = now;
  is_master = is_master;
}

-- `master_id == Some(self_id)`
abbrev pub is_self : Option ℕ → ℕ → Bool
is_self none self_id = false
is_self (some id) self_id = id == self_id

module _ (self : Local) (now : SystemTime) (members : Members) where
  unfoldable pub list_nodes : List NodeInfo
  unfolding local_node_info sort_by_key
  list_nodes =
      let own =
        local_node_info self now (is_self (master_from members self.self_id) self.self_id) in
      sort_by_key (λ n. n.node_id) (HashMap.values members ++ own ∷ [])

  abbrev node_of : Option ℕ → Option NodeInfo
  node_of none = none
  node_of (some id) =
      if id == self.self_id then some (local_node_info self now true) else HashMap.get members id

  unfoldable pub find_master : Option NodeInfo
  find_master = node_of (master_from members self.self_id)

  unfoldable pub answer : Result ControlOp → Answer
  answer (ok ping) = reply Message.ok
  answer (ok get_nodes) = reply (nodes list_nodes)
  answer (ok get_master) = reply (master find_master)
  answer (ok shutdown) = exit
  answer (err e) = reply (error e)
  answer (ok step_down) = reply (error (str "unsupported op"))
  answer (ok (custom tag payload)) = reply (error (str "unsupported op"))

-- One connection. No request changes the table.
unfoldable pub serve_hivebus :
    ControlCodecs → Local → SystemTime → List ℕ → Members → Connection × Members
serve_hivebus codecs self now = serve codecs (λ op members. (answer self now members op, members))
