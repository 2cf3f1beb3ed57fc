-- ===== src/Tests/Hivebus/Serving.antt =====
-- Concrete inputs for the control plane and the sending tasks of crates/hivebus/src/main.rs.
use mathlib.Core.List.{Perm}
use hivebus.Prelude.{◌≡◌, List, [], ◌∷◌, ◌++◌, IsStrict, nat_eq}
use hivebus.Result.{ok}
use hivebus.Std.HashMap
use hivebus.Std.Text.{str}
use hivebus.Proto.Node.{NodeInfo}
use hivebus.Proto.Message.{get_nodes, nodes}
use hivebus.Hivebus.Members.{master_from}
use hivebus.Hivebus.Control.{Local, local_node_info, is_self, answer}
use hivebus.Hivebus.Control.Replies.{get_nodes_lem}
use hivebus.Socket.{reply}
use hivebus.Tests.Data.{addr, later, table, table-IsValid}

abbrev self : Local
self = record {
  self_id = 5;
  self_hostname = str "five";
  self_control_addr = addr 5;
  incarnation = 1;
}

get_nodes_lem_example :
    (l : List NodeInfo) × (answer self later table (ok get_nodes) ≡ reply (nodes l))
    × IsStrict (λ n. n.node_id) l
    × Perm l
        (HashMap.values table ++ local_node_info self later (is_self (master_from table 5) 5) ∷ [])
get_nodes_lem_example = get_nodes_lem self later table table-IsValid
