-- ===== src/Hivebus/Control/Replies.antt =====
-- The replies of the control plane of crates/hivebus/src/main.rs about the cluster.
use mathlib.Core.List.{Perm}
use hivebus.Prelude.{
  ℕ, ◌≤◌, ◌≡◌, ◌≢◌, inl, inr, refl, none, some, true, List, [], ◌∷◌, ◌++◌, arith, nat_eq, All,
  All-append, IsStrict, HasDistinctKeys, sort_by_key-IsStrict, sort_by_key-perm,
}
use hivebus.Result.{ok}
use hivebus.Std.HashMap
use hivebus.Std.Time.{SystemTime}
use hivebus.Proto.Node.{NodeInfo, alive}
use hivebus.Proto.Message.{get_nodes, get_master, nodes, master}
use hivebus.Hivebus.Members.{Members, master_from, IsValid}
use hivebus.Hivebus.Members.Master.{master_from_lem}
use hivebus.Hivebus.Control.{Local, local_node_info, is_self, list_nodes, find_master, answer}
use hivebus.Socket.{reply}

abbrev pub id_of : NodeInfo → ℕ
id_of n = n.node_id

-- No value of a table without `k` has the identifier `k`.
pub values_avoid :
    (self_id k : ℕ) (m : Members)
    → HashMap.AllEntries (λ j n. (n.node_id ≡ j) × (j ≢ self_id)) m
    → HashMap.get m k ≡ none
    → All (λ n. k ≢ n.node_id) (HashMap.values m)
unfolding HashMap.get
values_avoid self_id k [] h fresh = tt
values_avoid self_id k ((j, n) ∷ m) h fresh =
    (ground (arith, h.0), values_avoid self_id k m h.1 (ground arith))

pub values_distinct :
    (self_id : ℕ) (m : Members) (own : NodeInfo)
    → own.node_id ≡ self_id
    → HashMap.AllEntries (λ j n. (n.node_id ≡ j) × (j ≢ self_id)) m
    → HashMap.IsDistinct m
    → HasDistinctKeys id_of (HashMap.values m ++ own ∷ [])
values_distinct self_id [] own is_own h d = (tt, tt)
values_distinct self_id ((j, n) ∷ m) own is_own h d = (
  All-append _ (HashMap.values m) (own ∷ []) (rw h.0.0 (values_avoid self_id j m h.1 d.0))
      (ground (arith, h.0), tt),
  values_distinct self_id m own is_own h.1 d.1,
)

-- The reply to `GetNodes` of a well-formed table lists every member and the node itself, each as
-- often as it is there, in strictly ascending order of the identifiers.
pub get_nodes_lem :
    (self : Local) (now : SystemTime) (m : Members)
    → IsValid self.self_id m
    → (l : List NodeInfo) × (answer self now m (ok get_nodes) ≡ reply (nodes l))
      × IsStrict id_of l
      × Perm l (
          HashMap.values m
          ++ local_node_info self now (is_self (master_from m self.self_id) self.self_id) ∷ [])
unfolding answer list_nodes
get_nodes_lem self now m v =
    let own = local_node_info self now (is_self (master_from m self.self_id) self.self_id) in
    (
      list_nodes self now m,
      refl,
      sort_by_key-IsStrict id_of _ (
          values_distinct self.self_id m own (unfold local_node_info in refl) v.entries v.distinct),
      sort_by_key-perm id_of _,
    )

-- On a well-formed table the reply to `GetMaster` is a node, never nothing. It is Alive, it is the
-- one that the election gives, and its identifier is at most the node's own and every Alive
-- member's.
pub get_master_lem :
    (self : Local) (now : SystemTime) (m : Members)
    → IsValid self.self_id m
    → (n : NodeInfo) × (answer self now m (ok get_master) ≡ reply (master (some n)))
      × (n.state ≡ alive)
      × (master_from m self.self_id ≡ some n.node_id)
      × (n.node_id ≤ self.self_id)
      × ((k : ℕ) (w : NodeInfo) → HashMap.get m k ≡ some w → w.state ≡ alive → n.node_id ≤ k)
unfolding answer find_master local_node_info
get_master_lem self now m v =
    let (id, elected, candidate, low, least) = master_from_lem self.self_id m v in
    elim candidate [
      | inl e ↦ (
        local_node_info self now true,
        rw (answer, find_master, elected, e) (ground arith),
        refl,
        rw (elected, e),
        omega arith,
        (λ k w found up. omega (arith, e, least k w found up)),
      )
      | inr (n, found, up) ↦
          let entry =
            HashMap.AllEntries-get (λ j w. (w.node_id ≡ j) × (j ≢ self.self_id)) m id v.entries
              found in
          (
            n,
            rw (answer, find_master, elected) (ground (arith, entry.1)),
            up,
            rw (elected, entry.0),
            omega (arith, entry.0, low),
            (λ k w found' up'. omega (arith, entry.0, least k w found' up')),
          )
    ]
