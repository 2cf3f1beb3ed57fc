-- ===== src/Hivectl/View/Laws.antt =====
-- The header of crates/hivectl/src/main.rs names the master of crates/hivebus/src/main.rs.
use hivebus.Prelude.{
  ℕ, ◌≡◌, ◌≢◌, refl, ◌∙◌, inl, inr, none, some, List, [], ◌∷◌, ◌++◌, arith, ◌==◌, nat_eq,
  if◌then◌else◌, insert_by_key, sort_by_key, Option-cases, beq_refl, ap, sym,
}
use hivebus.Std.HashMap
use hivebus.Std.Text.{str, decimal}
use hivebus.Std.Time.{SystemTime}
use hivebus.Proto.Node.{NodeInfo, alive}
use hivebus.Hivebus.Members.{Members, master_from, IsValid}
use hivebus.Hivebus.Members.Master.{master_from_lem}
use hivebus.Hivebus.Control.{Local, local_node_info, is_self, list_nodes}
use hivebus.Hivectl.View.{find_node, master_label}

abbrev id_of : NodeInfo → ℕ
id_of n = n.node_id

-- Sorting by identifier changes no search by identifier.
find_node-insert_by_key :
    (id : ℕ) (n : NodeInfo) (l : List NodeInfo)
    → find_node id (insert_by_key id_of n l) ≡ find_node id (n ∷ l)
unfolding find_node insert_by_key
find_node-insert_by_key id n [] = refl
find_node-insert_by_key id n (w ∷ l) = ground (arith, find_node-insert_by_key id n l)

find_node-sort_by_key :
    (id : ℕ) (l : List NodeInfo) → find_node id (sort_by_key id_of l) ≡ find_node id l
unfolding find_node sort_by_key
find_node-sort_by_key id [] = refl
find_node-sort_by_key id (n ∷ l) =
    find_node-insert_by_key id n (sort_by_key id_of l) ∙ (rw (find_node-sort_by_key id l) refl)

-- Behind the members stands the node itself.
find_node-values :
    (id self_id : ℕ) (own : NodeInfo) (m : Members)
    → HashMap.AllEntries (λ k n. (n.node_id ≡ k) × (k ≢ self_id)) m
    → find_node id (HashMap.values m ++ own ∷ []) ≡ (elim (HashMap.get m id) [
      | none ↦ (if own.node_id == id then some own else none)
      | some n ↦ some n
    ])
unfolding find_node HashMap.get
find_node-values id self_id own [] h = refl
find_node-values id self_id own ((k, n) ∷ m) h =
    ground (arith, h.0, find_node-values id self_id own m h.1)

absent_self : (self_id : ℕ) (m : Members) → IsValid self_id m → HashMap.get m self_id ≡ none
absent_self self_id m v = elim (Option-cases (HashMap.get m self_id)) [
  | inl e ↦ e
  | inr (n, found) ↦ absurd (
      (HashMap.AllEntries-get (λ k n. (n.node_id ≡ k) × (k ≢ self_id)) m self_id v.entries found).1
        refl)
]

find_listed :
    (self : Local) (now : SystemTime) (m : Members)
    → IsValid self.self_id m
    → (id : ℕ)
    → find_node id (list_nodes self now m) ≡ (elim (HashMap.get m id) [
      | none ↦
          (if self.self_id == id
            then some (local_node_info self now (is_self (master_from m self.self_id) self.self_id))
            else none)
      | some n ↦ some n
    ])
unfolding list_nodes local_node_info
find_listed self now m v id =
    let own = local_node_info self now (is_self (master_from m self.self_id) self.self_id) in
    find_node-sort_by_key id (HashMap.values m ++ own ∷ [])
    ∙ find_node-values id self.self_id own m v.entries

master_label-find_node :
    (n : NodeInfo) (nodes : List NodeInfo)
    → find_node n.node_id nodes ≡ some n
    → master_label (some n.node_id) nodes
      ≡ n.hostname ++ (str " (" ++ (decimal n.node_id ++ str ")"))
unfolding master_label
master_label-find_node n nodes found = rw (master_label, found) refl

-- The nodes and the master that a hivebus with a well-formed table reports give a header with the
-- name and the identifier of the elected node, which is Alive and among the nodes that are listed.
pub master_label-list_nodes :
    (self : Local) (now : SystemTime) (m : Members)
    → IsValid self.self_id m
    → (n : NodeInfo) × (master_from m self.self_id ≡ some n.node_id)
      × (find_node n.node_id (list_nodes self now m) ≡ some n)
      × (n.state ≡ alive)
      × (master_label (master_from m self.self_id) (list_nodes self now m)
          ≡ n.hostname ++ (str " (" ++ (decimal n.node_id ++ str ")")))
unfolding local_node_info
master_label-list_nodes self now m v =
    let (id, elected, candidate, _, _) = master_from_lem self.self_id m v in
    let own = local_node_info self now (is_self (master_from m self.self_id) self.self_id) in
    elim candidate [
      | inl e ↦
          let found : find_node self.self_id (list_nodes self now m) ≡ some own =
            find_listed self now m v self.self_id
            ∙ (rw (absent_self self.self_id m v, beq_refl) refl) in
          let elected' = rw e at elected in
          (own, elected', found, refl, rw elected' (master_label-find_node own _ found))
      | inr (n, entry, up) ↦
          let same =
            (HashMap.AllEntries-get (λ k n. (n.node_id ≡ k) × (k ≢ self.self_id)) m id v.entries
              entry).0 in
          let elected' : master_from m self.self_id ≡ some n.node_id =
            elected ∙ ap some (sym same) in
          let found : find_node n.node_id (list_nodes self now m) ≡ some n =
            find_listed self now m v n.node_id ∙ (rw (ap (HashMap.get m) same ∙ entry) refl) in
          (n, elected', found, up, rw elected' (master_label-find_node n _ found))
    ]
