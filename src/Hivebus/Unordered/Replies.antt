-- ===== src/Hivebus/Unordered/Replies.antt =====
-- No reply of the control plane of crates/hivebus/src/main.rs depends on the order of the table.
use hivebus.Prelude.{
  ℕ, ◌≡◌, ◌≢◌, refl, sym, ◌∙◌, inl, inr, Option-cases, none, some, [], ◌∷◌, ◌++◌, arith, nat_eq,
  ◌==◌, if◌then◌else◌, find_by_key, find_by_key-sort_by_key, IsStrict-ext, sort_by_key-IsStrict,
}
use hivebus.Result.{Result, ok, err}
use hivebus.Std.HashMap
use hivebus.Std.Time.{SystemTime}
use hivebus.Proto.Node.{NodeInfo}
use hivebus.Proto.Message.{ControlOp, ping, get_nodes, get_master, step_down, shutdown, custom}
use hivebus.Hivebus.Members.{Members, master_from, IsValid}
use hivebus.Hivebus.Control.{Local, local_node_info, is_self, list_nodes, find_master, answer}
use hivebus.Hivebus.Control.Replies.{id_of, values_distinct}
use hivebus.Hivebus.Unordered.{SameEntries}
use hivebus.Hivebus.Unordered.Updates.{master_from-SameEntries}

-- The element of a key among the values of a table and one more.
find_by_key-values :
    (self_id k : ℕ) (m : Members) (own : NodeInfo)
    → own.node_id ≡ self_id
    → HashMap.AllEntries (λ j n. (n.node_id ≡ j) × (j ≢ self_id)) m
    → find_by_key id_of k (HashMap.values m ++ own ∷ []) ≡ (elim (HashMap.get m k) [
      | none ↦ (if self_id == k then some own else none)
      | some n ↦ some n
    ])
unfolding find_by_key HashMap.get
find_by_key-values self_id k [] own is_own h = rw is_own refl
find_by_key-values self_id k ((j, n) ∷ m) own is_own h =
    ground (arith, h.0, find_by_key-values self_id k m own is_own h.1)

module _ (self : Local) (now : SystemTime) (m m' : Members) (same : SameEntries m m')
    (v : IsValid self.self_id m) (v' : IsValid self.self_id m') where
  same_master : master_from m self.self_id ≡ master_from m' self.self_id
  same_master = master_from-SameEntries self.self_id m m' same v v'

  list_nodes_same : list_nodes self now m ≡ list_nodes self now m'
  unfolding list_nodes local_node_info
  list_nodes_same =
      let own = local_node_info self now (is_self (master_from m' self.self_id) self.self_id) in
      let d = values_distinct self.self_id m own refl v.entries v.distinct in
      let d' = values_distinct self.self_id m' own refl v'.entries v'.distinct in
      rw same_master (
        IsStrict-ext id_of _ _ (sort_by_key-IsStrict id_of _ d) (sort_by_key-IsStrict id_of _ d')
          λ k.
            find_by_key-sort_by_key id_of k _ d
            ∙ (find_by_key-values self.self_id k m own refl v.entries
                ∙ (rw (same k) (sym (find_by_key-values self.self_id k m' own refl v'.entries))
                    ∙ sym (find_by_key-sort_by_key id_of k _ d'))))

  find_master_same : find_master self now m ≡ find_master self now m'
  unfolding find_master
  find_master_same = elim (Option-cases (master_from m' self.self_id)) [
    | inl e ↦ rw (find_master, same_master, e) refl
    | inr (id, e) ↦ rw (find_master, same_master, e, same id) refl
  ]

  pub answer_same : (op : Result ControlOp) → answer self now m op ≡ answer self now m' op
  unfolding answer
  answer_same (ok ping) = refl
  answer_same (ok get_nodes) = rw list_nodes_same refl
  answer_same (ok get_master) = rw find_master_same refl
  answer_same (ok shutdown) = refl
  answer_same (ok step_down) = refl
  answer_same (ok (custom tag payload)) = refl
  answer_same (err e) = refl
