-- ===== src/Hivebus/Members.antt =====
-- The membership table of crates/hivebus/src/main.rs and the election of the master.
pub mod Master
use mathlib.Core.List.{head?}
use hivebus.Prelude.{ℕ, ◌≡◌, ◌≢◌, Option, List, [], ◌∷◌, ◌++◌, map, filter, sort_by_key, nat_eq}
use hivebus.Std.HashMap
use hivebus.Std.HashMap.{HashMap}
use hivebus.Proto.Node.{NodeInfo, alive, state_eq}

abbrev pub Members : Type 0
Members = HashMap ℕ NodeInfo

-- The identifiers of the members that are Alive, in the order of the table.
unfoldable pub alive_ids : Members → List ℕ
unfolding filter
alive_ids members =
    map (λ n. n.node_id) (filter (λ n. state_eq n.state alive) (HashMap.values members))

unfoldable pub master_from : Members → ℕ → Option ℕ
unfolding alive_ids sort_by_key
master_from members self_id = head? (sort_by_key (λ id. id) (alive_ids members ++ self_id ∷ []))

-- Every entry stands under its own identifier, no identifier stands twice, and the node itself is
-- not in its table.
pub record IsValid (self_id : ℕ) (members : Members) : Type 0 where
  pub entries : HashMap.AllEntries (λ k n. (n.node_id ≡ k) × (k ≢ self_id)) members
  pub distinct : HashMap.IsDistinct members
