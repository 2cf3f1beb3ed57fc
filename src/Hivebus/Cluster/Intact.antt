-- ===== src/Hivebus/Cluster/Intact.antt =====
-- The table of a node of crates/hivebus/src/main.rs in a healthy cluster, through what it receives.
use hivebus.Prelude.{
  ℕ, ◌≡◌, refl, ◌∙◌, inl, inr, Option, none, some, true, List, [], ◌∷◌, ◌==◌, nat_eq, All, arith,
  Bool-cases, if◌then◌else◌,
}
use hivebus.Std.HashMap
use hivebus.Std.HashMap.{get-insert}
use hivebus.Std.Net.{SocketAddr}
use hivebus.Std.Time.{SystemTime}
use hivebus.Proto.Node.{NodeInfo, alive}
use hivebus.Proto.Payload.{GossipEntry}
use hivebus.Hivebus.Members.{Members}
use hivebus.Hivebus.Listener.{merge_entry, on_gossip}
use hivebus.Hivebus.Listener.Peers.{merged, get-merge_entry}
use hivebus.Hivebus.Cluster.{contains, IsGood}

-- Who was heard is in the table, and all in it are Alive nodes of the cluster.
pub record IsIntact (cluster ids : List ℕ) (m : Members) : Type 0 where
  pub known : (k : ℕ) → contains ids k ≡ true → (n : NodeInfo) × (HashMap.get m k ≡ some n)
  pub up :
      (k : ℕ) (n : NodeInfo)
      → HashMap.get m k ≡ some n
      → (n.state ≡ alive) × (contains cluster k ≡ true)

-- One entry that is put into the table.
pub insert-IsIntact :
    {cluster ids : List ℕ} (m m' : Members) (nid : ℕ) (n' : NodeInfo)
    → n'.state ≡ alive
    → contains cluster nid ≡ true
    → ((k : ℕ) → HashMap.get m' k ≡ (if nid == k then some n' else HashMap.get m k))
    → IsIntact cluster ids m
    → IsIntact cluster (nid ∷ ids) m'
unfolding contains
insert-IsIntact {cluster} {ids} m m' nid n' is_up member after i = record {
  known = λ k h. elim (Bool-cases (nid == k)) [
    | inl p ↦ (n', after k ∙ (rw p refl))
    | inr p ↦ let (n, at) = i.known k (ground arith) in (n, after k ∙ (rw p at))
  ];
  up = λ k n at. elim (Bool-cases (nid == k)) [
    | inl p ↦ ground (arith, after k)
    | inr p ↦ i.up k n (ground (arith, after k))
  ];
}

fewer-IsIntact :
    {cluster ids : List ℕ} {nid : ℕ} (m : Members)
    → IsIntact cluster (nid ∷ ids) m
    → IsIntact cluster ids m
unfolding contains
fewer-IsIntact {cluster} {ids} {nid} m i = record {
  known = λ k h. i.known k (ground arith);
  up = i.up;
}

merged-up :
    (now : SystemTime) (from : SocketAddr) (entry : GossipEntry) (o : Option NodeInfo)
    → entry.state ≡ alive
    → ((n : NodeInfo) → o ≡ some n → n.state ≡ alive)
    → (merged now from entry o).state ≡ alive
merged-up now from entry none good up = good
merged-up now from entry (some n) good up = ground (arith, up n refl)

pub on_gossip-IsIntact :
    {cluster ids : List ℕ} (self_id : ℕ) (now : SystemTime) (from : SocketAddr)
    (entries : List GossipEntry) (m : Members)
    → All (IsGood cluster) entries
    → IsIntact cluster ids m
    → IsIntact cluster ids (on_gossip self_id now from entries m)
unfolding on_gossip merge_entry
on_gossip-IsIntact self_id now from [] m good i = i
on_gossip-IsIntact {cluster} {ids} self_id now from (entry ∷ entries) m good i =
    on_gossip-IsIntact self_id now from entries (merge_entry self_id now from m entry) good.1
      (elim (Bool-cases (entry.node_id == self_id)) [
        | inl p ↦ rw (p, merge_entry) i
        | inr p ↦ fewer-IsIntact {nid = entry.node_id} _ (
            insert-IsIntact m _ entry.node_id (merged now from entry (HashMap.get m entry.node_id))
              (merged-up now from entry (HashMap.get m entry.node_id) good.0.0
                (λ n at. (i.up entry.node_id n at).0))
              good.0.1 (λ k. ground (arith, get-merge_entry self_id now from m entry k)) i)
      ])
