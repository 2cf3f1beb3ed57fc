-- ===== src/Hivebus/Listener/Peers.antt =====
-- What each message of crates/hivebus/src/main.rs does to a peer, seen through lookups.
use hivebus.Prelude.{
  All, ◌<◌, ◌∙◌, ℕ, ◌≤◌, ◌≡◌, inl, inr, refl, Option, none, some, List, [], ◌∷◌, arith, leb, nat_eq,
  ◌==◌, if◌then◌else◌, Option-cases,
}
use hivebus.Std.HashMap
use hivebus.Std.HashMap.{get-insert}
use hivebus.Std.Net.{SocketAddr}
use hivebus.Std.Time.{SystemTime}
use hivebus.Proto.Payload.{HeartbeatPayload, GossipEntry}
use hivebus.Proto.Node.{NodeInfo, alive, dead}
use hivebus.Hivebus.Members.{Members}
use hivebus.Hivebus.Listener.{new_peer, on_heartbeat, on_leave, merge_entry, on_gossip}

-- The peer after a heartbeat.
abbrev pub heard : SystemTime → SocketAddr → ℕ → HeartbeatPayload → Option NodeInfo → NodeInfo
heard now from nid pl none = new_peer nid from alive pl.incarnation now
heard now from nid pl (some n) = record n {
  state = alive;
  incarnation = pl.incarnation;
  last_seen = now;
}

-- A heartbeat makes its sender Alive, with the heartbeat's incarnation and seen now. A known peer
-- keeps its name, address and master flag, an unknown one is added, and no other entry changes.
pub get-on_heartbeat :
    (now : SystemTime) (from : SocketAddr) (nid : ℕ) (pl : HeartbeatPayload) (m : Members) (k : ℕ)
    → HashMap.get (on_heartbeat now from nid pl m) k
      ≡ (if nid == k then some (heard now from nid pl (HashMap.get m nid)) else HashMap.get m k)
unfolding on_heartbeat HashMap.or_insert
get-on_heartbeat now from nid pl m k = elim (Option-cases (HashMap.get m nid)) [
  | inl e ↦ rw (e, HashMap.or_insert) (simp get-insert (ground arith))
  | inr (n, e) ↦ rw (e, HashMap.or_insert) (simp get-insert (ground arith))
]

pub get-on_leave :
    (nid : ℕ) (m : Members) (k : ℕ)
    → HashMap.get (on_leave nid m) k ≡ (
        if nid == k
        then (elim (HashMap.get m nid) [ none ↦ none | some n ↦ some (record n { state = dead }) ])
        else HashMap.get m k)
unfolding on_leave
get-on_leave nid m k = HashMap.get-update m nid k _

-- The peer after one entry of a gossip frame.
abbrev pub merged : SystemTime → SocketAddr → GossipEntry → Option NodeInfo → NodeInfo
merged now from entry none = new_peer entry.node_id from entry.state entry.incarnation now
merged now from entry (some n) =
    if leb n.incarnation entry.incarnation
    then record n { state = entry.state; incarnation = entry.incarnation }
    else n

pub get-merge_entry :
    (self_id : ℕ) (now : SystemTime) (from : SocketAddr) (m : Members) (entry : GossipEntry) (k : ℕ)
    → HashMap.get (merge_entry self_id now from m entry) k ≡ (
        if entry.node_id == self_id
        then HashMap.get m k
        else if entry.node_id == k
        then some (merged now from entry (HashMap.get m entry.node_id))
        else HashMap.get m k)
unfolding merge_entry HashMap.or_insert
get-merge_entry self_id now from m entry k = elim (Option-cases (HashMap.get m entry.node_id)) [
  | inl e ↦
      let fresh = merged now from entry none in
      rw (e, HashMap.or_insert)
        (ground (
          arith,
          get-insert m entry.node_id k fresh,
          get-insert (HashMap.insert m entry.node_id fresh) entry.node_id k fresh,
        ))
  | inr (n, e) ↦
      rw (e, HashMap.or_insert)
        (ground (arith, get-insert m entry.node_id k (merged now from entry (some n))))
]

-- What a gossip frame leaves of a known peer: it was last seen when it was, under the name, the
-- address and the master flag that it had, and its incarnation has not gone down.
pub record Keeps (n n' : NodeInfo) : Type 0 where
  pub last_seen : n'.last_seen ≡ n.last_seen
  pub hostname : n'.hostname ≡ n.hostname
  pub control_addr : n'.control_addr ≡ n.control_addr
  pub is_master : n'.is_master ≡ n.is_master
  pub incarnation : n.incarnation ≤ n'.incarnation

Keeps-trans : {a b c : NodeInfo} → Keeps a b → Keeps b c → Keeps a c
Keeps-trans p q = record {
  last_seen = q.last_seen ∙ p.last_seen;
  hostname = q.hostname ∙ p.hostname;
  control_addr = q.control_addr ∙ p.control_addr;
  is_master = q.is_master ∙ p.is_master;
  incarnation = omega arith;
}

module _ (self_id : ℕ) (now : SystemTime) (from : SocketAddr) where
  -- A known peer after one entry.
  after_entry : GossipEntry → ℕ → NodeInfo → NodeInfo
  after_entry entry k n =
      if entry.node_id == self_id
      then n
      else if entry.node_id == k
      then merged now from entry (some n)
      else n

  after_entry-Keeps : (entry : GossipEntry) (k : ℕ) (n : NodeInfo) → Keeps n (after_entry entry k n)
  unfolding after_entry
  after_entry-Keeps entry k n = ground arith

  merge_entry-Keeps :
      (m : Members) (entry : GossipEntry) (k : ℕ) (n : NodeInfo)
      → HashMap.get m k ≡ some n
      → (n' : NodeInfo) × (HashMap.get (merge_entry self_id now from m entry) k ≡ some n')
        × Keeps n n'
  merge_entry-Keeps m entry k n known = (
    after_entry entry k n,
    unfold after_entry in ground (arith, get-merge_entry self_id now from m entry k),
    after_entry-Keeps entry k n,
  )

  -- A gossip frame removes no peer. Of every peer that is known, it leaves the time it was last
  -- seen, its name, its address and its master flag, and it never lowers its incarnation.
  pub on_gossip-Keeps :
      (entries : List GossipEntry) (m : Members) (k : ℕ) (n : NodeInfo)
      → HashMap.get m k ≡ some n
      → (n' : NodeInfo) × (HashMap.get (on_gossip self_id now from entries m) k ≡ some n')
        × Keeps n n'
  unfolding on_gossip
  on_gossip-Keeps [] m k n known = (
    n,
    known,
    record {
      last_seen = refl;
      hostname = refl;
      control_addr = refl;
      is_master = refl;
      incarnation = omega arith;
    },
  )
  on_gossip-Keeps (entry ∷ entries) m k n known =
      let (n1, found, keeps) = merge_entry-Keeps m entry k n known in
      let (n2, found', keeps') =
        on_gossip-Keeps entries (merge_entry self_id now from m entry) k n1 found in
      (n2, found', Keeps-trans keeps keeps')

  -- A gossip frame whose entries about a known peer all carry an older incarnation changes nothing
  -- of that peer.
  pub on_gossip_stale :
      (entries : List GossipEntry) (m : Members) (k : ℕ) (n : NodeInfo)
      → HashMap.get m k ≡ some n
      → All (λ e. e.node_id ≡ k → e.incarnation < n.incarnation) entries
      → HashMap.get (on_gossip self_id now from entries m) k ≡ some n
  unfolding on_gossip
  on_gossip_stale [] m k n known old = known
  on_gossip_stale (entry ∷ entries) m k n known old =
      on_gossip_stale entries (merge_entry self_id now from m entry) k n
        (ground (arith, get-merge_entry self_id now from m entry k, old.0)) old.1
