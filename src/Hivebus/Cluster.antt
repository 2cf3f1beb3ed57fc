-- ===== src/Hivebus/Cluster.antt =====
-- A cluster of nodes that run crates/hivebus/src/main.rs while none of them leaves or is silent
-- for long, as one of them sees it.
pub mod Intact
pub mod Election
use hivebus.Prelude.{
  ℕ, ◌+◌, ◌^◌, ◌≤◌, ◌<◌, ◌≡◌, ◌≢◌, some, Bool, true, false, ◌||◌, List, [], ◌∷◌, ◌==◌, nat_eq, All,
}
use hivebus.Result.{ok}
use hivebus.Std.HashMap
use hivebus.Std.Net.{SocketAddr}
use hivebus.Std.Time.{SystemTime}
use hivebus.Proto.Frame.{new, heartbeat, announce, gossip}
use hivebus.Proto.Node.{NodeInfo, alive}
use hivebus.Proto.Payload.{HeartbeatPayload, AnnouncePayload, GossipPayload, GossipEntry}
use hivebus.Hivebus.Members.{Members}
use hivebus.Hivebus.Wire.{encode_frame}
use hivebus.Hivebus.Listener.{on_datagram}
use hivebus.Hivebus.Detector.{detect}
use hivebus.Hivebus.History.{Node}

unfoldable pub contains : List ℕ → ℕ → Bool
contains [] id = false
contains (x ∷ xs) id = x == id || contains xs id

-- Another node of the cluster, with an identifier of 16 bits.
pub record IsPeer (node : Node) (cluster : List ℕ) (nid : ℕ) : Type 0 where
  pub member : contains cluster nid ≡ true
  pub other : nid ≢ node.self_id
  pub fits : nid < 2 ^ 16

-- What a node of the cluster gossips of a node of the cluster.
abbrev pub IsGood : List ℕ → GossipEntry → Type 0
IsGood cluster entry = (entry.state ≡ alive) × (contains cluster entry.node_id ≡ true)

-- No member was last seen after `now` or more than the suspect threshold before.
abbrev pub InTime : Node → SystemTime → Members → Type 0
InTime node now m =
    (k : ℕ) (n : NodeInfo)
    → HashMap.get m k ≡ some n
    → (n.last_seen ≤ now) × (now ≤ n.last_seen + node.suspect_threshold)

-- The tables that the node comes to, with the peers of which it received a heartbeat or an
-- announcement: heartbeats, announcements and gossip of its peers, datagrams that are ignored, and
-- turns of the failure detector that come in time.
pub data Healthy (node : Node) (cluster : List ℕ) : List ℕ → Members → Type 0 where
  alone : Healthy node cluster [] []
  beat :
      {ids : List ℕ} {m : Members} (now : SystemTime) (from : SocketAddr) (seq nid : ℕ)
      (pl : HeartbeatPayload) (buf : List ℕ)
      → Healthy node cluster ids m
      → IsPeer node cluster nid
      → seq < 256
      → encode_frame node.codecs.heartbeat (new heartbeat seq nid) pl ≡ ok buf
      → Healthy node cluster (nid ∷ ids) (on_datagram node.codecs node.self_id now from buf m).0
  joined :
      {ids : List ℕ} {m : Members} (now : SystemTime) (from : SocketAddr) (seq nid : ℕ)
      (pl : AnnouncePayload) (buf : List ℕ)
      → Healthy node cluster ids m
      → IsPeer node cluster nid
      → seq < 256
      → encode_frame node.codecs.announce (new announce seq nid) pl ≡ ok buf
      → Healthy node cluster (nid ∷ ids) (on_datagram node.codecs node.self_id now from buf m).0
  gossiped :
      {ids : List ℕ} {m : Members} (now : SystemTime) (from : SocketAddr) (seq nid : ℕ)
      (pl : GossipPayload) (buf : List ℕ)
      → Healthy node cluster ids m
      → IsPeer node cluster nid
      → seq < 256
      → All (IsGood cluster) pl.entries
      → encode_frame node.codecs.gossip (new gossip seq nid) pl ≡ ok buf
      → Healthy node cluster ids (on_datagram node.codecs node.self_id now from buf m).0
  ignored :
      {ids : List ℕ} {m : Members} (now : SystemTime) (from : SocketAddr) (datagram : List ℕ)
      → Healthy node cluster ids m
      → (on_datagram node.codecs node.self_id now from datagram m).0 ≡ m
      → Healthy node cluster ids m
  turned :
      {ids : List ℕ} {m : Members} (now : SystemTime)
      → Healthy node cluster ids m
      → InTime node now m
      → Healthy node cluster ids
          (detect node.self_id node.suspect_threshold node.dead_threshold now m)
