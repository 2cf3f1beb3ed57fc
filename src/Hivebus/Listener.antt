-- ===== src/Hivebus/Listener.antt =====
-- `listener_task` of crates/hivebus/src/main.rs: what one datagram does to the membership table.
-- The clock is read once for each datagram; a warning that is logged is a value.
pub mod Peers
pub mod Laws
pub mod Delivery
use hivebus.Prelude.{
  ℕ, Option, none, some, Bool, true, false, not, ◌||◌, List, [], ◌∷◌, ◌++◌, leb, ◌==◌, nat_eq,
  bytes_eq, take, drop, if◌then◌else◌,
}
use hivebus.Result.{Result, ok, err}
use hivebus.Bincode.{Codec}
use hivebus.Std.HashMap
use hivebus.Std.Net.{SocketAddr, addr_eq}
use hivebus.Std.Text.{Str, str}
use hivebus.Std.Text.Hex.{hex_word}
use hivebus.Std.Time.{SystemTime}
use hivebus.Proto.Frame.{
  MsgType, heartbeat, announce, leave, ack, gossip, vote_request, vote_grant, FrameHeader,
  from_bytes, msg_type, node_id,
}
use hivebus.Proto.Payload.{
  HeartbeatPayload, AnnouncePayload, LeavePayload, GossipPayload, GossipEntry,
}
use hivebus.Proto.Node.{NodeInfo, NodeState, alive, dead}
use hivebus.Hivebus.Members.{Members}

-- How each payload is written and read.
pub record Codecs : Type 0 where
  pub heartbeat : Codec HeartbeatPayload
  pub announce : Codec AnnouncePayload
  pub leave : Codec LeavePayload
  pub gossip : Codec GossipPayload

-- "duplicate node_id announcement replaced existing peer"
pub record Warning : Type 0 where
  pub node_id : ℕ
  pub previous_hostname : Str
  pub previous_addr : SocketAddr
  pub new_hostname : Str
  pub new_addr : SocketAddr

-- A peer that is known by its identifier only.
abbrev pub new_peer : ℕ → SocketAddr → NodeState → ℕ → SystemTime → NodeInfo
new_peer nid from state incarnation now = record {
  node_id = nid;
  hostname = str "node-" ++ hex_word nid;
  control_addr = from;
  state = state;
  incarnation = incarnation;
  last_seen = now;
  is_master = false;
}

unfoldable pub on_heartbeat : SystemTime → SocketAddr → ℕ → HeartbeatPayload → Members → Members
on_heartbeat now from nid pl m =
    let (entry, m') = HashMap.or_insert m nid (new_peer nid from alive pl.incarnation now) in
    HashMap.insert m' nid
      (record entry { state = alive; incarnation = pl.incarnation; last_seen = now })

unfoldable pub duplicate : ℕ → AnnouncePayload → Option NodeInfo → List Warning
duplicate nid pl none = []
duplicate nid pl (some existing) =
    if not (existing.hostname == pl.hostname) || not (existing.control_addr == pl.control_addr)
    then record {
      node_id = nid;
      previous_hostname = existing.hostname;
      previous_addr = existing.control_addr;
      new_hostname = pl.hostname;
      new_addr = pl.control_addr;
    }
      ∷ []
    else []

-- A peer that has announced itself replaces whatever stood under its identifier.
abbrev pub announced : SystemTime → ℕ → AnnouncePayload → NodeInfo
announced now nid pl = record {
  node_id = nid;
  hostname = pl.hostname;
  control_addr = pl.control_addr;
  state = alive;
  incarnation = pl.incarnation;
  last_seen = now;
  is_master = false;
}

unfoldable pub on_announce : SystemTime → ℕ → AnnouncePayload → Members → Members × List Warning
on_announce now nid pl m =
    (HashMap.insert m nid (announced now nid pl), duplicate nid pl (HashMap.get m nid))

unfoldable pub on_leave : ℕ → Members → Members
on_leave nid m = HashMap.update m nid (λ e. record e { state = dead })

-- One entry of a gossip frame.
unfoldable pub merge_entry : ℕ → SystemTime → SocketAddr → Members → GossipEntry → Members
merge_entry self_id now from m entry =
    if entry.node_id == self_id
    then m
    else let (e, m') =
        HashMap.or_insert m entry.node_id
          (new_peer entry.node_id from entry.state entry.incarnation now) in
      if leb e.incarnation entry.incarnation
      then HashMap.insert m' entry.node_id
          (record e { state = entry.state; incarnation = entry.incarnation })
      else m'

unfoldable pub on_gossip : ℕ → SystemTime → SocketAddr → List GossipEntry → Members → Members
on_gossip self_id now from [] m = m
on_gossip self_id now from (entry ∷ entries) m =
    on_gossip self_id now from entries (merge_entry self_id now from m entry)

module _ (codecs : Codecs) (self_id : ℕ) (now : SystemTime) (from : SocketAddr) where
  -- The `match` on the message type; a payload that cannot be read is dropped.
  unfoldable pub on_message : MsgType → ℕ → List ℕ → Members → Members × List Warning
  on_message heartbeat nid payload_bytes m = elim (codecs.heartbeat.decode payload_bytes) [
    | err e ↦ (m, [])
    | ok (pl, _) ↦ (on_heartbeat now from nid pl m, [])
  ]
  on_message announce nid payload_bytes m = elim (codecs.announce.decode payload_bytes) [
    | err e ↦ (m, [])
    | ok (pl, _) ↦ on_announce now nid pl m
  ]
  on_message leave nid payload_bytes m = elim (codecs.leave.decode payload_bytes) [
    | err e ↦ (m, [])
    | ok _ ↦ (on_leave nid m, [])
  ]
  on_message gossip nid payload_bytes m = elim (codecs.gossip.decode payload_bytes) [
    | err e ↦ (m, [])
    | ok (pl, _) ↦ (on_gossip self_id now from pl.entries m, [])
  ]
  on_message vote_request nid payload_bytes m = (m, [])
  on_message vote_grant nid payload_bytes m = (m, [])
  on_message ack nid payload_bytes m = (m, [])

  -- A frame of the node itself is ignored, and so is one of an unknown type.
  unfoldable pub on_frame : FrameHeader → List ℕ → Members → Members × List Warning
  on_frame header payload_bytes m =
      if node_id header == self_id then (m, []) else elim (msg_type header) [
        | none ↦ (m, [])
        | some t ↦ on_message t (node_id header) payload_bytes m
      ]

  -- The receive buffer holds 576 bytes.
  unfoldable pub on_datagram : List ℕ → Members → Members × List Warning
  on_datagram datagram m =
      let bytes = take 576 datagram in
      elim (from_bytes bytes) [ none ↦ (m, []) | some header ↦ on_frame header (drop 4 bytes) m ]
