-- ===== src/Hivebus/Wire.antt =====
-- Sending in crates/hivebus/src/main.rs: the frames, the heartbeat and the gossip task. One round
-- of a task takes its sequence number and gives the datagrams sent and the next number.
pub mod Laws
use hivebus.Prelude.{
  ℕ, ◌+◌, ◌-◌, ◌/◌, ◌%◌, ◌^◌, Option, none, some, Bool, true, false, List, [], ◌∷◌, ◌++◌, map,
  bit_and, ltb, length, if◌then◌else◌,
}
use hivebus.Result.{Result, ok, err, ◌>>=◌}
use hivebus.Bincode.{Codec}
use hivebus.Std.HashMap
use hivebus.Std.Net.{Ipv4Addr, broadcast, SocketAddr, v4, Datagram}
use hivebus.Std.Text.{Str, str, decimal}
use hivebus.Std.Time.{SystemTime, unix_epoch, duration_since}
use hivebus.Proto.{discovery_port}
use hivebus.Proto.Frame.{FrameHeader, new, to_bytes, heartbeat, gossip, announce}
use hivebus.Proto.Payload.{HeartbeatPayload, GossipPayload, GossipEntry, AnnouncePayload}
use hivebus.Proto.Node.{NodeInfo}
use hivebus.Hivebus.Members.{Members}

-- `as_millis() as u64` of the time since 1970, zero before.
unfoldable pub epoch_ms : SystemTime → ℕ
epoch_ms now = elim (duration_since now unix_epoch) [
  | none ↦ 0
  | some since ↦ since / 1_000_000 % 2 ^ 64
]

abbrev pub max_frame : ℕ
max_frame = 508

unfoldable pub encode_frame {ℓ} : {A : Type ℓ} → Codec A → FrameHeader → A → Result (List ℕ)
encode_frame codec header payload = do
  encoded ← codec.encode payload
  let buf = to_bytes header ++ encoded
  (if ltb max_frame (length buf)
      then err (str "discovery frame too large: " ++ decimal (length buf) ++ str " bytes")
      else ok buf)

-- `224.0.133.7:7777`, parsed.
abbrev pub mcast_addr : SocketAddr
mcast_addr = v4 (record { a = 224; b = 0; c = 133; d = 7 }) discovery_port

abbrev pub broadcast_addr : SocketAddr
broadcast_addr = v4 broadcast discovery_port

-- `seq.wrapping_add(1) & 0x0F`
abbrev pub next_seq : ℕ → ℕ
next_seq seq = bit_and ((seq + 1) % 2 ^ 8) 0x0f

abbrev pub to_all : Result (List ℕ) → List Datagram
to_all (ok buf) =
    record { to = broadcast_addr; bytes = buf } ∷ record { to = mcast_addr; bytes = buf } ∷ []
to_all (err e) = []

-- One turn of the loop of `heartbeat_task`. An encoding error is only logged.
unfoldable pub heartbeat_round : Codec HeartbeatPayload → ℕ → ℕ → SystemTime → ℕ → List Datagram × ℕ
heartbeat_round codec node_id incarnation now seq =
    let payload : HeartbeatPayload = record {
      incarnation = incarnation;
      epoch_ms = epoch_ms now;
    } in
    (to_all (encode_frame codec (new heartbeat seq node_id) payload), next_seq seq)

-- The first frame, sent once by `main`.
unfoldable pub announce_start : Codec AnnouncePayload → ℕ → AnnouncePayload → List Datagram
announce_start codec node_id payload = to_all (encode_frame codec (new announce 0 node_id) payload)

abbrev pub gossip_entry : SystemTime → NodeInfo → GossipEntry
gossip_entry now n = record {
  node_id = n.node_id;
  incarnation = n.incarnation;
  state = n.state;
  epoch_ms = epoch_ms now;
}

abbrev pub to_group : Result (List ℕ) → List Datagram
to_group (ok buf) = record { to = mcast_addr; bytes = buf } ∷ []
to_group (err e) = []

-- With no entry the turn ends before the sequence number moves.
abbrev pub gossip_entries : Codec GossipPayload → ℕ → ℕ → List GossipEntry → List Datagram × ℕ
gossip_entries codec node_id seq [] = ([], seq)
gossip_entries codec node_id seq (x ∷ xs) = (
  to_group (encode_frame codec (new gossip seq node_id) (record { entries = x ∷ xs })),
  next_seq seq,
)

-- One turn of the loop of `gossip_task`. The clock is read once here; `main.rs` reads it for
-- every entry.
unfoldable pub gossip_round : Codec GossipPayload → ℕ → Members → SystemTime → ℕ → List Datagram × ℕ
gossip_round codec node_id members now seq =
    gossip_entries codec node_id seq (map (gossip_entry now) (HashMap.values members))
