-- ===== src/Hivebus/Network/Sound.antt =====
-- What is on the wire between the nodes of crates/hivebus/src/main.rs, and what it makes of their
-- tables.
use hivebus.Prelude.{
  ℕ, ◌+◌, ◌^◌, ◌%◌, ◌<◌, ◌≡◌, ◌≢◌, ap, inl, inr, some, true, List, [], ◌∷◌, map, nat_eq, All, arith,
  bit_and_nibble, take, take_of_length-le,
}
use hivebus.Result.{ok, Result-cases}
use hivebus.Bincode.{Codec}
use hivebus.Std.HashMap
use hivebus.Std.Net.{SocketAddr}
use hivebus.Std.Time.{SystemTime}
use hivebus.Proto.Frame.{MsgType, new, heartbeat, announce, gossip, from_bytes}
use hivebus.Proto.Frame.Laws.{from_bytes-new, node_id-new}
use hivebus.Proto.Node.{alive}
use hivebus.Proto.Payload.{HeartbeatPayload, AnnouncePayload, GossipPayload, GossipEntry}
use hivebus.Hivebus.Members.{Members, IsValid}
use hivebus.Hivebus.Wire.{
  encode_frame, next_seq, epoch_ms, heartbeat_round, gossip_entry, gossip_entries, gossip_round,
  announce_start,
}
use hivebus.Hivebus.Listener.{Codecs, on_datagram}
use hivebus.Hivebus.Listener.Laws.{on_datagram_own}
use hivebus.Hivebus.Listener.Delivery.{encode_frame-eq-ok}
use hivebus.Hivebus.Cluster.{contains, IsGood}
use hivebus.Hivebus.Cluster.Intact.{IsIntact}
use hivebus.Hivebus.Network.{Setting, beats, announces, gossips, Packet, packets}

-- A frame that a node of the cluster encoded.
pub data IsSent (setting : Setting) : Packet → Type 0 where
  beat_sent :
      (i seq : ℕ) (pl : HeartbeatPayload) (buf : List ℕ)
      → contains setting.cluster i ≡ true
      → seq < 256
      → encode_frame setting.codecs.heartbeat (new heartbeat seq i) pl ≡ ok buf
      → IsSent setting (record { sender = i; kind = beats; bytes = buf })
  announce_sent :
      (i seq : ℕ) (pl : AnnouncePayload) (buf : List ℕ)
      → contains setting.cluster i ≡ true
      → seq < 256
      → encode_frame setting.codecs.announce (new announce seq i) pl ≡ ok buf
      → IsSent setting (record { sender = i; kind = announces; bytes = buf })
  gossip_sent :
      (i seq : ℕ) (pl : GossipPayload) (buf : List ℕ)
      → contains setting.cluster i ≡ true
      → seq < 256
      → All (IsGood setting.cluster) pl.entries
      → encode_frame setting.codecs.gossip (new gossip seq i) pl ≡ ok buf
      → IsSent setting (record { sender = i; kind = gossips; bytes = buf })

-- The node's own frame changes nothing.
pub own_frame {ℓ} :
    {A : Type ℓ} (codecs : Codecs) (codec : Codec A) (t : MsgType) (seq i : ℕ) (pl : A)
    (buf : List ℕ) (now : SystemTime) (from : SocketAddr) (m : Members)
    → seq < 256
    → i < 2 ^ 16
    → encode_frame codec (new t seq i) pl ≡ ok buf
    → (on_datagram codecs i now from buf m).0 ≡ m
own_frame codecs codec t seq i pl buf now from m small fits sent =
    let (bytes, _, is_buf, short) = encode_frame-eq-ok codec (new t seq i) pl buf sent in
    let whole : take 576 buf ≡ buf = take_of_length-le 576 buf (omega arith) in
    let read : from_bytes (take 576 buf) ≡ some (new t seq i) =
      rw (whole, is_buf) (from_bytes-new t seq i small fits bytes) in
    ap (λ (r : Members × List _). r.0)
      (on_datagram_own i now from codecs buf m (new t seq i) read (node_id-new t seq i small fits))

pub next_seq-lt : (seq : ℕ) → next_seq seq < 256
next_seq-lt seq = omega (arith, bit_and_nibble ((seq + 1) % 256) (omega arith))

-- What a node gossips of a table in which all are Alive nodes of the cluster.
entries-IsGood :
    (cluster : List ℕ) (now : SystemTime) (m : Members)
    → HashMap.AllEntries
        (λ k n. (n.node_id ≡ k) × (n.state ≡ alive) × (contains cluster k ≡ true))
        m
    → All (IsGood cluster) (map (gossip_entry now) (HashMap.values m))
entries-IsGood cluster now [] h = tt
entries-IsGood cluster now ((k, n) ∷ m) h =
    ((h.0.1, ground arith), entries-IsGood cluster now m h.1)

module _ (setting : Setting) (i : ℕ) (member : contains setting.cluster i ≡ true) where
  pub heartbeat_round-IsSent :
      (incarnation : ℕ) (now : SystemTime) (seq : ℕ)
      → seq < 256
      → All
          (IsSent setting)
          (packets i beats (heartbeat_round setting.codecs.heartbeat i incarnation now seq).0)
  unfolding heartbeat_round
  heartbeat_round-IsSent incarnation now seq small =
      let pl : HeartbeatPayload = record { incarnation = incarnation; epoch_ms = epoch_ms now } in
      elim (Result-cases (encode_frame setting.codecs.heartbeat (new heartbeat seq i) pl)) [
        | inl (e, p) ↦ rw p tt
        | inr (buf, p) ↦ let sent = beat_sent i seq pl buf member small p in rw p (sent, (sent, tt))
      ]

  pub announce_start-IsSent :
      (pl : AnnouncePayload)
      → All (IsSent setting) (packets i announces (announce_start setting.codecs.announce i pl))
  unfolding announce_start
  announce_start-IsSent pl =
      elim (Result-cases (encode_frame setting.codecs.announce (new announce 0 i) pl)) [
        | inl (e, p) ↦ rw p tt
        | inr (buf, p) ↦
            let sent = announce_sent i 0 pl buf member (omega arith) p in rw p (sent, (sent, tt))
      ]

  gossip_entries-IsSent :
      (seq : ℕ) (xs : List GossipEntry)
      → seq < 256
      → All (IsGood setting.cluster) xs
      → All (IsSent setting) (packets i gossips (gossip_entries setting.codecs.gossip i seq xs).0)
  gossip_entries-IsSent seq [] small good = tt
  gossip_entries-IsSent seq (x ∷ xs) small good =
      let pl : GossipPayload = record { entries = x ∷ xs } in
      elim (Result-cases (encode_frame setting.codecs.gossip (new gossip seq i) pl)) [
        | inl (e, p) ↦ rw p tt
        | inr (buf, p) ↦ rw p (gossip_sent i seq pl buf member small good p, tt)
      ]

  pub gossip_round-IsSent :
      {ids : List ℕ} (m : Members) (now : SystemTime) (seq : ℕ)
      → seq < 256
      → IsValid i m
      → IsIntact setting.cluster ids m
      → All (IsSent setting) (packets i gossips (gossip_round setting.codecs.gossip i m now seq).0)
  unfolding gossip_round
  gossip_round-IsSent m now seq small v intact =
      gossip_entries-IsSent seq (map (gossip_entry now) (HashMap.values m)) small (
        entries-IsGood setting.cluster now m (
          HashMap.AllEntries-of-get _ m v.distinct (λ k n at. (
            (HashMap.AllEntries-get (λ k n. (n.node_id ≡ k) × (k ≢ i)) m k v.entries at).0,
            (intact.up k n at).0,
            (intact.up k n at).1,
          ))))
