-- ===== src/Hivebus/History/Flags.antt =====
-- Only the failure detector of crates/hivebus/src/main.rs raises a master flag.
use hivebus.Prelude.{
  ℕ, ◌≡◌, inl, inr, ap, some, true, List, [], ◌∷◌, arith, ◌==◌, nat_eq, Option-cases, if_branches,
  take,
}
use hivebus.Result.{Result-cases}
use hivebus.Std.HashMap
use hivebus.Std.HashMap.{get-insert}
use hivebus.Std.Net.{SocketAddr}
use hivebus.Std.Time.{SystemTime}
use hivebus.Proto.Frame.{
  MsgType, heartbeat, announce, leave, gossip, FrameHeader, from_bytes, msg_type, node_id,
}
use hivebus.Proto.Payload.{HeartbeatPayload, AnnouncePayload, GossipEntry}
use hivebus.Proto.Node.{NodeInfo}
use hivebus.Hivebus.Members.{Members, IsValid}
use hivebus.Hivebus.Listener.{
  Codecs, Warning, announced, on_heartbeat, on_announce, on_leave, merge_entry, on_gossip,
  on_message, on_frame, on_datagram,
}
use hivebus.Hivebus.Listener.Peers.{get-on_heartbeat, get-on_leave, get-merge_entry}
use hivebus.Hivebus.Detector.Flag.{detect_flags}
use hivebus.Hivebus.History.{Node, Step, receive, turn, Reachable, start, step, Reachable-IsValid}

-- Every peer that is flagged after was flagged before.
abbrev RaisesNone : Members → Members → Type 0
RaisesNone m m' =
    (k : ℕ) (n' : NodeInfo)
    → HashMap.get m' k ≡ some n'
    → n'.is_master ≡ true
    → (n : NodeInfo) × (HashMap.get m k ≡ some n) × (n.is_master ≡ true)

RaisesNone-refl : (m : Members) → RaisesNone m m
RaisesNone-refl m k n found flagged = (n, found, flagged)

RaisesNone-trans : (a b c : Members) → RaisesNone a b → RaisesNone b c → RaisesNone a c
RaisesNone-trans a b c p q k n found flagged =
    let (n', found', flagged') = q k n found flagged in p k n' found' flagged'

module _ (self_id : ℕ) (now : SystemTime) (from : SocketAddr) where
  on_heartbeat-RaisesNone :
      (nid : ℕ) (pl : HeartbeatPayload) (m : Members)
      → RaisesNone m (on_heartbeat now from nid pl m)
  on_heartbeat-RaisesNone nid pl m k n' found flagged = elim (Option-cases (HashMap.get m k)) [
    | inl e ↦
        absurd (
          ground
            (arith, get-on_heartbeat now from nid pl m k, ap (HashMap.get m) {x = nid} {y = k}))
    | inr (n, e) ↦ (
      n,
      e,
      ground (arith, get-on_heartbeat now from nid pl m k, ap (HashMap.get m) {x = nid} {y = k}),
    )
  ]

  on_announce-RaisesNone :
      (nid : ℕ) (pl : AnnouncePayload) (m : Members) → RaisesNone m (on_announce now nid pl m).0
  unfolding on_announce
  on_announce-RaisesNone nid pl m k n' found flagged = elim (Option-cases (HashMap.get m k)) [
    | inl e ↦ absurd (ground (arith, get-insert m nid k (announced now nid pl)))
    | inr (n, e) ↦ (n, e, ground (arith, get-insert m nid k (announced now nid pl)))
  ]

  on_leave-RaisesNone : (nid : ℕ) (m : Members) → RaisesNone m (on_leave nid m)
  on_leave-RaisesNone nid m k n' found flagged = elim (Option-cases (HashMap.get m k)) [
    | inl e ↦ absurd (ground (arith, get-on_leave nid m k, ap (HashMap.get m) {x = nid} {y = k}))
    | inr (n, e) ↦
        (n, e, ground (arith, get-on_leave nid m k, ap (HashMap.get m) {x = nid} {y = k}))
  ]

  merge_entry-RaisesNone :
      (m : Members) (entry : GossipEntry) → RaisesNone m (merge_entry self_id now from m entry)
  merge_entry-RaisesNone m entry k n' found flagged = elim (Option-cases (HashMap.get m k)) [
    | inl e ↦ absurd (
        ground (
          arith,
          get-merge_entry self_id now from m entry k,
          ap (HashMap.get m) {x = entry.node_id} {y = k},
        ))
    | inr (n, e) ↦ (
      n,
      e,
      ground (
        arith,
        get-merge_entry self_id now from m entry k,
        ap (HashMap.get m) {x = entry.node_id} {y = k},
      ),
    )
  ]

  on_gossip-RaisesNone :
      (entries : List GossipEntry) (m : Members)
      → RaisesNone m (on_gossip self_id now from entries m)
  unfolding on_gossip
  on_gossip-RaisesNone [] m = RaisesNone-refl m
  on_gossip-RaisesNone (entry ∷ entries) m =
      RaisesNone-trans m (merge_entry self_id now from m entry) _ (merge_entry-RaisesNone m entry)
        (on_gossip-RaisesNone entries (merge_entry self_id now from m entry))

  module _ (codecs : Codecs) where
    on_message-RaisesNone :
        (t : MsgType) (nid : ℕ) (bytes : List ℕ) (m : Members)
        → RaisesNone m (on_message codecs self_id now from t nid bytes m).0
    unfolding on_message
    on_message-RaisesNone heartbeat nid bytes m =
        elim (Result-cases (codecs.heartbeat.decode bytes)) [
          | inl (e, p) ↦ rw (p, on_message) (RaisesNone-refl m)
          | inr ((pl, _), p) ↦ rw (p, on_message) (on_heartbeat-RaisesNone nid pl m)
        ]
    on_message-RaisesNone announce nid bytes m =
        elim (Result-cases (codecs.announce.decode bytes)) [
          | inl (e, p) ↦ rw (p, on_message) (RaisesNone-refl m)
          | inr ((pl, _), p) ↦ rw (p, on_message) (on_announce-RaisesNone nid pl m)
        ]
    on_message-RaisesNone leave nid bytes m = elim (Result-cases (codecs.leave.decode bytes)) [
      | inl (e, p) ↦ rw (p, on_message) (RaisesNone-refl m)
      | inr (_, p) ↦ rw (p, on_message) (on_leave-RaisesNone nid m)
    ]
    on_message-RaisesNone gossip nid bytes m = elim (Result-cases (codecs.gossip.decode bytes)) [
      | inl (e, p) ↦ rw (p, on_message) (RaisesNone-refl m)
      | inr ((pl, _), p) ↦ rw (p, on_message) (on_gossip-RaisesNone pl.entries m)
    ]
    on_message-RaisesNone _ nid bytes m = RaisesNone-refl m

    on_frame-RaisesNone :
        (header : FrameHeader) (bytes : List ℕ) (m : Members)
        → RaisesNone m (on_frame codecs self_id now from header bytes m).0
    unfolding on_frame
    on_frame-RaisesNone header bytes m =
        if_branches (λ (r : Members × List Warning). RaisesNone m r.0) (node_id header == self_id)
          (λ _. RaisesNone-refl m)
          λ _. elim (Option-cases (msg_type header)) [
            | inl p ↦ rw p (RaisesNone-refl m)
            | inr (t, p) ↦ rw p (on_message-RaisesNone t (node_id header) bytes m)
          ]

    -- No datagram raises a master flag: a peer that is flagged after one was flagged before it.
    pub on_datagram-RaisesNone :
        (datagram : List ℕ) (m : Members)
        → RaisesNone m (on_datagram codecs self_id now from datagram m).0
    unfolding on_datagram
    on_datagram-RaisesNone datagram m = elim (Option-cases (from_bytes (take 576 datagram))) [
      | inl p ↦ rw (p, on_datagram) (RaisesNone-refl m)
      | inr (h, p) ↦ rw (p, on_datagram) (on_frame-RaisesNone h _ m)
    ]

-- At most one peer is flagged.
abbrev OneMaster : Members → Type 0
OneMaster m =
    (j k : ℕ) (a b : NodeInfo)
    → HashMap.get m j ≡ some a
    → HashMap.get m k ≡ some b
    → a.is_master ≡ true
    → b.is_master ≡ true
    → j ≡ k

Step-OneMaster :
    {node : Node} {m m' : Members}
    → Step node m m'
    → IsValid node.self_id m
    → OneMaster m
    → OneMaster m'
Step-OneMaster {node} (receive now from datagram m) v one j k a b fa fb ma mb =
    let raises = on_datagram-RaisesNone node.self_id now from node.codecs datagram m in
    let (a', fa', ma') = raises j a fa ma in
    let (b', fb', mb') = raises k b fb mb in one j k a' b' fa' fb' ma' mb'
Step-OneMaster {node} (turn now m) v one j k a b fa fb ma mb =
    let flags = detect_flags node.self_id node.suspect_threshold node.dead_threshold now m v in
    ground (arith, (flags j a fa).0 ma, (flags k b fb).0 mb)

Reachable-OneMaster : {node : Node} {m : Members} → Reachable node m → OneMaster m
Reachable-OneMaster start = unfold HashMap.get in λ j k a b fa fb ma mb. cc
Reachable-OneMaster (step r st) = Step-OneMaster st (Reachable-IsValid r) (Reachable-OneMaster r)

-- In every table that a node comes to, two peers that are flagged as master are the same peer.
pub one_master :
    {node : Node} {m : Members} (j k : ℕ) (a b : NodeInfo)
    → Reachable node m
    → HashMap.get m j ≡ some a
    → HashMap.get m k ≡ some b
    → a.is_master ≡ true
    → b.is_master ≡ true
    → j ≡ k
one_master j k a b r = Reachable-OneMaster r j k a b
