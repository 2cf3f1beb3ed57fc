-- ===== src/Hivebus/Listener/Laws.antt =====
-- The table of crates/hivebus/src/main.rs stays well formed whatever is received, and a message
-- concerns its sender only.
use hivebus.Prelude.{
  ℕ, ◌≡◌, ◌≢◌, inl, inr, refl, some, List, [], ◌∷◌, arith, leb, nat_eq, ◌==◌, if_branches,
  Option-cases, take,
}
use hivebus.Result.{Result-cases}
use hivebus.Std.HashMap
use hivebus.Std.Net.{SocketAddr}
use hivebus.Std.Time.{SystemTime}
use hivebus.Proto.Frame.{
  MsgType, heartbeat, announce, leave, gossip, from_bytes, msg_type, node_id, FrameHeader,
}
use hivebus.Proto.Payload.{HeartbeatPayload, AnnouncePayload, GossipEntry}
use hivebus.Proto.Node.{NodeInfo, alive, dead}
use hivebus.Hivebus.Members.{Members, IsValid}
use hivebus.Hivebus.Listener.{
  Codecs, Warning, new_peer, on_heartbeat, on_announce, on_leave, merge_entry, on_gossip,
  on_message, on_frame, on_datagram,
}

abbrev IsOwn : ℕ → ℕ → NodeInfo → Type 0
IsOwn self_id k n = (n.node_id ≡ k) × (k ≢ self_id)

module _ (self_id : ℕ) where
  insert-IsValid :
      (m : Members) (k : ℕ) (n : NodeInfo)
      → n.node_id ≡ k
      → k ≢ self_id
      → IsValid self_id m
      → IsValid self_id (HashMap.insert m k n)
  insert-IsValid m k n own other v = record {
    entries = HashMap.AllEntries-insert (IsOwn self_id) m k n (own, other) v.entries;
    distinct = HashMap.insert-IsDistinct m k n v.distinct;
  }

  -- A value that was found or is fresh, and the map that holds it.
  or_insert-IsValid :
      (m : Members) (k : ℕ) (n : NodeInfo)
      → n.node_id ≡ k
      → k ≢ self_id
      → IsValid self_id m
      → ((HashMap.or_insert m k n).0.node_id ≡ k) × IsValid self_id (HashMap.or_insert m k n).1
  or_insert-IsValid m k n own other v = elim (Option-cases (HashMap.get m k)) [
    | inl e ↦ rw (HashMap.or_insert_lem, e) (own, insert-IsValid m k n own other v)
    | inr (n', e) ↦
        rw (HashMap.or_insert_lem, e)
          ((HashMap.AllEntries-get (IsOwn self_id) m k v.entries e).0, v)
  ]

  module _ (now : SystemTime) (from : SocketAddr) where
    pub on_heartbeat-IsValid :
        (nid : ℕ) (pl : HeartbeatPayload) (m : Members)
        → nid ≢ self_id
        → IsValid self_id m
        → IsValid self_id (on_heartbeat now from nid pl m)
    unfolding on_heartbeat
    on_heartbeat-IsValid nid pl m other v =
        let (own, v') =
          or_insert-IsValid m nid (new_peer nid from alive pl.incarnation now) refl other v in
        insert-IsValid _ nid _ own other v'

    on_announce-IsValid :
        (nid : ℕ) (pl : AnnouncePayload) (m : Members)
        → nid ≢ self_id
        → IsValid self_id m
        → IsValid self_id (on_announce now nid pl m).0
    unfolding on_announce
    on_announce-IsValid nid pl m other v = insert-IsValid m nid _ refl other v

    on_leave-IsValid :
        (nid : ℕ) (m : Members)
        → nid ≢ self_id
        → IsValid self_id m
        → IsValid self_id (on_leave nid m)
    unfolding on_leave HashMap.update
    on_leave-IsValid nid m other v = elim (Option-cases (HashMap.get m nid)) [
      | inl e ↦ rw (e, HashMap.update) v
      | inr (n, e) ↦
          rw (e, HashMap.update)
            (insert-IsValid m nid (record n { state = dead })
              (HashMap.AllEntries-get (IsOwn self_id) m nid v.entries e).0 other v)
    ]

    merge_entry-IsValid :
        (m : Members) (entry : GossipEntry)
        → IsValid self_id m
        → IsValid self_id (merge_entry self_id now from m entry)
    unfolding merge_entry
    merge_entry-IsValid m entry v =
        if_branches (IsValid self_id) (entry.node_id == self_id) (λ _. v)
          λ ne.
            let id = entry.node_id in
            let fresh = new_peer id from entry.state entry.incarnation now in
            let (e, m') = HashMap.or_insert m id fresh in
            let (own, v') = or_insert-IsValid m id fresh refl (ground arith) v in
            let e' : NodeInfo = record e { state = entry.state; incarnation = entry.incarnation } in
            if_branches (IsValid self_id) (leb e.incarnation entry.incarnation)
              {x = HashMap.insert m' id e'} (λ _. insert-IsValid m' id e' own (ground arith) v')
              (λ _. v')

    on_gossip-IsValid :
        (entries : List GossipEntry) (m : Members)
        → IsValid self_id m
        → IsValid self_id (on_gossip self_id now from entries m)
    unfolding on_gossip
    on_gossip-IsValid [] m v = v
    on_gossip-IsValid (entry ∷ entries) m v =
        on_gossip-IsValid entries (merge_entry self_id now from m entry)
          (merge_entry-IsValid m entry v)

    on_message-IsValid :
        (codecs : Codecs) (t : MsgType) (nid : ℕ) (bytes : List ℕ) (m : Members)
        → nid ≢ self_id
        → IsValid self_id m
        → IsValid self_id (on_message codecs self_id now from t nid bytes m).0
    unfolding on_message
    on_message-IsValid codecs heartbeat nid bytes m other v =
        elim (Result-cases (codecs.heartbeat.decode bytes)) [
          | inl (e, p) ↦ rw (p, on_message) v
          | inr ((pl, _), p) ↦ rw (p, on_message) (on_heartbeat-IsValid nid pl m other v)
        ]
    on_message-IsValid codecs announce nid bytes m other v =
        elim (Result-cases (codecs.announce.decode bytes)) [
          | inl (e, p) ↦ rw (p, on_message) v
          | inr ((pl, _), p) ↦ rw (p, on_message) (on_announce-IsValid nid pl m other v)
        ]
    on_message-IsValid codecs leave nid bytes m other v =
        elim (Result-cases (codecs.leave.decode bytes)) [
          | inl (e, p) ↦ rw (p, on_message) v
          | inr (_, p) ↦ rw (p, on_message) (on_leave-IsValid nid m other v)
        ]
    on_message-IsValid codecs gossip nid bytes m other v =
        elim (Result-cases (codecs.gossip.decode bytes)) [
          | inl (e, p) ↦ rw (p, on_message) v
          | inr ((pl, _), p) ↦ rw (p, on_message) (on_gossip-IsValid pl.entries m v)
        ]
    on_message-IsValid codecs _ nid bytes m other v = v

    on_frame-IsValid :
        (codecs : Codecs) (header : FrameHeader) (bytes : List ℕ) (m : Members)
        → IsValid self_id m
        → IsValid self_id (on_frame codecs self_id now from header bytes m).0
    unfolding on_frame
    on_frame-IsValid codecs header bytes m v =
        if_branches (λ (r : Members × List Warning). IsValid self_id r.0)
          (node_id header == self_id) (λ _. v)
          λ ne. elim (Option-cases (msg_type header)) [
            | inl p ↦ rw p v
            | inr (t, p) ↦
                rw p (on_message-IsValid codecs t (node_id header) bytes m (ground arith) v)
          ]

    -- Whatever bytes arrive, whoever sent them, the table stays well formed: every peer stands
    -- under its own identifier, once, and the node itself never enters its own table.
    pub on_datagram-IsValid :
        (codecs : Codecs) (datagram : List ℕ) (m : Members)
        → IsValid self_id m
        → IsValid self_id (on_datagram codecs self_id now from datagram m).0
    unfolding on_datagram
    on_datagram-IsValid codecs datagram m v = elim (Option-cases (from_bytes (take 576 datagram))) [
      | inl p ↦ rw (p, on_datagram) v
      | inr (h, p) ↦ rw (p, on_datagram) (on_frame-IsValid codecs h _ m v)
    ]

    -- A frame that carries the node's own identifier changes nothing and gives no warning.
    pub on_datagram_own :
        (codecs : Codecs) (datagram : List ℕ) (m : Members) (header : FrameHeader)
        → from_bytes (take 576 datagram) ≡ some header
        → node_id header ≡ self_id
        → on_datagram codecs self_id now from datagram m ≡ (m, [])
    unfolding on_datagram on_frame
    on_datagram_own codecs datagram m header read own = rw (read, on_datagram) (ground arith)
