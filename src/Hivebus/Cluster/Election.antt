-- ===== src/Hivebus/Cluster/Election.antt =====
-- The election of crates/hivebus/src/main.rs in a healthy cluster.
use hivebus.Prelude.{
  ℕ, ◌≤◌, ◌<◌, ◌≡◌, ◌≢◌, ◌⊎◌, refl, inl, inr, some, true, List, nat_eq, arith, Option-cases, length,
}
use hivebus.Result.{ok}
use hivebus.Bincode.{ReadsBack, decode-encode}
use hivebus.Std.HashMap
use hivebus.Std.HashMap.{get-insert}
use hivebus.Std.Time.{SystemTime}
use hivebus.Proto.Frame.{announce, gossip}
use hivebus.Proto.Node.{NodeInfo, alive}
use hivebus.Hivebus.Members.{Members, master_from, IsValid}
use hivebus.Hivebus.Members.Master.{master_from_lem}
use hivebus.Hivebus.Listener.{on_message, on_announce, announced}
use hivebus.Hivebus.Listener.Delivery.{heartbeat_delivered, on_datagram-encode_frame}
use hivebus.Hivebus.Listener.Peers.{heard}
use hivebus.Hivebus.Detector.{cleanup_threshold, detect}
use hivebus.Hivebus.Detector.Failover.{detect-none}
use hivebus.Hivebus.History.{Node, receive, turn, Reachable, start, step, Reachable-IsValid}
use hivebus.Hivebus.History.Liveness.{heard_fields}
use hivebus.Hivebus.History.Heard.{turn-IsUp}
use hivebus.Hivebus.Cluster.Intact.{IsIntact, insert-IsIntact, on_gossip-IsIntact}
use hivebus.Hivebus.Cluster.{
  contains, InTime, Healthy, alone, beat, joined, gossiped, ignored, turned,
}

pub Healthy-Reachable :
    {node : Node} {cluster ids : List ℕ} {m : Members}
    → Healthy node cluster ids m
    → Reachable node m
Healthy-Reachable alone = start
Healthy-Reachable (beat now from seq nid pl buf h _ _ _) =
    step (Healthy-Reachable h) (receive now from buf _)
Healthy-Reachable (joined now from seq nid pl buf h _ _ _) =
    step (Healthy-Reachable h) (receive now from buf _)
Healthy-Reachable (gossiped now from seq nid pl buf h _ _ _ _) =
    step (Healthy-Reachable h) (receive now from buf _)
Healthy-Reachable (ignored now from datagram h same) = Healthy-Reachable h
Healthy-Reachable (turned now h _) = step (Healthy-Reachable h) (turn now _)

entry_other :
    {m : Members} (node : Node) (k : ℕ) (n : NodeInfo)
    → IsValid node.self_id m
    → HashMap.get m k ≡ some n
    → k ≢ node.self_id
entry_other {m} node k n v at =
    (HashMap.AllEntries-get (λ j w. (w.node_id ≡ j) × (j ≢ node.self_id)) m k v.entries at).1

module _ (node : Node) (cluster : List ℕ) (order : node.suspect_threshold ≤ node.dead_threshold)
    (short : node.suspect_threshold < cleanup_threshold) (beats : ReadsBack node.codecs.heartbeat)
    (announces : ReadsBack node.codecs.announce) (gossips : ReadsBack node.codecs.gossip) where
  turn-IsIntact :
      {ids : List ℕ} (now : SystemTime) (m : Members)
      → Reachable node m
      → InTime node now m
      → IsIntact cluster ids m
      → IsIntact cluster ids (detect node.self_id node.suspect_threshold node.dead_threshold now m)
  turn-IsIntact {ids} now m r soon i = record {
    known = λ k h. let (n, at) = i.known k h in let (n', at', _, _) = still_up k n at in (n', at');
    up = λ k n at. elim (Option-cases (HashMap.get m k)) [
      | inl fresh ↦ absurd (
          ground (
            arith,
            detect-none node.self_id node.suspect_threshold node.dead_threshold now m
                (Reachable-IsValid r) k fresh,
          ))
      | inr (w, at_w) ↦
          let (n', at', is_up, _) = still_up k w at_w in (ground arith, (i.up k w at_w).1)
    ];
  }
    where
      still_up :
          (k : ℕ) (w : NodeInfo)
          → HashMap.get m k ≡ some w
          → (n' : NodeInfo) × (HashMap.get
                (detect node.self_id node.suspect_threshold node.dead_threshold now m)
                k
              ≡ some n')
            × (n'.state ≡ alive)
            × (n'.last_seen ≡ w.last_seen)
      still_up k w at =
          turn-IsUp node k (entry_other node k w (Reachable-IsValid r) at) order short
            {t = w.last_seen} now m r (soon k w at).0 (soon k w at).1 (w, at, (i.up k w at).0, refl)

  pub Healthy-IsIntact :
      {ids : List ℕ} {m : Members} → Healthy node cluster ids m → IsIntact cluster ids m
  unfolding contains HashMap.get on_message on_announce
  Healthy-IsIntact alone = record {
    known = λ k h. absurd (ground arith);
    up = λ k n at. absurd (ground arith);
  }
  Healthy-IsIntact (beat {ids} {m} now from seq nid pl buf h peer small sent) =
      insert-IsIntact m _ nid (heard now from nid pl (HashMap.get m nid))
        (heard_fields now from nid pl (HashMap.get m nid)).0 peer.member
        (heartbeat_delivered node.codecs node.self_id now from seq nid pl buf m small peer.fits
          peer.other beats sent)
        (Healthy-IsIntact h)
  Healthy-IsIntact (joined {ids} {m} now from seq nid pl buf h peer small sent) =
      let (bytes, written, arrives) =
        on_datagram-encode_frame node.codecs node.self_id now from announce seq nid small peer.fits
          peer.other node.codecs.announce pl buf m sent in
      let decoded : node.codecs.announce.decode bytes ≡ ok (pl, length bytes) =
        decode-encode node.codecs.announce pl bytes announces written in
      insert-IsIntact m _ nid (announced now nid pl) refl peer.member
        (λ k. rw (arrives, on_message, decoded) (get-insert m nid k (announced now nid pl)))
        (Healthy-IsIntact h)
  Healthy-IsIntact (gossiped {ids} {m} now from seq nid pl buf h peer small good sent) =
      let (bytes, written, arrives) =
        on_datagram-encode_frame node.codecs node.self_id now from gossip seq nid small peer.fits
          peer.other node.codecs.gossip pl buf m sent in
      let decoded : node.codecs.gossip.decode bytes ≡ ok (pl, length bytes) =
        decode-encode node.codecs.gossip pl bytes gossips written in
      rw (arrives, on_message, decoded)
        (on_gossip-IsIntact node.self_id now from pl.entries m good (Healthy-IsIntact h))
  Healthy-IsIntact (ignored now from datagram h same) = Healthy-IsIntact h
  Healthy-IsIntact (turned {ids} {m} now h soon) =
      turn-IsIntact now m (Healthy-Reachable h) soon (Healthy-IsIntact h)

  -- In a healthy cluster every node elects the lowest identifier of the cluster, so all elect the
  -- same, as soon as a heartbeat or an announcement of every other node was received. Before and
  -- after come any heartbeats and announcements of the cluster's nodes, gossip that says only that
  -- nodes of the cluster are Alive, datagrams that change nothing, and turns of the failure
  -- detector, none later than the suspect threshold after any member was last seen. That threshold
  -- is at most the dead threshold and below 300 seconds, and the codecs read back what they wrote.
  pub elects_lowest :
      {ids : List ℕ} {m : Members}
      → Healthy node cluster ids m
      → contains cluster node.self_id ≡ true
      → ((k : ℕ) → contains cluster k ≡ true → (k ≡ node.self_id) ⊎ (contains ids k ≡ true))
      → (id : ℕ) × (master_from m node.self_id ≡ some id)
        × (contains cluster id ≡ true)
        × ((k : ℕ) → contains cluster k ≡ true → id ≤ k)
  elects_lowest {ids} {m} h own all =
      let i = Healthy-IsIntact h in
      let (id, elected, candidate, low, least) =
        master_from_lem node.self_id m (Reachable-IsValid (Healthy-Reachable h)) in
      (
        id,
        elected,
        elim candidate [ inl e ↦ rw e own | inr (n, at, _) ↦ (i.up id n at).1 ],
        λ k member. elim (all k member) [
          | inl e ↦ omega arith
          | inr was_heard ↦ let (n, at) = i.known k was_heard in least k n at (i.up k n at).0
        ],
      )
