-- ===== src/Hivebus/History/Heard.antt =====
-- A peer of crates/hivebus/src/main.rs that is heard often enough stays Alive.
use hivebus.Prelude.{
  ℕ, ◌+◌, ◌-◌, ◌^◌, ◌≤◌, ◌<◌, ◌≡◌, ◌≢◌, refl, ◌∙◌, some, List, arith, nat_eq, beq_refl,
}
use hivebus.Result.{ok}
use hivebus.Bincode.{ReadsBack}
use hivebus.Std.HashMap
use hivebus.Std.Net.{SocketAddr}
use hivebus.Std.Time.{SystemTime}
use hivebus.Proto.Frame.{new, heartbeat}
use hivebus.Proto.Payload.{HeartbeatPayload}
use hivebus.Proto.Node.{NodeInfo, alive}
use hivebus.Hivebus.Members.{Members}
use hivebus.Hivebus.Wire.{encode_frame}
use hivebus.Hivebus.Listener.{on_datagram}
use hivebus.Hivebus.Listener.Delivery.{heartbeat_delivered}
use hivebus.Hivebus.Listener.Peers.{heard}
use hivebus.Hivebus.Detector.{cleanup_threshold, detect}
use hivebus.Hivebus.Detector.Verdict.{detect-Verdict}
use hivebus.Hivebus.History.{Node, receive, turn, Reachable, step, Reachable-IsValid}
use hivebus.Hivebus.History.Liveness.{heard_fields, Verdict-alive}

-- The tables that a node comes to while the peer `nid` is heard, with the time of its last
-- heartbeat. Between two heartbeats come other datagrams, which leave the peer's entry alone, and
-- turns of the failure detector, none later than the suspect threshold after the last heartbeat.
pub data Heard (node : Node) (nid : ℕ) : SystemTime → Members → Type 0 where
  beat :
      {m : Members} (now : SystemTime) (from : SocketAddr) (seq : ℕ) (pl : HeartbeatPayload)
      (buf : List ℕ)
      → Reachable node m
      → seq < 256
      → encode_frame node.codecs.heartbeat (new heartbeat seq nid) pl ≡ ok buf
      → Heard node nid now (on_datagram node.codecs node.self_id now from buf m).0
  aside :
      {t : SystemTime} {m : Members} (now : SystemTime) (from : SocketAddr) (buf : List ℕ)
      → Heard node nid t m
      → HashMap.get (on_datagram node.codecs node.self_id now from buf m).0 nid ≡ HashMap.get m nid
      → Heard node nid t (on_datagram node.codecs node.self_id now from buf m).0
  turned :
      {t : SystemTime} {m : Members} (now : SystemTime)
      → Heard node nid t m
      → t ≤ now
      → now ≤ t + node.suspect_threshold
      → Heard node nid t (detect node.self_id node.suspect_threshold node.dead_threshold now m)

pub Heard-Reachable :
    {node : Node} {nid : ℕ} {t : SystemTime} {m : Members} → Heard node nid t m → Reachable node m
Heard-Reachable (beat now from seq pl buf r _ _) = step r (receive now from buf _)
Heard-Reachable (aside now from buf h _) = step (Heard-Reachable h) (receive now from buf _)
Heard-Reachable (turned now h _ _) = step (Heard-Reachable h) (turn now _)

-- The peer is in the table, Alive and last seen at `t`.
abbrev pub IsUp : Members → ℕ → SystemTime → Type 0
IsUp m nid t = (n : NodeInfo) × (HashMap.get m nid ≡ some n) × (n.state ≡ alive) × (n.last_seen ≡ t)

module _ (node : Node) (nid : ℕ) (other : nid ≢ node.self_id)
    (order : node.suspect_threshold ≤ node.dead_threshold)
    (short : node.suspect_threshold < cleanup_threshold) where
  pub turn-IsUp :
      {t : SystemTime} (now : SystemTime) (m : Members)
      → Reachable node m
      → t ≤ now
      → now ≤ t + node.suspect_threshold
      → IsUp m nid t
      → IsUp (detect node.self_id node.suspect_threshold node.dead_threshold now m) nid t
  turn-IsUp now m r after soon (n, known, up, seen) =
      let (n', found, verdict, same) =
        detect-Verdict node.suspect_threshold node.dead_threshold now node.self_id m
          (Reachable-IsValid r) nid n known (omega arith) (omega arith) in
      (
        n',
        found,
        Verdict-alive {s = node.suspect_threshold} {d = node.dead_threshold} {a = now - n.last_seen}
            (omega arith) (omega arith) up verdict,
        same.last_seen ∙ seen,
      )

  -- A peer whose heartbeats are taken in, with never more than the suspect threshold from the last
  -- one to a turn of the failure detector, is in the table and Alive all the time, and was last
  -- seen at its last heartbeat. In between come any turns and any datagrams that leave its entry
  -- alone. The conditions: it is another node, the suspect threshold is at most the dead threshold
  -- and below 300 seconds, and the codec reads back the heartbeats.
  pub stays_alive :
      {t : SystemTime} {m : Members}
      → nid < 2 ^ 16
      → ReadsBack node.codecs.heartbeat
      → Heard node nid t m
      → (n : NodeInfo) × (HashMap.get m nid ≡ some n) × (n.state ≡ alive) × (n.last_seen ≡ t)
  stays_alive fits reads (beat {m} now from seq pl buf r seq_fits sent) =
      let delivered =
        heartbeat_delivered node.codecs node.self_id now from seq nid pl buf m seq_fits fits other
          reads sent nid in
      let (up, seen, _) = heard_fields now from nid pl (HashMap.get m nid) in
      (heard now from nid pl (HashMap.get m nid), delivered ∙ (rw beq_refl refl), up, seen)
  stays_alive fits reads (aside now from buf h same) =
      let (n, known, up, seen) = stays_alive fits reads h in (n, same ∙ known, up, seen)
  stays_alive fits reads (turned {t} {m} now h after soon) =
      turn-IsUp {t = t} now m (Heard-Reachable h) after soon (stays_alive fits reads h)
