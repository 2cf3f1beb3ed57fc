-- ===== src/Hivebus/History/Liveness.antt =====
-- Heartbeats and the failure detector of crates/hivebus/src/main.rs together.
use hivebus.Prelude.{
  ℕ, ◌+◌, ◌-◌, ◌≤◌, ◌<◌, ◌≡◌, ◌≢◌, refl, ◌∙◌, Option, none, some, arith, nat_eq, beq_refl,
}
use hivebus.Std.HashMap
use hivebus.Std.Net.{SocketAddr}
use hivebus.Std.Time.{SystemTime, Duration}
use hivebus.Proto.Payload.{HeartbeatPayload}
use hivebus.Proto.Node.{NodeInfo, NodeState, alive}
use hivebus.Hivebus.Members.{Members, IsValid}
use hivebus.Hivebus.Listener.{on_heartbeat}
use hivebus.Hivebus.Listener.Peers.{heard, get-on_heartbeat}
use hivebus.Hivebus.Listener.Laws.{on_heartbeat-IsValid}
use hivebus.Hivebus.Detector.{cleanup_threshold, detect}
use hivebus.Hivebus.Detector.Verdict.{Verdict, silent, late, in_time, was_doubted, detect-Verdict}

-- A member that was Alive and is within both thresholds stays Alive.
pub Verdict-alive :
    {s d a : Duration} {before after : NodeState}
    → a ≤ s
    → a ≤ d
    → before ≡ alive
    → Verdict s d a before after
    → after ≡ alive
Verdict-alive hs hd up (silent lt) = absurd (omega arith)
Verdict-alive hs hd up (late le lt e) = absurd (omega arith)
Verdict-alive hs hd up (in_time le le') = up
Verdict-alive hs hd up (was_doubted le ne) = up

pub heard_fields :
    (now : SystemTime) (from : SocketAddr) (nid : ℕ) (pl : HeartbeatPayload) (o : Option NodeInfo)
    → ((heard now from nid pl o).state ≡ alive)
      × ((heard now from nid pl o).last_seen ≡ now)
      × ((heard now from nid pl o).incarnation ≡ pl.incarnation)
heard_fields now from nid pl none = (refl, refl, refl)
heard_fields now from nid pl (some n) = (refl, refl, refl)

module _ (self_id : ℕ) (s d : Duration) (from : SocketAddr) (nid : ℕ) (pl : HeartbeatPayload)
    (m : Members) where
  -- A peer whose heartbeat is taken in at `heard_at` is in the table after a turn of the failure
  -- detector at `now`, Alive and with the heartbeat's incarnation, whatever it was before. The
  -- conditions: the table is well formed, the peer is another node, `now` is not before `heard_at`
  -- and at most the suspect threshold after it, and that threshold is at most the dead threshold
  -- and below 300 seconds.
  pub heartbeat_keeps_alive :
      (heard_at now : SystemTime)
      → nid ≢ self_id
      → IsValid self_id m
      → heard_at ≤ now
      → now ≤ heard_at + s
      → s ≤ d
      → s < cleanup_threshold
      → (n : NodeInfo) × (HashMap.get
            (detect self_id s d now (on_heartbeat heard_at from nid pl m))
            nid
          ≡ some n)
        × (n.state ≡ alive)
        × (n.incarnation ≡ pl.incarnation)
  heartbeat_keeps_alive heard_at now other v after soon order short =
      let n0 = heard heard_at from nid pl (HashMap.get m nid) in
      let (up, seen, incarnation) = heard_fields heard_at from nid pl (HashMap.get m nid) in
      let known : HashMap.get (on_heartbeat heard_at from nid pl m) nid ≡ some n0 =
        rw (get-on_heartbeat, beq_refl) refl in
      let (n, found, verdict, same) =
        detect-Verdict s d now self_id (on_heartbeat heard_at from nid pl m)
          (on_heartbeat-IsValid self_id heard_at from nid pl m other v) nid n0 known (omega arith)
          (omega arith) in
      (
        n,
        found,
        Verdict-alive {s = s} {d = d} {a = now - n0.last_seen} (omega arith) (omega arith) up
            verdict,
        same.incarnation ∙ incarnation,
      )
