-- ===== src/Tests/Hivebus/Detection.antt =====
-- Concrete inputs for the failure detector of crates/hivebus/src/main.rs and for the histories.
use hivebus.Prelude.{
  ℕ, ◌-◌, ◌≡◌, ◌↔◌, refl, some, List, [], ◌∷◌, arith, true, nat_eq, filter, sort_by_key,
}
use hivebus.Std.Text.{str}
use hivebus.Std.Text.Hex.{hex_word}
use hivebus.Proto.Frame.{from_bytes, node_id, msg_type, from_u8}
use hivebus.Hivebus.Listener.{on_datagram, on_frame, on_message}
use hivebus.Std.HashMap
use hivebus.Std.Time.{Duration, from_secs}
use hivebus.Proto.Node.{NodeInfo, alive}
use hivebus.Proto.Payload.{HeartbeatPayload}
use hivebus.Hivebus.Members.{Members, master_from, IsValid, alive_ids}
use hivebus.Hivebus.Listener.{on_heartbeat}
use hivebus.Hivebus.Detector.{detect, survivors, is_recent, flag, judge, age}
use hivebus.Hivebus.Detector.Verdict.{Verdict, SamePeer, detect-Verdict}
use hivebus.Hivebus.Detector.Flag.{detect_flags}
use hivebus.Hivebus.History.{Node, Reachable, start, step, turn, receive, Reachable-IsValid}
use hivebus.Tests.Data.{codecs, addr, node, seen, later, table, table-IsValid}

abbrev s : Duration
s = from_secs 4

abbrev d : Duration
d = from_secs 20

detect-Verdict_example :
    (n' : NodeInfo) × (HashMap.get (detect 5 s d later table) 3 ≡ some n')
    × Verdict s d (later - seen) alive n'.state
    × SamePeer (node 3 alive seen) n'
unfolding HashMap.get
detect-Verdict_example =
    detect-Verdict s d later 5 table table-IsValid 3 (node 3 alive seen) refl (omega arith)
      (omega arith)

-- With long thresholds node 3 stays Alive and becomes the master.
abbrev elected : NodeInfo
elected = record (node 3 alive seen) { is_master = true }

detect_flags_example : (true ≡ true) ↔ (master_from (detect 5 d d later table) 5 ≡ some 3)
unfolding HashMap.get detect survivors HashMap.retain is_recent flag judge master_from age alive_ids
    filter sort_by_key
detect_flags_example = detect_flags 5 d d later table table-IsValid 3 elected refl

abbrev pulse : HeartbeatPayload
pulse = record { incarnation = 6; epoch_ms = 99 }

abbrev own : Node
own = record { codecs = codecs; self_id = 5; suspect_threshold = d; dead_threshold = d }

abbrev pulse_frame : List ℕ
pulse_frame = 0xca ∷ 0x09 ∷ 0 ∷ 2 ∷ 6 ∷ 99 ∷ []

-- A heartbeat of node 2 in the empty table, and a turn ten seconds later.
abbrev known : Members
known = detect 5 d d later (on_datagram codecs 5 seen (addr 2) pulse_frame []).0

known-Reachable : Reachable own known
known-Reachable = step (step start (receive seen (addr 2) pulse_frame [])) (turn later _)

abbrev master_two : NodeInfo
master_two = record (node 2 alive seen) {
  hostname = str "node-0x0002";
  control_addr = addr 2;
  incarnation = 6;
  is_master = true;
}

known_two : HashMap.get known 2 ≡ some master_two
unfolding HashMap.get HashMap.insert HashMap.or_insert HashMap.retain detect survivors is_recent
    flag judge master_from age alive_ids filter sort_by_key on_datagram on_frame on_message
    on_heartbeat from_bytes node_id msg_type from_u8 hex_word
known_two = refl

Reachable-IsValid_example : IsValid 5 known
Reachable-IsValid_example = Reachable-IsValid known-Reachable
