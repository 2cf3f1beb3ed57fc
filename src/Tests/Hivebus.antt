-- ===== src/Tests/Hivebus.antt =====
-- Concrete inputs for the theorems about crates/hivebus/src/main.rs.
mod Starting
mod Electing
mod Networking
mod Shuffling
mod Takeover
mod Detection
mod Serving
use mathlib.Core.List.{Perm}
use hivebus.Prelude.{
  ℕ, ◌+◌, ◌≤◌, ◌<◌, ◌≡◌, ◌≢◌, ◌↔◌, inl, inr, refl, Option, none, some, List, [], ◌∷◌, ◌++◌, arith,
  All, if◌then◌else◌, ◌==◌, nat_eq, true, length,
}
use hivebus.Result.{ok}
use hivebus.Std.HashMap
use hivebus.Std.Time.{SystemTime}
use hivebus.Proto.Node.{NodeInfo, alive, suspect}
use hivebus.Proto.Frame.{new, heartbeat, to_bytes, from_bytes, FrameHeader, node_id}
use hivebus.Hivebus.Wire.{encode_frame}
use hivebus.Proto.Payload.{HeartbeatPayload, GossipEntry}
use hivebus.Hivebus.Members.{Members, master_from, IsValid}
use hivebus.Hivebus.Members.Master.{IsCandidate, master_from_lem, master_from_agree}
use hivebus.Hivebus.Listener.{on_datagram, on_gossip}
use hivebus.Hivebus.Listener.Peers.{heard, Keeps, on_gossip-Keeps, on_gossip_stale}
use hivebus.Hivebus.Listener.Laws.{on_datagram_own}
use hivebus.Hivebus.Listener.Delivery.{heartbeat_delivered}
use hivebus.Tests.Data.{
  codecs, heartbeat_codec, heartbeat_codec-ReadsBack, addr, node, seen, later, table, table-IsValid,
}

master_from_lem_example :
    (id : ℕ) × (master_from table 5 ≡ some id)
    × IsCandidate 5 table id
    × (id ≤ 5)
    × ((k : ℕ) (n : NodeInfo) → HashMap.get table k ≡ some n → n.state ≡ alive → id ≤ k)
master_from_lem_example = master_from_lem 5 table table-IsValid

abbrev pulse : HeartbeatPayload
pulse = record { incarnation = 6; epoch_ms = 99 }

abbrev pulse_frame : List ℕ
pulse_frame = 0xca ∷ 0x09 ∷ 0 ∷ 2 ∷ 6 ∷ 99 ∷ []

abbrev rumour : ℕ → GossipEntry
rumour incarnation = record {
  node_id = 3;
  incarnation = incarnation;
  state = suspect;
  epoch_ms = 0;
}

on_gossip-Keeps_example :
    (n' : NodeInfo) × (HashMap.get (on_gossip 5 later (addr 9) (rumour 7 ∷ []) table) 3 ≡ some n')
    × Keeps (node 3 alive seen) n'
unfolding HashMap.get
on_gossip-Keeps_example =
    on_gossip-Keeps 5 later (addr 9) (rumour 7 ∷ []) table 3 (node 3 alive seen) refl
