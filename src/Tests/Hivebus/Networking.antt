-- ===== src/Tests/Hivebus/Networking.antt =====
-- Two nodes that exchange their heartbeats.
use hivebus.Prelude.{ℕ, ◌+◌, refl, [], ◌∷◌, ◌++◌, nat_eq}
use hivebus.Std.Time.{from_millis, from_secs}
use hivebus.Std.Text.{str}
use hivebus.Proto.Frame.{new, heartbeat, to_bytes}
use hivebus.Hivebus.Wire.{encode_frame, heartbeat_round, epoch_ms}
use hivebus.Hivebus.Cluster.{contains}
use hivebus.Hivebus.Network.{
  Setting, Packet, beats, Network, restarted, restarts, beaten, received, silent, beats_once,
  receives, Reach, start, step,
}
use hivebus.Tests.Data.{addr, seen}
use hivebus.Tests.Hivebus.Electing.{node}

abbrev setting : Setting
setting = record {
  cluster = 3 ∷ 9 ∷ [];
  codecs = node.codecs;
  suspect_threshold = λ i. from_millis 450;
  dead_threshold = λ i. from_secs 30;
  announcement = λ i. record {
    incarnation = i + 1;
    hostname = str "host";
    control_addr = addr 7;
    version = str "0.1.0";
  };
}

abbrev packet : ℕ → Packet
packet i = record {
  sender = i;
  kind = beats;
  bytes = to_bytes (new heartbeat 0 i) ++ (i + 1) ∷ epoch_ms seen ∷ [];
}

-- Both send, and each receives the other's frame.
abbrev both_sent : Network
both_sent = beaten setting 9 (beaten setting 3 (silent (λ i. i + 1)) seen) seen

abbrev exchanged : Network
exchanged =
    received setting 3 (received setting 9 both_sent seen (addr 3) (packet 3)) seen (addr 9)
      (packet 9)

both_sent-Reach : Reach setting both_sent
unfolding contains
both_sent-Reach = step (step (start (λ i. i + 1)) (beats_once 3 seen refl)) (beats_once 9 seen refl)

exchanged-Reach : Reach setting exchanged
unfolding contains heartbeat_round encode_frame to_bytes
exchanged-Reach =
    step
      (step both_sent-Reach
        (receives 9 seen (addr 3) (packet 9 ∷ packet 9 ∷ []) (packet 3) (packet 3 ∷ []) refl refl))
      (receives 3 seen (addr 9) [] (packet 9) (packet 9 ∷ packet 3 ∷ packet 3 ∷ []) refl refl)

-- Node 9 restarts after both have sent.
abbrev after_restart : Network
after_restart = restarted setting 9 both_sent 77

after_restart-Reach : Reach setting after_restart
unfolding contains
after_restart-Reach = step both_sent-Reach (restarts 9 77 refl)
