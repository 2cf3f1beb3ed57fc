-- ===== src/Hivebus/Network/Convergence.antt =====
-- The heartbeats by which the nodes of crates/hivebus/src/main.rs come to agree, from a network
-- whose detectors had their turns in time.
use hivebus.Prelude.{ℕ, ◌^◌, ◌≤◌, ◌<◌, ◌≡◌, true, List}
use hivebus.Result.{ok}
use hivebus.Std.Time.{SystemTime}
use hivebus.Proto.Frame.{new, heartbeat}
use hivebus.Hivebus.Wire.{encode_frame, epoch_ms}
use hivebus.Bincode.{ReadsBack}
use hivebus.Hivebus.Detector.{cleanup_threshold}
use hivebus.Hivebus.Network.Agreement.{IsRunning, Reach-IsRunning}
use hivebus.Hivebus.Cluster.{contains}
use hivebus.Hivebus.Network.{Setting, Network, Reach, IsTimely}
use hivebus.Hivebus.Network.Deliveries.{Continuation, HasHeard}

-- Every heartbeat of a node of the cluster can be written into a frame.
unfoldable pub Encodes : Setting → SystemTime → Type 0
Encodes setting now =
    (k incarnation seq : ℕ)
    → contains setting.cluster k ≡ true
    → (buf : List ℕ) × (encode_frame setting.codecs.heartbeat (new heartbeat seq k)
          (record { incarnation = incarnation; epoch_ms = epoch_ms now })
        ≡ ok buf)

-- All nodes of a list have been heard by all nodes of the cluster.
record Heard (setting : Setting) (net : Network) (ids : List ℕ) : Type 0 where
  net' : Network
  later : Continuation setting net net'
  told : (i k : ℕ) → contains setting.cluster i ≡ true → contains ids k ≡ true → HasHeard net' i k

module _ (setting : Setting) (fits : (i : ℕ) → contains setting.cluster i ≡ true → i < 2 ^ 16)
    (order : (i : ℕ) → setting.suspect_threshold i ≤ setting.dead_threshold i)
    (short : (i : ℕ) → setting.suspect_threshold i < cleanup_threshold)
    (beats_read : ReadsBack setting.codecs.heartbeat)
    (announces_read : ReadsBack setting.codecs.announce)
    (gossips_read : ReadsBack setting.codecs.gossip) where
  abbrev running :
      {net : Network} (r : Reach setting net)
      → IsTimely setting r
      → IsRunning setting fits order short beats_read announces_read gossips_read net
  running = Reach-IsRunning setting fits order short beats_read announces_read gossips_read
