-- ===== src/Hivebus/History.antt =====
-- The tasks of crates/hivebus/src/main.rs share the membership table under a lock that each holds
-- for a whole update. So every interleaving is a sequence of received datagrams and turns of the
-- failure detector, each at a time of its own.
pub mod Flags
pub mod Liveness
pub mod Heard
use hivebus.Prelude.{ℕ, ◌+◌, ◌-◌, ◌≤◌, ◌<◌, ◌≡◌, List, [], arith, refl}
use hivebus.Std.HashMap
use hivebus.Std.Net.{SocketAddr}
use hivebus.Std.Time.{SystemTime, Duration}
use hivebus.Hivebus.Members.{Members, IsValid}
use hivebus.Hivebus.Listener.{Codecs, on_datagram}
use hivebus.Hivebus.Listener.Laws.{on_datagram-IsValid}
use hivebus.Hivebus.Detector.{detect}
use hivebus.Hivebus.Detector.Verdict.{detect-IsValid}

-- What does not change while a node runs.
pub record Node : Type 0 where
  pub codecs : Codecs
  pub self_id : ℕ
  pub suspect_threshold : Duration
  pub dead_threshold : Duration

pub data Step (node : Node) : Members → Members → Type 0 where
  receive :
      (now : SystemTime) (from : SocketAddr) (datagram : List ℕ) (m : Members)
      → Step node m (on_datagram node.codecs node.self_id now from datagram m).0
  turn :
      (now : SystemTime) (m : Members)
      → Step node m (detect node.self_id node.suspect_threshold node.dead_threshold now m)

-- The tables that a node can come to from an empty one.
pub data Reachable (node : Node) : Members → Type 0 where
  start : Reachable node []
  step : {m m' : Members} → Reachable node m → Step node m m' → Reachable node m'

Step-IsValid :
    {node : Node} {m m' : Members}
    → Step node m m'
    → IsValid node.self_id m
    → IsValid node.self_id m'
Step-IsValid {node} (receive now from datagram m) v =
    on_datagram-IsValid node.self_id now from node.codecs datagram m v
Step-IsValid {node} (turn now m) v =
    detect-IsValid node.self_id node.suspect_threshold node.dead_threshold now m v

-- In every table that a node comes to, each peer stands under its own identifier, once, and the
-- node itself does not stand there.
pub Reachable-IsValid : {node : Node} {m : Members} → Reachable node m → IsValid node.self_id m
Reachable-IsValid start = record { entries = tt; distinct = tt }
Reachable-IsValid (step r st) = Step-IsValid st (Reachable-IsValid r)
