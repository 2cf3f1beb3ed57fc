-- ===== src/Hivebus/Unordered.antt =====
-- The order in which a HashMap hands out its entries is arbitrary, and may change whenever the map
-- changes. Here the table of crates/hivebus/src/main.rs is put into another order at any time. The
-- entries of a gossip frame are in the order of the table.
pub mod Updates
pub mod Replies
pub mod Gossip
pub mod Invisible
pub mod View
use hivebus.Prelude.{ℕ, ◌≡◌, List, [], ◌∷◌, nat_eq}
use hivebus.Std.HashMap
use hivebus.Std.Net.{SocketAddr}
use hivebus.Std.Time.{SystemTime}
use hivebus.Hivebus.Members.{Members}
use hivebus.Hivebus.Listener.{on_datagram}
use hivebus.Hivebus.Detector.{detect}
use hivebus.Hivebus.History.{Node}

-- Two tables have the same entry for each identifier.
abbrev pub SameEntries : Members → Members → Type 0
SameEntries m m' = (k : ℕ) → HashMap.get m k ≡ HashMap.get m' k

pub data Event : Type 0 where
  datagram : SystemTime → SocketAddr → List ℕ → Event
  turn : SystemTime → Event

abbrev pub after : Node → Event → Members → Members
after node (datagram now from bytes) m = (on_datagram node.codecs node.self_id now from bytes m).0
after node (turn now) m = detect node.self_id node.suspect_threshold node.dead_threshold now m

-- What a table can be after some events, the last one first, in whatever order its entries are.
pub data Shuffled (node : Node) : List Event → Members → Type 0 where
  start : Shuffled node [] []
  event :
      {events : List Event} {m : Members} (e : Event)
      → Shuffled node events m
      → Shuffled node (e ∷ events) (after node e m)
  reordered :
      {events : List Event} {m : Members} (m' : Members)
      → Shuffled node events m
      → SameEntries m m'
      → HashMap.IsDistinct m'
      → Shuffled node events m'
