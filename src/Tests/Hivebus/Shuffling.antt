-- ===== src/Tests/Hivebus/Shuffling.antt =====
-- A table with two peers in both orders.
use mathlib.Core.List.{Perm}
use hivebus.Prelude.{ℕ, ◌≡◌, refl, List, [], ◌∷◌, ◌++◌, arith, nat_eq}
use hivebus.Result.{Result}
use hivebus.Std.HashMap
use hivebus.Std.Text.{str}
use hivebus.Proto.Payload.{GossipEntry}
use hivebus.Proto.Frame.{new, heartbeat, to_bytes, from_bytes, from_u8, msg_type, node_id}
use hivebus.Proto.Message.{ControlOp}
use hivebus.Hivebus.Members.{Members, IsValid, master_from}
use hivebus.Hivebus.Wire.{gossip_entries, gossip_round}
use hivebus.Hivebus.Control.{Local, answer}
use hivebus.Hivebus.Listener.{on_datagram, on_frame, on_message, on_heartbeat}
use hivebus.Hivebus.Unordered.{
  SameEntries, Event, datagram, after, Shuffled, start, event, reordered,
}
use hivebus.Hivebus.Unordered.Invisible.{order_invisible}
use hivebus.Hivebus.Unordered.View.{forget, elected, run, Shuffled-run}
use hivebus.Tests.Data.{addr, seen}
use hivebus.Tests.Hivebus.Electing.{node}

abbrev beat_of : ℕ → Event
beat_of id = datagram seen (addr id) (to_bytes (new heartbeat 0 id) ++ 1 ∷ 7 ∷ [])

abbrev events : List Event
events = beat_of 5 ∷ beat_of 3 ∷ []

abbrev table : Members
table = after node (beat_of 5) (after node (beat_of 3) [])

abbrev flipped : Members → Members
flipped (p ∷ q ∷ m) = q ∷ p ∷ m
flipped m = m

table-Shuffled : Shuffled node events table
table-Shuffled = event (beat_of 5) (event (beat_of 3) start)

flipped-SameEntries : SameEntries table (flipped table)
unfolding on_datagram on_frame on_message on_heartbeat to_bytes from_bytes from_u8 msg_type node_id
    HashMap.get HashMap.insert HashMap.or_insert new
flipped-SameEntries k = ground arith

flipped-IsDistinct : HashMap.IsDistinct (flipped table)
unfolding on_datagram on_frame on_message on_heartbeat to_bytes from_bytes from_u8 msg_type node_id
    HashMap.get HashMap.insert HashMap.or_insert new
flipped-IsDistinct = (refl, (refl, tt))

flipped-Shuffled : Shuffled node events (flipped table)
flipped-Shuffled = reordered (flipped table) table-Shuffled flipped-SameEntries flipped-IsDistinct

abbrev self : Local
self = record {
  self_id = 9;
  self_hostname = str "nine";
  self_control_addr = addr 9;
  incarnation = 4;
}

order_invisible_example :
    SameEntries table (flipped table)
    × ((op : Result ControlOp) → answer self seen table op ≡ answer self seen (flipped table) op)
    × (es : List GossipEntry) × (es' : List GossipEntry) × Perm es es'
    × (gossip_round node.codecs.gossip 9 table seen 255
        ≡ gossip_entries node.codecs.gossip 9 255 es)
    × (gossip_round node.codecs.gossip 9 (flipped table) seen 255
        ≡ gossip_entries node.codecs.gossip 9 255 es')
order_invisible_example = order_invisible self seen 255 refl table-Shuffled flipped-Shuffled

Shuffled-run_example :
    (v : IsValid 9 (flipped table)) × (forget 9 (flipped table) v ≡ run node events)
    × (elected 9 (run node events) ≡ master_from (flipped table) 9)
Shuffled-run_example = Shuffled-run flipped-Shuffled
