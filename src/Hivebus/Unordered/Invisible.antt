-- ===== src/Hivebus/Unordered/Invisible.antt =====
-- What crates/hivebus/src/main.rs makes of its table in different orders: the tables that follow,
-- the replies of the control plane and the gossip.
use mathlib.Core.List.{Perm}
use hivebus.Prelude.{ℕ, ◌≡◌, refl, sym, ◌∙◌, List, [], ◌∷◌, nat_eq}
use hivebus.Result.{Result}
use hivebus.Std.HashMap
use hivebus.Std.Time.{SystemTime}
use hivebus.Proto.Payload.{GossipEntry}
use hivebus.Proto.Message.{ControlOp}
use hivebus.Proto.Node.{NodeInfo}
use hivebus.Hivebus.Members.{Members, IsValid}
use hivebus.Hivebus.Listener.Laws.{on_datagram-IsValid}
use hivebus.Hivebus.Detector.Verdict.{detect-IsValid}
use hivebus.Hivebus.Wire.{gossip_entries, gossip_round}
use hivebus.Hivebus.Control.{Local, answer}
use hivebus.Hivebus.History.{Node}
use hivebus.Hivebus.Unordered.{
  SameEntries, Event, datagram, turn, after, Shuffled, start, event, reordered,
}
use hivebus.Hivebus.Unordered.Updates.{on_datagram-SameEffect, detect-SameEntries}
use hivebus.Hivebus.Unordered.Replies.{answer_same}
use hivebus.Hivebus.Unordered.Gossip.{gossip_alike}

AllEntries-SameEntries :
    (P : ℕ → NodeInfo → Type 0) (m m' : Members)
    → SameEntries m m'
    → HashMap.IsDistinct m'
    → HashMap.AllEntries P m
    → HashMap.AllEntries P m'
AllEntries-SameEntries P m m' same distinct all =
    HashMap.AllEntries-of-get P m' distinct
      (λ k n at. HashMap.AllEntries-get P m k all (same k ∙ at))

pub after-IsValid :
    (node : Node) (e : Event) (m : Members)
    → IsValid node.self_id m
    → IsValid node.self_id (after node e m)
after-IsValid node (datagram now from bytes) m v =
    on_datagram-IsValid node.self_id now from node.codecs bytes m v
after-IsValid node (turn now) m v =
    detect-IsValid node.self_id node.suspect_threshold node.dead_threshold now m v

pub Shuffled-IsValid :
    {node : Node} {events : List Event} {m : Members}
    → Shuffled node events m
    → IsValid node.self_id m
Shuffled-IsValid start = record { entries = tt; distinct = tt }
Shuffled-IsValid {node} (event {m = m} e r) = after-IsValid node e m (Shuffled-IsValid r)
Shuffled-IsValid (reordered {m = m} m' r same distinct) =
    let v = Shuffled-IsValid r in
    record { entries = AllEntries-SameEntries _ m m' same distinct v.entries; distinct = distinct }

pub after-SameEntries :
    (node : Node) (e : Event) (m m' : Members)
    → SameEntries m m'
    → IsValid node.self_id m
    → IsValid node.self_id m'
    → SameEntries (after node e m) (after node e m')
after-SameEntries node (datagram now from bytes) m m' same v v' =
    (on_datagram-SameEffect node.codecs node.self_id now from m m' same bytes).0
after-SameEntries node (turn now) m m' same v v' =
    detect-SameEntries node.suspect_threshold node.dead_threshold now node.self_id m m' same v v'

-- The table as it is without any reordering.
abbrev pub in_order : Node → List Event → Members
in_order node [] = []
in_order node (e ∷ events) = after node e (in_order node events)

pub in_order-IsValid :
    (node : Node) (events : List Event) → IsValid node.self_id (in_order node events)
in_order-IsValid node [] = record { entries = tt; distinct = tt }
in_order-IsValid node (e ∷ events) = after-IsValid node e _ (in_order-IsValid node events)

pub Shuffled-SameEntries :
    {node : Node} {events : List Event} {m : Members}
    → Shuffled node events m
    → SameEntries m (in_order node events)
Shuffled-SameEntries start k = refl
Shuffled-SameEntries {node} (event {events} {m} e r) k =
    after-SameEntries node e m (in_order node events) (Shuffled-SameEntries r) (Shuffled-IsValid r)
      (in_order-IsValid node events) k
Shuffled-SameEntries (reordered {m = m} m' r same distinct) k =
    sym (same k) ∙ Shuffled-SameEntries r k

-- Take two tables that come from the same datagrams and turns of the failure detector at the same
-- times, each put into another order any number of times in between. They have the same entries,
-- every request to the control plane is answered alike from both, and a turn of the gossip puts the
-- same entries into its frame, though they may stand there in another order.
pub order_invisible :
    {node : Node} {events : List Event} {m m' : Members} (self : Local) (now : SystemTime) (seq : ℕ)
    → self.self_id ≡ node.self_id
    → Shuffled node events m
    → Shuffled node events m'
    → SameEntries m m'
      × ((op : Result ControlOp) → answer self now m op ≡ answer self now m' op)
      × (es : List GossipEntry) × (es' : List GossipEntry) × Perm es es'
      × (gossip_round node.codecs.gossip node.self_id m now seq
          ≡ gossip_entries node.codecs.gossip node.self_id seq es)
      × (gossip_round node.codecs.gossip node.self_id m' now seq
          ≡ gossip_entries node.codecs.gossip node.self_id seq es')
order_invisible {node} {events} {m} {m'} self now seq own r r' =
    let same : SameEntries m m' = λ k. Shuffled-SameEntries r k ∙ sym (Shuffled-SameEntries r' k) in
    let (es, es', alike, round, round') =
      gossip_alike node.codecs.gossip node.self_id seq now m m' same (Shuffled-IsValid r)
        (Shuffled-IsValid r') in
    (
      same,
      answer_same self now m m' same (rw own (Shuffled-IsValid r)) (rw own (Shuffled-IsValid r')),
      es,
      es',
      alike,
      round,
      round',
    )
