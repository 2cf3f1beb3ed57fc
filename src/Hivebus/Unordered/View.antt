-- ===== src/Hivebus/Unordered/View.antt =====
-- The table of crates/hivebus/src/main.rs without the order of its entries: what a HashMap promises.
use mathlib.Core.Quot
use mathlib.Core.Quot.{Quot, Quot-set}
use hivebus.Prelude.{ℕ, ◌≡◌, refl, sym, ap, ◌∙◌, Option, List, [], ◌∷◌, nat_eq}
use hivebus.Hivebus.Members.{Members, master_from, IsValid}
use hivebus.Hivebus.History.{Node}
use hivebus.Hivebus.Unordered.{SameEntries, Event, after, Shuffled}
use hivebus.Hivebus.Unordered.Updates.{master_from-SameEntries}
use hivebus.Hivebus.Unordered.Invisible.{
  after-IsValid, after-SameEntries, Shuffled-IsValid, Shuffled-SameEntries, in_order,
  in_order-IsValid,
}

-- The well-formed tables of a node.
abbrev pub Valid : ℕ → Type 0
Valid self_id = (m : Members) × IsValid self_id m

abbrev pub AlikeTables : (self_id : ℕ) → Valid self_id → Valid self_id → Type 0
AlikeTables self_id p q = SameEntries p.0 q.0

-- A table in no order.
abbrev pub View : ℕ → Type 0
View self_id = Quot (AlikeTables self_id)

abbrev pub forget : (self_id : ℕ) (m : Members) → IsValid self_id m → View self_id
forget self_id m v = Quot.mk (m, v)

abbrev pub option_set : IsSet (Option ℕ)
option_set = hlevel

-- The elected master of a table in no order.
unfoldable pub elected : (self_id : ℕ) → View self_id → Option ℕ
elected self_id =
    Quot.lift option_set (λ p. master_from p.0 self_id)
      (λ p q same. master_from-SameEntries self_id p.0 q.0 same p.1 q.1)

-- An event on a table in no order.
unfoldable pub next : (node : Node) → Event → View node.self_id → View node.self_id
next node e =
    Quot.lift Quot-set (λ p. Quot.mk (after node e p.0, after-IsValid node e p.0 p.1))
      (λ p q same. Quot.sound (after-SameEntries node e p.0 q.0 same p.1 q.1))

-- The machine on tables in no order.
unfoldable pub run : (node : Node) → List Event → View node.self_id
unfolding next
run node [] = forget node.self_id [] (record { entries = tt; distinct = tt })
run node (e ∷ events) = next node e (run node events)

run-in_order :
    (node : Node) (events : List Event)
    → run node events ≡ forget node.self_id (in_order node events) (in_order-IsValid node events)
unfolding run next
run-in_order node [] = Quot.sound (λ k. refl)
run-in_order node (e ∷ events) =
    ap (next node e) (run-in_order node events) ∙ Quot.sound (λ k. refl)

-- The daemon refines the machine on tables in no order: however the order of its table changed
-- between the events, the table without its order is the machine's, and so is the elected master.
pub Shuffled-run :
    {node : Node} {events : List Event} {m : Members}
    → Shuffled node events m
    → (v : IsValid node.self_id m) × (forget node.self_id m v ≡ run node events)
      × (elected node.self_id (run node events) ≡ master_from m node.self_id)
unfolding elected
Shuffled-run {node} {events} {m} r =
    let v = Shuffled-IsValid r in
    let same : forget node.self_id m v ≡ run node events =
      Quot.sound (Shuffled-SameEntries r) ∙ sym (run-in_order node events) in
    (v, same, ap (elected node.self_id) (sym same))
