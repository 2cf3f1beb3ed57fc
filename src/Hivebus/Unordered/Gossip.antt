-- ===== src/Hivebus/Unordered/Gossip.antt =====
-- The frames of `gossip_task` of crates/hivebus/src/main.rs for two orders of its table.
use mathlib.Core.List.{Perm}
use mathlib.Core.List.Perm
use hivebus.Prelude.{
  ℕ, ◌≡◌, ◌≢◌, refl, sym, ◌∙◌, List, [], ◌∷◌, map, arith, nat_eq, find_by_key,
  find_by_key-sort_by_key, HasDistinctKeys, IsStrict-ext, sort_by_key, sort_by_key-IsStrict,
  sort_by_key-perm,
}
use hivebus.Bincode.{Codec}
use hivebus.Std.HashMap
use hivebus.Std.Time.{SystemTime}
use hivebus.Proto.Payload.{GossipEntry, GossipPayload}
use hivebus.Hivebus.Members.{Members, IsValid}
use hivebus.Hivebus.Control.Replies.{id_of, values_avoid}
use hivebus.Hivebus.Wire.{gossip_entry, gossip_entries, gossip_round}
use hivebus.Hivebus.Unordered.{SameEntries}

member_values :
    (self_id k : ℕ) (m : Members)
    → HashMap.AllEntries (λ j n. (n.node_id ≡ j) × (j ≢ self_id)) m
    → find_by_key id_of k (HashMap.values m) ≡ HashMap.get m k
unfolding find_by_key HashMap.get
member_values self_id k [] h = refl
member_values self_id k ((j, n) ∷ m) h = ground (arith, h.0, member_values self_id k m h.1)

members_distinct :
    (self_id : ℕ) (m : Members)
    → HashMap.AllEntries (λ j n. (n.node_id ≡ j) × (j ≢ self_id)) m
    → HashMap.IsDistinct m
    → HasDistinctKeys id_of (HashMap.values m)
members_distinct self_id [] h d = tt
members_distinct self_id ((j, n) ∷ m) h d =
    (rw h.0.0 (values_avoid self_id j m h.1 d.0), members_distinct self_id m h.1 d.1)

values-Perm :
    (self_id : ℕ) (m m' : Members)
    → SameEntries m m'
    → IsValid self_id m
    → IsValid self_id m'
    → Perm (HashMap.values m) (HashMap.values m')
values-Perm self_id m m' same v v' =
    let d = members_distinct self_id m v.entries v.distinct in
    let d' = members_distinct self_id m' v'.entries v'.distinct in
    let sorted : sort_by_key id_of (HashMap.values m) ≡ sort_by_key id_of (HashMap.values m') =
      IsStrict-ext id_of _ _ (sort_by_key-IsStrict id_of _ d) (sort_by_key-IsStrict id_of _ d') λ k.
        find_by_key-sort_by_key id_of k _ d
        ∙ (member_values self_id k m v.entries
            ∙ (same k
                ∙ (sym (member_values self_id k m' v'.entries)
                    ∙ sym (find_by_key-sort_by_key id_of k _ d')))) in
    Perm.trans (Perm.symm (sort_by_key-perm id_of (HashMap.values m)))
      (rw sorted (sort_by_key-perm id_of (HashMap.values m')))

-- Two gossip rounds put the same entries into their frame, in some order.
pub gossip_alike :
    (codec : Codec GossipPayload) (self_id seq : ℕ) (now : SystemTime) (m m' : Members)
    → SameEntries m m'
    → IsValid self_id m
    → IsValid self_id m'
    → (es : List GossipEntry) × (es' : List GossipEntry) × Perm es es'
      × (gossip_round codec self_id m now seq ≡ gossip_entries codec self_id seq es)
      × (gossip_round codec self_id m' now seq ≡ gossip_entries codec self_id seq es')
unfolding gossip_round
gossip_alike codec self_id seq now m m' same v v' = (
  map (gossip_entry now) (HashMap.values m),
  map (gossip_entry now) (HashMap.values m'),
  Perm.map (gossip_entry now) (values-Perm self_id m m' same v v'),
  refl,
  refl,
)
