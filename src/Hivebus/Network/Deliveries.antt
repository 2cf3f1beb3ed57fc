-- ===== src/Hivebus/Network/Deliveries.antt =====
-- One heartbeat of a node of crates/hivebus/src/main.rs on its way to all nodes of a cluster.
use mathlib.Core.Path.{subst}
use hivebus.Prelude.{
  ℕ, ◌≡◌, ◌⊎◌, refl, sym, ◌∙◌, inl, inr, true, List, [], ◌∷◌, ◌==◌, nat_eq, beq_refl, arith,
  Bool-cases,
}
use hivebus.Std.Net.{SocketAddr}
use hivebus.Std.Time.{SystemTime}
use hivebus.Hivebus.Cluster.{contains}
use hivebus.Hivebus.Network.{
  Setting, Packet, beats, Network, noted, received, Step, announces_once, beats_once, gossips_once,
  receives, turns, restarts, IsTimelyStep,
}

-- What can follow on a network.
pub data Later (setting : Setting) (net : Network) : Network → Type 0 where
  here : Later setting net net
  further :
      {net' net'' : Network}
      → Later setting net net'
      → Step setting net' net''
      → Later setting net net''

abbrev pub IsTimelyLater : (setting : Setting) {a b : Network} → Later setting a b → Type 0
IsTimelyLater setting here = Unit
IsTimelyLater setting (further r st) = IsTimelyLater setting r × IsTimelyStep setting st

-- A node sends a heartbeat, or it receives one.
abbrev pub IsBeatStep : (setting : Setting) {a b : Network} → Step setting a b → Type 0
IsBeatStep setting (beats_once i now member) = Unit
IsBeatStep setting (receives i now from before p after member at) = p.kind ≡ beats
IsBeatStep setting _ = ⊥

abbrev pub AreBeats : (setting : Setting) {a b : Network} → Later setting a b → Type 0
AreBeats setting here = Unit
AreBeats setting (further r st) = AreBeats setting r × IsBeatStep setting st

IsBeatStep-timely :
    {setting : Setting} {a b : Network} (st : Step setting a b)
    → IsBeatStep setting st
    → IsTimelyStep setting st
IsBeatStep-timely (beats_once i now member) beat = tt
IsBeatStep-timely (receives i now from before p after member at) beat = tt
IsBeatStep-timely (announces_once i member) beat = absurd beat
IsBeatStep-timely (gossips_once i now member) beat = absurd beat
IsBeatStep-timely (turns i now member) beat = absurd beat
IsBeatStep-timely (restarts i incarnation member) beat = absurd beat

pub AreBeats-timely :
    {setting : Setting} {a b : Network} (q : Later setting a b)
    → AreBeats setting q
    → IsTimelyLater setting q
AreBeats-timely here are = tt
AreBeats-timely (further q st) are = (AreBeats-timely q are.0, IsBeatStep-timely st are.1)

-- What can follow by heartbeats alone: none but their sending and their receiving.
pub record Continuation (setting : Setting) (a b : Network) : Type 0 where
  pub later : Later setting a b
  pub are_beats : AreBeats setting later

pub Continuation-trans :
    {setting : Setting} {a b c : Network}
    → Continuation setting a b
    → (q : Later setting b c) → AreBeats setting q
    → Continuation setting a c
Continuation-trans r here are = r
Continuation-trans r (further q st) are =
    let p = Continuation-trans r q are.0 in
    record { later = further p.later st; are_beats = (p.are_beats, are.1) }

-- Node `i` has heard node `k`, or is it.
abbrev pub HasHeard : Network → ℕ → ℕ → Type 0
HasHeard net i k = (k ≡ i) ⊎ (contains (net.heard i) k ≡ true)

module _ (setting : Setting) (now : SystemTime) (from : SocketAddr) where
  noted_keeps :
      (k i j : ℕ) (ids : List ℕ) → contains ids j ≡ true → contains (noted k beats i ids) j ≡ true
  unfolding contains
  noted_keeps k i j ids h = ground arith

  noted_adds : (k i : ℕ) (ids : List ℕ) → (k ≡ i) ⊎ (contains (noted k beats i ids) k ≡ true)
  unfolding contains
  noted_adds k i ids = ground arith

  module _ (k : ℕ) (buf : List ℕ) where
    abbrev pub the_beat : Packet
    the_beat = record { sender = k; kind = beats; bytes = buf }

    -- Node `i` receives it.
    abbrev got : ℕ → Network → Network
    got i net = received setting i net now from the_beat

    got_keeps : (i a b : ℕ) (net : Network) → HasHeard net a b → HasHeard (got i net) a b
    got_keeps i a b net (inl own) = inl own
    got_keeps i a b net (inr h) = elim (Bool-cases (i == a)) [
      | inl p ↦
          let h' : contains (net.heard i) b ≡ true =
            subst (λ j. contains (net.heard j) b ≡ true) (sym ((nat_eq.decides i a).0 p)) h in
          inr (rw p (noted_keeps k i b (net.heard i) h'))
      | inr p ↦ inr (rw p h)
    ]

    got_adds : (i : ℕ) (net : Network) → HasHeard (got i net) i k
    got_adds i net = elim (noted_adds k i (net.heard i)) [
      | inl own ↦ inl own
      | inr h ↦ inr (rw (beq_refl i) h)
    ]

    -- All nodes of a list have received it, and none forgot what it heard.
    pub record Delivered (net : Network) (ids : List ℕ) : Type 0 where
      pub net' : Network
      pub later : Continuation setting net net'
      pub wire : net'.wire ≡ net.wire
      pub told : (i : ℕ) → contains ids i ≡ true → HasHeard net' i k
      pub kept : (a b : ℕ) → HasHeard net a b → HasHeard net' a b

    pub deliver :
        (ids : List ℕ) (net : Network) (rest : List Packet)
        → ((i : ℕ) → contains ids i ≡ true → contains setting.cluster i ≡ true)
        → net.wire ≡ the_beat ∷ rest
        → Delivered net ids
    unfolding contains
    deliver [] net rest members at = record {
      net' = net;
      later = record { later = here; are_beats = tt };
      wire = refl;
      told = λ i h. absurd (ground arith);
      kept = λ a b h. h;
    }
    deliver (i ∷ ids) net rest members at =
        let d = deliver ids net rest (λ j h. members j (ground arith)) at in
        let member = members i (ground arith) in
        record {
          net' = got i d.net';
          later = record {
            later =
                further d.later.later (receives i now from [] the_beat rest member (d.wire ∙ at));
            are_beats = (d.later.are_beats, refl);
          };
          wire = d.wire;
          told = λ j h. elim (Bool-cases (i == j)) [
            | inl p ↦
                subst (λ j. HasHeard (got i d.net') j k) ((nat_eq.decides i j).0 p)
                  (got_adds i d.net')
            | inr p ↦ got_keeps i j k d.net' (d.told j (ground arith))
          ];
          kept = λ a b h. got_keeps i a b d.net' (d.kept a b h);
        }
