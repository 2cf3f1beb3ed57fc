-- ===== src/Hivebus/Network/Agreement.antt =====
-- The nodes of crates/hivebus/src/main.rs and the master they elect, over a network that loses,
-- repeats and reorders frames, while no detector finds a member silent for too long.
use mathlib.Core.Path.{subst}
use hivebus.Prelude.{
  ℕ, ◌^◌, ◌≤◌, ◌<◌, ◌≡◌, ◌≢◌, ◌⊎◌, refl, sym, ◌∙◌, inl, inr, some, true, List, [], ◌∷◌, ◌==◌,
  nat_eq, All, All-append, arith, Bool-cases, ne_of_beq, map,
}
use hivebus.Bincode.{ReadsBack}
use hivebus.Std.Net.{SocketAddr}
use hivebus.Std.Time.{SystemTime}
use hivebus.Proto.Frame.{heartbeat, announce, gossip}
use hivebus.Hivebus.Members.{Members, master_from}
use hivebus.Hivebus.Wire.{heartbeat_round, gossip_entry, gossip_entries, gossip_round}
use hivebus.Hivebus.Listener.{on_datagram}
use hivebus.Hivebus.Detector.{cleanup_threshold, detect}
use hivebus.Hivebus.History.{Reachable-IsValid}
use hivebus.Hivebus.Cluster.{contains, IsPeer, Healthy, alone, beat, joined, gossiped, turned}
use hivebus.Hivebus.Cluster.Election.{Healthy-Reachable, Healthy-IsIntact, elects_lowest}
use hivebus.Hivebus.Network.{
  Setting, node_at, Packet, Network, noted, Step, announces_once, beats_once, gossips_once,
  receives, turns, restarts, IsTimelyStep, IsTimely, Reach, start, step,
}
use hivebus.Hivebus.Network.Sound.{
  IsSent, beat_sent, announce_sent, gossip_sent, own_frame, next_seq-lt, heartbeat_round-IsSent,
  announce_start-IsSent, gossip_round-IsSent,
}
use hivebus.Std.HashMap
use hivebus.Hivebus.Network.Family.{All-middle, update_lem, update_both}

heartbeat_round-lt :
    (setting : Setting) (i incarnation : ℕ) (now : SystemTime) (seq : ℕ)
    → (heartbeat_round setting.codecs.heartbeat i incarnation now seq).1 < 256
unfolding heartbeat_round
heartbeat_round-lt setting i incarnation now seq = next_seq-lt seq

gossip_round-lt :
    (setting : Setting) (i : ℕ) (m : Members) (now : SystemTime) (seq : ℕ)
    → seq < 256
    → (gossip_round setting.codecs.gossip i m now seq).1 < 256
unfolding gossip_round
gossip_round-lt setting i m now seq small = go (map (gossip_entry now) (HashMap.values m))
  where
    go : (xs : List _) → (gossip_entries setting.codecs.gossip i seq xs).1 < 256
    go [] = small
    go (x ∷ xs) = next_seq-lt seq

module _ (setting : Setting) (fits : (i : ℕ) → contains setting.cluster i ≡ true → i < 2 ^ 16)
    (order : (i : ℕ) → setting.suspect_threshold i ≤ setting.dead_threshold i)
    (short : (i : ℕ) → setting.suspect_threshold i < cleanup_threshold)
    (beats_read : ReadsBack setting.codecs.heartbeat)
    (announces_read : ReadsBack setting.codecs.announce)
    (gossips_read : ReadsBack setting.codecs.gossip) where
  IsPeer-at :
      (i k : ℕ)
      → contains setting.cluster k ≡ true
      → k ≢ i
      → IsPeer (node_at setting i) setting.cluster k
  IsPeer-at i k member other = record { member = member; other = other; fits = fits k member }

  own_Healthy :
      (i k : ℕ) (now : SystemTime) (from : SocketAddr) (ids : List ℕ) (m : Members) (buf : List ℕ)
      → (k == i) ≡ true
      → (on_datagram setting.codecs k now from buf m).0 ≡ m
      → Healthy (node_at setting i) setting.cluster ids m
      → Healthy
          (node_at setting i)
          setting.cluster
          ids
          (on_datagram setting.codecs i now from buf m).0
  own_Healthy i k now from ids m buf own same h =
      subst (Healthy (node_at setting i) setting.cluster ids)
        (sym (
          subst (λ j. (on_datagram setting.codecs j now from buf m).0 ≡ m)
            ((nat_eq.decides k i).0 own) same))
        h

  -- A frame on the wire leaves a healthy table healthy.
  received-Healthy :
      (i : ℕ) (now : SystemTime) (from : SocketAddr) (p : Packet) (ids : List ℕ) (m : Members)
      → IsSent setting p
      → Healthy (node_at setting i) setting.cluster ids m
      → Healthy
          (node_at setting i)
          setting.cluster
          (noted p.sender p.kind i ids)
          (on_datagram setting.codecs i now from p.bytes m).0
  received-Healthy i now from p ids m (beat_sent k seq pl buf member small sent) h =
      elim (Bool-cases (k == i)) [
        | inl own ↦ rw own (
            own_Healthy i k now from ids m buf own
              (own_frame setting.codecs setting.codecs.heartbeat heartbeat seq k pl buf now from m
                small (fits k member) sent)
              h)
        | inr other ↦
            rw other
              (beat now from seq k pl buf h (IsPeer-at i k member (ne_of_beq k i other)) small sent)
      ]
  received-Healthy i now from p ids m (announce_sent k seq pl buf member small sent) h =
      elim (Bool-cases (k == i)) [
        | inl own ↦ rw own (
            own_Healthy i k now from ids m buf own
              (own_frame setting.codecs setting.codecs.announce announce seq k pl buf now from m
                small (fits k member) sent)
              h)
        | inr other ↦
            rw other (
              joined now from seq k pl buf h (IsPeer-at i k member (ne_of_beq k i other)) small
                sent)
      ]
  received-Healthy i now from p ids m (gossip_sent k seq pl buf member small good sent) h =
      elim (Bool-cases (k == i)) [
        | inl own ↦
            own_Healthy i k now from ids m buf own
              (own_frame setting.codecs setting.codecs.gossip gossip seq k pl buf now from m small
                (fits k member) sent)
              h
        | inr other ↦
            gossiped now from seq k pl buf h (IsPeer-at i k member (ne_of_beq k i other)) small good
              sent
      ]

  -- What holds at all times.
  pub record IsRunning (net : Network) : Type 0 where
    pub sent : All (IsSent setting) net.wire
    pub beat_small : (i : ℕ) → net.beat_seq i < 256
    pub gossip_small : (i : ℕ) → net.gossip_seq i < 256
    pub healthy : (i : ℕ) → Healthy (node_at setting i) setting.cluster (net.heard i) (net.tables i)

  pub Step-IsRunning :
      {net net' : Network} (st : Step setting net net')
      → IsTimelyStep setting st
      → IsRunning net
      → IsRunning net'
  Step-IsRunning {net} (announces_once i member) timely r = record {
    sent =
        All-append (IsSent setting) _ net.wire
          (announce_start-IsSent setting i member
            (record (setting.announcement i) { incarnation = net.incarnation i }))
          r.sent;
    beat_small = r.beat_small;
    gossip_small = r.gossip_small;
    healthy = r.healthy;
  }
  Step-IsRunning {net} (beats_once i now member) timely r = record {
    sent =
        All-append (IsSent setting) _ net.wire
          (heartbeat_round-IsSent setting i member (net.incarnation i) now (net.beat_seq i)
            (r.beat_small i))
          r.sent;
    beat_small =
        update_lem (λ k n. n < 256) net.beat_seq i _
          (heartbeat_round-lt setting i (net.incarnation i) now (net.beat_seq i)) r.beat_small;
    gossip_small = r.gossip_small;
    healthy = r.healthy;
  }
  Step-IsRunning {net} (gossips_once i now member) timely r =
      let v = Reachable-IsValid (Healthy-Reachable (r.healthy i)) in
      let intact =
        Healthy-IsIntact (node_at setting i) setting.cluster (order i) (short i) beats_read
          announces_read gossips_read (r.healthy i) in
      record {
        sent =
            All-append (IsSent setting) _ net.wire
              (gossip_round-IsSent setting i member (net.tables i) now (net.gossip_seq i)
                (r.gossip_small i) v intact)
              r.sent;
        beat_small = r.beat_small;
        gossip_small =
            update_lem (λ k n. n < 256) net.gossip_seq i _
              (gossip_round-lt setting i (net.tables i) now (net.gossip_seq i) (r.gossip_small i))
              r.gossip_small;
        healthy = r.healthy;
      }
  Step-IsRunning {net} (receives i now from before p after member at) timely r =
      let p_sent =
        All-middle (IsSent setting) before p after (subst (All (IsSent setting)) at r.sent) in
      let here = received-Healthy i now from p (net.heard i) (net.tables i) p_sent (r.healthy i) in
      record {
        sent = r.sent;
        beat_small = r.beat_small;
        gossip_small = r.gossip_small;
        healthy =
            update_both (λ k ids m. Healthy (node_at setting k) setting.cluster ids m) net.heard
              net.tables i _ _ here r.healthy;
      }
  Step-IsRunning {net} (turns i now member) soon r =
      let after =
        detect i (setting.suspect_threshold i) (setting.dead_threshold i) now (net.tables i) in
      record {
        sent = r.sent;
        beat_small = r.beat_small;
        gossip_small = r.gossip_small;
        healthy =
            update_lem (λ k m. Healthy (node_at setting k) setting.cluster (net.heard k) m)
              net.tables i after (turned now (r.healthy i) soon) r.healthy;
      }
  Step-IsRunning {net} (restarts i incarnation member) timely r = record {
    sent = r.sent;
    beat_small = update_lem (λ k n. n < 256) net.beat_seq i 0 (omega arith) r.beat_small;
    gossip_small = update_lem (λ k n. n < 256) net.gossip_seq i 0 (omega arith) r.gossip_small;
    healthy =
        update_both (λ k ids m. Healthy (node_at setting k) setting.cluster ids m) net.heard
          net.tables i [] [] alone r.healthy;
  }

  pub Reach-IsRunning : {net : Network} (r : Reach setting net) → IsTimely setting r → IsRunning net
  Reach-IsRunning (start _) timely = record {
    sent = tt;
    beat_small = λ i. omega arith;
    gossip_small = λ i. omega arith;
    healthy = λ i. alone;
  }
  Reach-IsRunning (step r st) timely = Step-IsRunning st timely.1 (Reach-IsRunning r timely.0)

  -- Two nodes of a running network that heard all elect the same.
  pub running_agree :
      {net : Network} (i j : ℕ)
      → IsRunning net
      → contains setting.cluster i ≡ true
      → contains setting.cluster j ≡ true
      → ((k : ℕ) → contains setting.cluster k ≡ true → (k ≡ i) ⊎ (contains (net.heard i) k ≡ true))
      → ((k : ℕ) → contains setting.cluster k ≡ true → (k ≡ j) ⊎ (contains (net.heard j) k ≡ true))
      → (id : ℕ) × (master_from (net.tables i) i ≡ some id)
        × (master_from (net.tables j) j ≡ some id)
        × (contains setting.cluster id ≡ true)
        × ((k : ℕ) → contains setting.cluster k ≡ true → id ≤ k)
  running_agree {net} i j run own_i own_j all_i all_j =
      let (a, elected_a, member_a, least_a) =
        elects_lowest (node_at setting i) setting.cluster (order i) (short i) beats_read
          announces_read gossips_read (run.healthy i) own_i all_i in
      let (b, elected_b, member_b, least_b) =
        elects_lowest (node_at setting j) setting.cluster (order j) (short j) beats_read
          announces_read gossips_read (run.healthy j) own_j all_j in
      let same : b ≡ a = omega (arith, least_a b member_b, least_b a member_a) in
      (a, elected_a, elected_b ∙ (rw same refl), member_a, least_a)
