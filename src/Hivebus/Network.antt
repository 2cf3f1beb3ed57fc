-- ===== src/Hivebus/Network.antt =====
-- A cluster of nodes that run crates/hivebus/src/main.rs, with the network between them. Each node
-- has the tasks of the source: what they send is on the wire, and the wire hands out every frame in
-- any order, any number of times or never. A node may restart at any time, as another incarnation.
pub mod Sound
pub mod Agreement
pub mod Convergence
pub mod Family
pub mod Deliveries
use hivebus.Prelude.{
  ℕ, ◌+◌, ◌^◌, ◌<◌, ◌≡◌, true, List, [], ◌∷◌, ◌++◌, map, ◌==◌, nat_eq, if◌then◌else◌,
}
use hivebus.Std.Net.{SocketAddr, Datagram}
use hivebus.Std.Time.{SystemTime, Duration}
use hivebus.Proto.Payload.{AnnouncePayload}
use hivebus.Hivebus.Members.{Members}
use hivebus.Hivebus.Wire.{heartbeat_round, gossip_round, announce_start}
use hivebus.Hivebus.Listener.{Codecs, on_datagram}
use hivebus.Hivebus.Detector.{detect}
use hivebus.Hivebus.History.{Node}
use hivebus.Hivebus.Cluster.{contains, InTime}

-- What does not change: the identifiers, the codecs that all share, and what each node was started
-- with.
pub record Setting : Type 0 where
  pub cluster : List ℕ
  pub codecs : Codecs
  pub suspect_threshold : ℕ → Duration
  pub dead_threshold : ℕ → Duration
  pub announcement : ℕ → AnnouncePayload

abbrev pub node_at : Setting → ℕ → Node
node_at setting i = record {
  codecs = setting.codecs;
  self_id = i;
  suspect_threshold = setting.suspect_threshold i;
  dead_threshold = setting.dead_threshold i;
}

-- The task that sent a frame.
pub data Kind : Type 0 where
  beats announces gossips : Kind

pub record Packet : Type 0 where
  pub sender : ℕ
  pub kind : Kind
  pub bytes : List ℕ

abbrev pub packets : ℕ → Kind → List Datagram → List Packet
packets i kind = map (λ d. record { sender = i; kind = kind; bytes = d.bytes })

-- `heard` are the nodes of which a node received a heartbeat or an announcement since it started.
pub record Network : Type 0 where
  pub incarnation : ℕ → ℕ
  pub tables : ℕ → Members
  pub beat_seq : ℕ → ℕ
  pub gossip_seq : ℕ → ℕ
  pub wire : List Packet
  pub heard : ℕ → List ℕ

-- A family with the value at one index replaced.
abbrev pub update {ℓ} : {A : Type ℓ} → (ℕ → A) → ℕ → A → ℕ → A
update f i a j = if i == j then a else f j

abbrev pub noted : ℕ → Kind → ℕ → List ℕ → List ℕ
noted sender gossips self_id ids = ids
noted sender beats self_id ids = if sender == self_id then ids else sender ∷ ids
noted sender announces self_id ids = if sender == self_id then ids else sender ∷ ids

-- What the tasks of node `i` do to the network.
module _ (setting : Setting) (i : ℕ) (net : Network) where
  abbrev pub announced : Network
  announced =
      let pl : AnnouncePayload = record (setting.announcement i) {
        incarnation = net.incarnation i;
      } in
      let sent = announce_start setting.codecs.announce i pl in
      record net { wire = packets i announces sent ++ net.wire }

  abbrev pub beaten : SystemTime → Network
  beaten now =
      let (sent, next) =
        heartbeat_round setting.codecs.heartbeat i (net.incarnation i) now (net.beat_seq i) in
      record net { wire = packets i beats sent ++ net.wire; beat_seq = update net.beat_seq i next }

  abbrev pub gossiped : SystemTime → Network
  gossiped now =
      let (sent, next) =
        gossip_round setting.codecs.gossip i (net.tables i) now (net.gossip_seq i) in
      record net {
        wire = packets i gossips sent ++ net.wire;
        gossip_seq = update net.gossip_seq i next;
      }

  abbrev pub received : SystemTime → SocketAddr → Packet → Network
  received now from p = record net {
    tables = update net.tables i (on_datagram setting.codecs i now from p.bytes (net.tables i)).0;
    heard = update net.heard i (noted p.sender p.kind i (net.heard i));
  }

  abbrev pub turned : SystemTime → Network
  turned now = record net {
    tables =
        update net.tables i
          (detect i (setting.suspect_threshold i) (setting.dead_threshold i) now (net.tables i));
  }

  -- The node is stopped and started again: nothing of its state is left but what is on the wire.
  abbrev pub restarted : ℕ → Network
  restarted incarnation = record net {
    incarnation = update net.incarnation i incarnation;
    tables = update net.tables i [];
    beat_seq = update net.beat_seq i 0;
    gossip_seq = update net.gossip_seq i 0;
    heard = update net.heard i [];
  }

-- Which task of which node does something, and when.
pub data Step (setting : Setting) (net : Network) : Network → Type 0 where
  announces_once :
      (i : ℕ) → contains setting.cluster i ≡ true → Step setting net (announced setting i net)
  beats_once :
      (i : ℕ) (now : SystemTime)
      → contains setting.cluster i ≡ true
      → Step setting net (beaten setting i net now)
  gossips_once :
      (i : ℕ) (now : SystemTime)
      → contains setting.cluster i ≡ true
      → Step setting net (gossiped setting i net now)
  receives :
      (i : ℕ) (now : SystemTime) (from : SocketAddr) (before : List Packet) (p : Packet)
      (after : List Packet)
      → contains setting.cluster i ≡ true
      → net.wire ≡ before ++ p ∷ after
      → Step setting net (received setting i net now from p)
  turns :
      (i : ℕ) (now : SystemTime)
      → contains setting.cluster i ≡ true
      → Step setting net (turned setting i net now)
  restarts :
      (i incarnation : ℕ)
      → contains setting.cluster i ≡ true
      → Step setting net (restarted setting i net incarnation)

abbrev pub silent : (ℕ → ℕ) → Network
silent incarnation = record {
  incarnation = incarnation;
  tables = λ i. [];
  beat_seq = λ i. 0;
  gossip_seq = λ i. 0;
  wire = [];
  heard = λ i. [];
}

pub data Reach (setting : Setting) : Network → Type 0 where
  start : (incarnation : ℕ → ℕ) → Reach setting (silent incarnation)
  step : {net net' : Network} → Reach setting net → Step setting net net' → Reach setting net'

-- No turn of a failure detector comes later than its suspect threshold after a member of its table
-- was last seen.
abbrev pub IsTimelyStep : (setting : Setting) {net net' : Network} → Step setting net net' → Type 0
IsTimelyStep setting {net} (turns i now member) = InTime (node_at setting i) now (net.tables i)
IsTimelyStep setting _ = Unit

abbrev pub IsTimely : (setting : Setting) {net : Network} → Reach setting net → Type 0
IsTimely setting (start incarnation) = Unit
IsTimely setting (step r st) = IsTimely setting r × IsTimelyStep setting st
