-- ===== src/Hivebus/Detector/Takeover.antt =====
-- What the nodes of crates/hivebus/src/main.rs that are left make of a silent master.
use hivebus.Prelude.{ℕ, ◌≤◌, ◌<◌, ◌≡◌, ◌↔◌, ◌⊎◌, ◌∙◌, refl, inl, inr, Option, some, arith, nat_eq}
use hivebus.Std.HashMap
use hivebus.Std.Time.{SystemTime, Duration}
use hivebus.Proto.Node.{NodeInfo}
use hivebus.Hivebus.Members.{Members, master_from, IsValid}
use hivebus.Hivebus.Detector.{cleanup_threshold, detect}
use hivebus.Hivebus.Detector.Failover.{IsHeard, detect_elects}

-- A node at the time of a turn of its failure detector.
pub record Watch : Type 0 where
  pub self_id : ℕ
  pub suspect_threshold : Duration
  pub dead_threshold : Duration
  pub now : SystemTime
  pub members : Members

pub record IsWatch (w : Watch) : Type 0 where
  pub valid : IsValid w.self_id w.members
  pub order : w.suspect_threshold ≤ w.dead_threshold
  pub short : w.suspect_threshold < cleanup_threshold

-- The master after the turn.
abbrev pub elected : Watch → Option ℕ
elected w =
    master_from (detect w.self_id w.suspect_threshold w.dead_threshold w.now w.members) w.self_id

-- The node itself, or one that stands as Alive in its table and was heard in time.
abbrev pub IsLive : Watch → ℕ → Type 0
IsLive w k =
    (k ≡ w.self_id)
    ⊎ ((n : NodeInfo) × (HashMap.get w.members k ≡ some n) × IsHeard w.suspect_threshold w.now n)

elects-IsLive :
    (w : Watch)
    → IsWatch w
    → (id : ℕ) × (elected w ≡ some id) × IsLive w id × ((k : ℕ) → IsLive w k → id ≤ k)
elects-IsLive w is_watch =
    let (id, is_elected, live, low, least) =
      detect_elects w.self_id w.suspect_threshold w.dead_threshold w.now w.members is_watch.valid
        is_watch.order is_watch.short in
    (id, is_elected, live, bound id low least)
  where
    bound :
        (id : ℕ)
        → id ≤ w.self_id
        → ((k : ℕ) (n : NodeInfo)
            → HashMap.get w.members k ≡ some n
            → IsHeard w.suspect_threshold w.now n
            → id ≤ k)
        → (k : ℕ) → IsLive w k
        → id ≤ k
    bound id low least k (inl own) = omega (arith, low, own)
    bound id low least k (inr (n, at, heard)) = least k n at heard

-- Two nodes elect the same master in their next turns if the same nodes are live to both: the node
-- itself, and those that its table has as Alive before the turn and last seen before it by at most
-- its suspect threshold. It is the lowest of these nodes. The turns are at times and with thresholds of their
-- own. So nodes that agree on who is live replace a silent master by the same node. A node that
-- gossip has made Suspect counts as not live, however lately it was heard. The tables are well
-- formed, and each suspect threshold is at most the dead threshold and below 300 seconds.
pub take_over :
    (a b : Watch)
    → IsWatch a
    → IsWatch b
    → ((k : ℕ) → IsLive a k ↔ IsLive b k)
    → (id : ℕ) × (elected a ≡ some id)
      × (elected b ≡ some id)
      × IsLive a id
      × ((k : ℕ) → IsLive a k → id ≤ k)
take_over a b is_a is_b alike =
    let (p, elected_p, live_p, least_p) = elects-IsLive a is_a in
    let (q, elected_q, live_q, least_q) = elects-IsLive b is_b in
    let low : p ≤ q = least_p q ((alike q).1 live_q) in
    let high : q ≤ p = least_q p ((alike p).0 live_p) in
    let same : q ≡ p = omega arith in (p, elected_p, elected_q ∙ (rw same refl), live_p, least_p)
