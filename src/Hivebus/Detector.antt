-- ===== src/Hivebus/Detector.antt =====
-- `failure_detector_task` of crates/hivebus/src/main.rs: one turn of its loop, at the time `now`.
pub mod Verdict
pub mod Flag
pub mod Repeat
pub mod Failover
pub mod Takeover
use hivebus.Prelude.{
  ℕ, ◌≡◌, Option, none, some, Bool, true, false, ◌&&◌, List, ltb, ◌==◌, nat_eq, if◌then◌else◌,
}
use hivebus.Std.HashMap
use hivebus.Std.Time.{SystemTime, Duration, duration_since, duration_max, from_secs}
use hivebus.Proto.Node.{NodeInfo, NodeState, alive, suspect, dead, state_eq}
use hivebus.Hivebus.Members.{Members, master_from}

abbrev pub cleanup_threshold : Duration
cleanup_threshold = from_secs 300

-- `now.duration_since(node.last_seen).unwrap_or(Duration::MAX)`
unfoldable pub age : SystemTime → NodeInfo → Duration
unfolding duration_max
age now node = elim (duration_since now node.last_seen) [ none ↦ duration_max | some d ↦ d ]

unfoldable pub is_recent : SystemTime → NodeInfo → Bool
unfolding age
is_recent now node = ltb (age now node) cleanup_threshold

-- The first loop over the members.
unfoldable pub judge : Duration → Duration → SystemTime → NodeInfo → NodeInfo
unfolding age
judge suspect_threshold dead_threshold now node =
    if ltb dead_threshold (age now node)
    then record node { state = dead }
    else if ltb suspect_threshold (age now node) && state_eq node.state alive
    then record node { state = suspect }
    else node

-- `Some(node.node_id) == master_id`
abbrev is_id : Option ℕ → ℕ → Bool
is_id none id = false
is_id (some master_id) id = id == master_id

-- The second loop over the members.
unfoldable pub flag : Option ℕ → NodeInfo → NodeInfo
flag master_id node = record node { is_master = is_id master_id node.node_id }

unfoldable pub survivors : Duration → Duration → SystemTime → Members → Members
survivors suspect_threshold dead_threshold now members =
    HashMap.values_mut (judge suspect_threshold dead_threshold now)
      (HashMap.retain (is_recent now) members)

unfoldable pub detect : ℕ → Duration → Duration → SystemTime → Members → Members
unfolding survivors
detect self_id suspect_threshold dead_threshold now members =
    let m = survivors suspect_threshold dead_threshold now members in
    HashMap.values_mut (flag (master_from m self_id)) m
