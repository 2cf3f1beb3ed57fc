-- ===== src/Hivebus/Detector/Failover.antt =====
-- Whom the failure detector of crates/hivebus/src/main.rs lets win the election.
use hivebus.Prelude.{
  ℕ, ◌+◌, ◌-◌, ◌≤◌, ◌<◌, ◌≡◌, ◌≢◌, ◌⊎◌, inl, inr, none, some, arith, Option-cases, nat_eq,
}
use hivebus.Std.HashMap
use hivebus.Std.Time.{SystemTime, Duration}
use hivebus.Proto.Node.{NodeInfo, NodeState, alive}
use hivebus.Hivebus.Members.{Members, master_from, IsValid}
use hivebus.Hivebus.Members.Master.{master_from_lem, IsCandidate}
use hivebus.Hivebus.Detector.{cleanup_threshold, detect, survivors, flag}
use hivebus.Hivebus.Detector.Verdict.{
  Verdict, silent, late, in_time, was_doubted, detect-IsValid, get-survivors, detect-Verdict,
  detect_drops_iff,
}
use hivebus.Hivebus.History.Liveness.{Verdict-alive}

-- Who is still Alive was so before and was heard within the suspect threshold.
alive-Verdict :
    {s d a : Duration} {before after : NodeState}
    → after ≡ alive
    → Verdict s d a before after
    → (before ≡ alive) × (a ≤ s)
alive-Verdict up (silent lt) = absurd (ground arith)
alive-Verdict up (late le lt e) = absurd (ground arith)
alive-Verdict up (in_time le le') = (up, le')
alive-Verdict up (was_doubted le ne) = absurd (ne up)

-- Alive, and heard within the suspect threshold before the turn.
abbrev pub IsHeard : Duration → SystemTime → NodeInfo → Type 0
IsHeard s now n = (n.state ≡ alive) × (n.last_seen ≤ now) × (now ≤ n.last_seen + s)

module _ (self_id : ℕ) (s d : Duration) (now : SystemTime) (m : Members)
    (v : IsValid self_id m) where
  pub detect-none :
      (k : ℕ) → HashMap.get m k ≡ none → HashMap.get (detect self_id s d now m) k ≡ none
  unfolding detect
  detect-none k fresh = ground (
    arith,
    HashMap.get-values_mut (flag (master_from (survivors s d now m) self_id)) (survivors s d now m)
        k,
    get-survivors self_id s d now m k v,
  )

  kept_in_time :
      (k : ℕ) (n : NodeInfo)
      → HashMap.get m k ≡ some n
      → HashMap.get (detect self_id s d now m) k ≢ none
      → (n.last_seen ≤ now) × (now < n.last_seen + cleanup_threshold)
  kept_in_time k n known kept =
      let drops = detect_drops_iff s d now self_id m v k n known in
      (ground (arith, drops.1), ground (arith, drops.1))

  -- The candidates of the new table were heard.
  candidate-IsHeard :
      (id : ℕ)
      → IsCandidate self_id (detect self_id s d now m) id
      → (id ≡ self_id) ⊎ ((n : NodeInfo) × (HashMap.get m id ≡ some n) × IsHeard s now n)
  candidate-IsHeard id (inl e) = inl e
  candidate-IsHeard id (inr (n', at, up)) = elim (Option-cases (HashMap.get m id)) [
    | inl fresh ↦ absurd (ground (arith, detect-none id fresh))
    | inr (n, known) ↦
        let (seen, recent) = kept_in_time id n known (λ dropped. absurd (ground arith)) in
        let (n'', at', verdict, same) = detect-Verdict s d now self_id m v id n known seen recent in
        let up' : n''.state ≡ alive = ground arith in
        let (was_up, soon) = alive-Verdict {s = s} {d = d} {a = now - n.last_seen} up' verdict in
        inr (n, known, (was_up, seen, omega arith))
  ]

  -- After a turn of the failure detector over a well-formed table the master is the node itself or
  -- a member that was Alive and heard within the suspect threshold, and it has the lowest
  -- identifier of these. So a master that is silent for longer is replaced. The suspect threshold
  -- is at most the dead threshold and below 300 seconds.
  pub detect_elects :
      s ≤ d
      → s < cleanup_threshold
      → (id : ℕ) × (master_from (detect self_id s d now m) self_id ≡ some id)
        × ((id ≡ self_id) ⊎ ((n : NodeInfo) × (HashMap.get m id ≡ some n) × IsHeard s now n))
        × (id ≤ self_id)
        × ((k : ℕ) (n : NodeInfo) → HashMap.get m k ≡ some n → IsHeard s now n → id ≤ k)
  detect_elects order short =
      let (id, elected, candidate, low, least) =
        master_from_lem self_id (detect self_id s d now m) (detect-IsValid self_id s d now m v) in
      (
        id,
        elected,
        candidate-IsHeard id candidate,
        low,
        λ k n known (up, seen, soon).
            let (n', at, verdict, same) =
              detect-Verdict s d now self_id m v k n known seen (omega arith) in
            least k n' at (
              Verdict-alive {s = s} {d = d} {a = now - n.last_seen} (omega arith) (omega arith) up
                verdict),
      )
