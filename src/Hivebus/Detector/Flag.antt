-- ===== src/Hivebus/Detector/Flag.antt =====
-- The master flags after a turn of the failure detector of crates/hivebus/src/main.rs.
use hivebus.Prelude.{
  ℕ, ◌≤◌, ◌<◌, ◌≡◌, ◌≢◌, ◌↔◌, inl, inr, refl, Option, some, true, [], ◌∷◌, arith, nat_eq, filter,
  Option-cases,
}
use hivebus.Std.HashMap
use hivebus.Std.Time.{SystemTime, Duration}
use hivebus.Proto.Node.{NodeInfo, alive}
use hivebus.Hivebus.Members.{Members, IsValid, alive_ids, master_from}
use hivebus.Hivebus.Members.Master.{IsCandidate, master_from_lem}
use hivebus.Hivebus.Detector.{flag, survivors, detect}
use hivebus.Hivebus.Detector.Verdict.{survivors-IsValid, detect-IsValid}

alive_ids-flag :
    (id : Option ℕ) (m : Members) → alive_ids (HashMap.values_mut (flag id) m) ≡ alive_ids m
unfolding alive_ids flag filter
alive_ids-flag id [] = refl
alive_ids-flag id ((k, n) ∷ m) = ground (arith, alive_ids-flag id m)

-- Flags do not count in the election.
pub master_from-flag :
    (id : Option ℕ) (m : Members) (self_id : ℕ)
    → master_from (HashMap.values_mut (flag id) m) self_id ≡ master_from m self_id
unfolding master_from
master_from-flag id m self_id = rw alive_ids-flag

candidate_state :
    (self_id k : ℕ) (m : Members) (n : NodeInfo)
    → IsCandidate self_id m k
    → k ≢ self_id
    → HashMap.get m k ≡ some n
    → n.state ≡ alive
candidate_state self_id k m n (inl e) other found = absurd (other e)
candidate_state self_id k m n (inr (n', found', up)) other found = ground arith

module _ (self_id : ℕ) (s d : Duration) (now : SystemTime) (m : Members) (v : IsValid self_id m)
    (k : ℕ) (n : NodeInfo) (found : HashMap.get (detect self_id s d now m) k ≡ some n) where
  -- A member that stands in the table after a turn over a well-formed table is flagged as master
  -- exactly if the election over the new table gives its identifier.
  pub detect_flags :
      (n.is_master ≡ true) ↔ (master_from (detect self_id s d now m) self_id ≡ some k)
  unfolding detect
  detect_flags =
      let sv = survivors s d now m in
      let id = master_from sv self_id in
      rw master_from-flag (elim (Option-cases (HashMap.get sv k)) [
        | inl e ↦ absurd (ground (arith, HashMap.get-values_mut (flag id) sv k))
        | inr (n0, e) ↦
            unfold flag in
            ground (
              arith,
              HashMap.get-values_mut (flag id) sv k,
              HashMap.AllEntries-get (λ k n. (n.node_id ≡ k) × (k ≢ self_id)) sv k
                  (survivors-IsValid self_id s d now m v).entries e,
            )
      ])

  -- A member that is flagged after a turn over a well-formed table is Alive, and its identifier is
  -- below the node's own and at most that of every Alive member of the new table.
  pub detect_flagged :
      n.is_master ≡ true
      → (n.state ≡ alive)
        × (k < self_id)
        × ((j : ℕ) (o : NodeInfo)
            → HashMap.get (detect self_id s d now m) j ≡ some o
            → o.state ≡ alive
            → k ≤ j)
  detect_flagged flagged =
      let valid = detect-IsValid self_id s d now m v in
      let (id, elected, candidate, below, least) = master_from_lem self_id _ valid in
      let same : id ≡ k = ground (arith, detect_flags.0 flagged) in
      let (own, other) =
        HashMap.AllEntries-get (λ k n. (n.node_id ≡ k) × (k ≢ self_id)) _ k valid.entries found in
      (
        candidate_state self_id k _ n (rw same at candidate) other found,
        omega arith,
        λ j o f up. rw (← same) (least j o f up),
      )
