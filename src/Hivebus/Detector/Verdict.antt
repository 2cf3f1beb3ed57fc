-- ===== src/Hivebus/Detector/Verdict.antt =====
-- What a turn of the failure detector of crates/hivebus/src/main.rs makes of one member.
use hivebus.Prelude.{
  ◌⊎◌, ℕ, ◌+◌, ◌-◌, ◌≤◌, ◌<◌, ◌≡◌, ◌≢◌, ◌↔◌, inl, inr, refl, none, some, true, ◌&&◌, arith, ltb,
  nat_eq, if◌then◌else◌, Bool-cases,
}
use hivebus.Std.HashMap
use hivebus.Std.Time.{SystemTime, Duration}
use hivebus.Proto.Node.{NodeInfo, NodeState, alive, suspect, dead, state_eq}
use hivebus.Hivebus.Members.{Members, IsValid, master_from}
use hivebus.Hivebus.Detector.{cleanup_threshold, age, is_recent, judge, flag, survivors, detect}

judge-node_id :
    (s d : Duration) (now : SystemTime) (n : NodeInfo) → (judge s d now n).node_id ≡ n.node_id
unfolding judge
judge-node_id s d now n = ground arith

module _ (self_id : ℕ) (s d : Duration) (now : SystemTime) where
  pub survivors-IsValid : (m : Members) → IsValid self_id m → IsValid self_id (survivors s d now m)
  unfolding survivors
  survivors-IsValid m v = record {
    entries =
        HashMap.AllEntries-values_mut _ (judge s d now) (HashMap.retain (is_recent now) m)
          (λ k n p. (rw judge-node_id p.0, p.1))
          (HashMap.AllEntries-retain _ (is_recent now) m v.entries);
    distinct =
        HashMap.values_mut-IsDistinct (judge s d now) _
          (HashMap.retain-IsDistinct (is_recent now) m v.distinct);
  }

  -- A turn of the failure detector keeps the table well formed.
  pub detect-IsValid :
      (m : Members) → IsValid self_id m → IsValid self_id (detect self_id s d now m)
  unfolding detect flag
  detect-IsValid m v =
      let v' = survivors-IsValid m v in
      record {
        entries =
            HashMap.AllEntries-values_mut _ (flag (master_from (survivors s d now m) self_id))
              (survivors s d now m) (λ k n p. p) v'.entries;
        distinct = HashMap.values_mut-IsDistinct _ (survivors s d now m) v'.distinct;
      }

  pub get-survivors :
      (m : Members) (k : ℕ)
      → IsValid self_id m
      → HashMap.get (survivors s d now m) k ≡ (elim (HashMap.get m k) [
        | none ↦ none
        | some n ↦ (if is_recent now n then some (judge s d now n) else none)
      ])
  unfolding survivors
  get-survivors m k v = ground (
    arith,
    HashMap.get-values_mut (judge s d now) (HashMap.retain (is_recent now) m) k,
    HashMap.get-retain (is_recent now) m k v.distinct,
  )

-- The states that a member may pass between in one turn, for a member last heard from `a`
-- nanoseconds ago.
pub data Verdict (s d a : Duration) (before : NodeState) : NodeState → Type 0 where
  silent : d < a → Verdict s d a before dead
  late : a ≤ d → s < a → before ≡ alive → Verdict s d a before suspect
  in_time : a ≤ d → a ≤ s → Verdict s d a before before
  was_doubted : a ≤ d → before ≢ alive → Verdict s d a before before

-- Nothing but the state and the master flag differs.
pub record SamePeer (n n' : NodeInfo) : Type 0 where
  pub node_id : n'.node_id ≡ n.node_id
  pub hostname : n'.hostname ≡ n.hostname
  pub control_addr : n'.control_addr ≡ n.control_addr
  pub incarnation : n'.incarnation ≡ n.incarnation
  pub last_seen : n'.last_seen ≡ n.last_seen

module _ (s d : Duration) (now : SystemTime) where
  state-Verdict :
      (a : Duration) (st : NodeState)
      → Verdict s d a st
          (if ltb d a then dead else if ltb s a && state_eq st alive then suspect else st)
  state-Verdict a st = elim (Bool-cases (ltb d a)) [
    | inl p ↦ rw p (silent (ground arith))
    | inr p ↦ rw p (elim (Bool-cases (ltb s a)) [
      | inl q ↦ rw q (doubt st (ground arith) (ground arith))
      | inr q ↦ rw q (in_time (ground arith) (ground arith))
    ])
  ]
    where
      doubt :
          (st : NodeState)
          → a ≤ d
          → s < a
          → Verdict s d a st (if state_eq st alive then suspect else st)
      doubt alive le lt = late le lt refl
      doubt suspect le lt = was_doubted le (ground arith)
      doubt dead le lt = was_doubted le (ground arith)

  state-judge :
      (n : NodeInfo)
      → (judge s d now n).state ≡ (
          if ltb d (age now n)
          then dead
          else if ltb s (age now n) && state_eq n.state alive
          then suspect
          else n.state)
  unfolding judge
  state-judge n = ground arith

  age_seen : (n : NodeInfo) → n.last_seen ≤ now → age now n ≡ now - n.last_seen
  unfolding age
  age_seen n seen = ground arith

  module _ (self_id : ℕ) (m : Members) (v : IsValid self_id m) (k : ℕ) (n : NodeInfo)
      (known : HashMap.get m k ≡ some n) where
    -- A turn over a well-formed table drops a member exactly if it was last seen 300 seconds ago
    -- or earlier, or at a time that is still to come.
    pub detect_drops_iff :
        (HashMap.get (detect self_id s d now m) k ≡ none)
        ↔ ((now < n.last_seen) ⊎ (n.last_seen + cleanup_threshold ≤ now))
    unfolding detect is_recent age
    detect_drops_iff = ground (
      arith,
      HashMap.get-values_mut (flag (master_from (survivors s d now m) self_id))
          (survivors s d now m) k,
      get-survivors self_id s d now m k v,
    )

    -- A member of a well-formed table that was last seen less than 300 seconds ago, and not in the
    -- future, is kept. Its new state is Dead after the dead threshold, Suspect if it was Alive and
    -- is past the suspect threshold only, and else what it was. Apart from the state and the
    -- master flag nothing of it changes.
    pub detect-Verdict :
        n.last_seen ≤ now
        → now < n.last_seen + cleanup_threshold
        → (n' : NodeInfo) × (HashMap.get (detect self_id s d now m) k ≡ some n')
          × Verdict s d (now - n.last_seen) n.state n'.state
          × SamePeer n n'
    unfolding detect
    detect-Verdict seen recent = (
      flag (master_from (survivors s d now m) self_id) (judge s d now n),
      ground (
        arith,
        HashMap.get-values_mut (flag (master_from (survivors s d now m) self_id))
            (survivors s d now m) k,
        get-survivors self_id s d now m k v,
        recent_kept,
      ),
      unfold flag in rw (state-judge, age_seen, seen) (state-Verdict (now - n.last_seen) n.state),
      unfold flag judge in
          record {
            node_id = ground arith;
            hostname = ground arith;
            control_addr = ground arith;
            incarnation = ground arith;
            last_seen = ground arith;
          },
    )
      where
        recent_kept : is_recent now n ≡ true
        recent_kept = unfold is_recent age in ground arith
