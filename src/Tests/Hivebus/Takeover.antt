-- ===== src/Tests/Hivebus/Takeover.antt =====
-- Two nodes whose master, node 3, is silent.
use hivebus.Prelude.{ℕ, ◌≤◌, ◌≡◌, ◌≢◌, refl, inl, inr, some, [], ◌∷◌, arith, nat_eq}
use hivebus.Std.HashMap
use hivebus.Std.Time.{from_secs}
use hivebus.Proto.Node.{alive}
use hivebus.Hivebus.Detector.Takeover.{Watch, IsWatch, elected, IsLive, take_over}
use hivebus.Tests.Data.{node, seen, later}

-- Node `id`, which has just heard node `other`.
abbrev left : ℕ → ℕ → Watch
left id other = record {
  self_id = id;
  suspect_threshold = from_secs 2;
  dead_threshold = from_secs 20;
  now = later;
  members = (3, node 3 alive seen) ∷ (other, node other alive later) ∷ [];
}

left-IsWatch : (id other : ℕ) → id ≢ 3 → other ≢ 3 → id ≢ other → IsWatch (left id other)
unfolding HashMap.get
left-IsWatch id other a b c = record {
  valid = record {
    entries = ((refl, λ e. a (omega arith)), ((refl, λ e. c (omega arith)), tt));
    distinct = (ground arith, (refl, tt));
  };
  order = omega arith;
  short = omega arith;
}

left-IsLive : (id other k : ℕ) → id ≢ 3 → IsLive (left id other) k → IsLive (left other id) k
unfolding HashMap.get
left-IsLive id other k b (inl own) =
    inr (node id alive later, ground (arith, own, b), (refl, omega arith, omega arith))
left-IsLive id other k b (inr (n, at, heard)) = inl (ground (arith, heard.1, heard.2))

take_over_example :
    (id : ℕ) × (elected (left 5 9) ≡ some id)
    × (elected (left 9 5) ≡ some id)
    × IsLive (left 5 9) id
    × ((k : ℕ) → IsLive (left 5 9) k → id ≤ k)
take_over_example =
    take_over (left 5 9) (left 9 5)
      (left-IsWatch 5 9 (λ e. omega arith) (λ e. omega arith) (λ e. omega arith))
      (left-IsWatch 9 5 (λ e. omega arith) (λ e. omega arith) (λ e. omega arith))
      (λ k. (left-IsLive 5 9 k (λ e. omega arith), left-IsLive 9 5 k (λ e. omega arith)))
