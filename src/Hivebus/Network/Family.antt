-- ===== src/Hivebus/Network/Family.antt =====
-- Families with a value for each node, and what holds at every node after one is replaced.
use mathlib.Core.Path.{subst}
use hivebus.Prelude.{ℕ, inl, inr, List, [], ◌∷◌, ◌++◌, ◌==◌, nat_eq, All, Bool-cases}
use hivebus.Hivebus.Network.{update}

pub All-middle {ℓ} :
    {A : Type 0} (P : A → Type ℓ) (before : List A) (a : A) (after : List A)
    → All P (before ++ a ∷ after)
    → P a
All-middle P [] a after h = h.0
All-middle P (b ∷ before) a after h = All-middle P before a after h.1

-- What holds at every index after the value at one was replaced.
pub update_lem :
    {A : Type 0} (P : ℕ → A → Type 0) (f : ℕ → A) (i : ℕ) (a : A)
    → P i a
    → ((k : ℕ) → P k (f k))
    → (k : ℕ) → P k (update f i a k)
update_lem P f i a new old k = elim (Bool-cases (i == k)) [
  | inl p ↦ rw p (subst (λ j. P j a) ((nat_eq.decides i k).0 p) new)
  | inr p ↦ rw p (old k)
]

pub update_both :
    {A B : Type 0} (P : ℕ → A → B → Type 0) (f : ℕ → A) (g : ℕ → B) (i : ℕ) (a : A) (b : B)
    → P i a b
    → ((k : ℕ) → P k (f k) (g k))
    → (k : ℕ) → P k (update f i a k) (update g i b k)
update_both P f g i a b new old k = elim (Bool-cases (i == k)) [
  | inl p ↦ rw p (subst (λ j. P j a b) ((nat_eq.decides i k).0 p) new)
  | inr p ↦ rw p (old k)
]
