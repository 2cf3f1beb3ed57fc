-- ===== src/Hivebus/Members/Master.antt =====
-- `master_from` of crates/hivebus/src/main.rs against the rule that it implements: the lowest
-- identifier of an Alive node, the node itself included.
use mathlib.Core.List.{head?}
use hivebus.Prelude.{
  ℕ, ◌≤◌, ◌≡◌, ◌≢◌, ◌⊎◌, inl, inr, refl, none, some, List, [], ◌∷◌, ◌++◌, arith, min, nat_eq,
  sort_by_key, insert_by_key, filter,
}
use hivebus.Std.HashMap
use hivebus.Std.HashMap.{HashMap}
use hivebus.Proto.Node.{NodeInfo, alive}
use hivebus.Hivebus.Members.{Members, alive_ids, master_from, IsValid}

-- The least of some numbers and one more.
least : ℕ → List ℕ → ℕ
least last [] = last
least last (x ∷ xs) = min x (least last xs)

abbrev key : ℕ → ℕ
key id = id

head?-insert :
    (x y : ℕ) (l : List ℕ) → head? l ≡ some y → head? (insert_by_key key x l) ≡ some (min x y)
unfolding insert_by_key
head?-insert x y [] h = cc
head?-insert x y (z ∷ zs) h = ground arith

head?-sort :
    (last : ℕ) (xs : List ℕ) → head? (sort_by_key key (xs ++ last ∷ [])) ≡ some (least last xs)
unfolding sort_by_key least
head?-sort last [] = refl
head?-sort last (x ∷ xs) =
    head?-insert x (least last xs) (sort_by_key key (xs ++ last ∷ [])) (head?-sort last xs)

-- The identifier that is elected.
pub lowest : Members → ℕ → ℕ
lowest members self_id = least self_id (alive_ids members)

pub master_from-lowest :
    (m : Members) (self_id : ℕ) → master_from m self_id ≡ some (lowest m self_id)
unfolding master_from lowest
master_from-lowest m self_id = head?-sort self_id (alive_ids m)

pub lowest-le_self : (m : Members) (self_id : ℕ) → lowest m self_id ≤ self_id
unfolding lowest least
lowest-le_self m self_id = go (alive_ids m)
  where
    go : (xs : List ℕ) → least self_id xs ≤ self_id
    go [] = omega arith
    go (x ∷ xs) = omega (arith, go xs)

abbrev Entries : ℕ → Members → Type 0
Entries self_id m = HashMap.AllEntries (λ k n. (n.node_id ≡ k) × (k ≢ self_id)) m

lowest-le_entry :
    (self_id : ℕ) (m : Members) (k : ℕ) (n : NodeInfo)
    → Entries self_id m
    → HashMap.get m k ≡ some n
    → n.state ≡ alive
    → lowest m self_id ≤ k
unfolding lowest least alive_ids filter HashMap.get
lowest-le_entry self_id [] k n h found up = cc
lowest-le_entry self_id ((j, w) ∷ m) k n h found up =
    ground (arith, lowest-le_entry self_id m k n h.1)

-- What it takes to be elected: to be the node itself or an Alive entry.
abbrev pub IsCandidate : ℕ → Members → ℕ → Type 0
IsCandidate self_id m id =
    (id ≡ self_id) ⊎ ((n : NodeInfo) × (HashMap.get m id ≡ some n) × (n.state ≡ alive))

lowest-cons :
    (self_id j : ℕ) (w : NodeInfo) (m : Members)
    → w.node_id ≡ j
    → ((lowest ((j, w) ∷ m) self_id ≡ j) × (w.state ≡ alive))
      ⊎ (lowest ((j, w) ∷ m) self_id ≡ lowest m self_id)
unfolding lowest least alive_ids filter
lowest-cons self_id j w m e = ground arith

IsCandidate-cons :
    (self_id j id : ℕ) (w : NodeInfo) (m : Members)
    → HashMap.get m j ≡ none
    → IsCandidate self_id m id
    → IsCandidate self_id ((j, w) ∷ m) id
unfolding HashMap.get
IsCandidate-cons self_id j id w m fresh (inl e) = inl e
IsCandidate-cons self_id j id w m fresh (inr (n, found, up)) = inr (n, ground arith, up)

lowest-IsCandidate :
    (self_id : ℕ) (m : Members)
    → Entries self_id m
    → HashMap.IsDistinct m
    → IsCandidate self_id m (lowest m self_id)
unfolding HashMap.get
lowest-IsCandidate self_id [] h d = inl (unfold lowest least alive_ids filter in refl)
lowest-IsCandidate self_id ((j, w) ∷ m) h d = elim (lowest-cons self_id j w m h.0.0) [
  | inl (e, up) ↦ rw e (inr (w, ground arith, up))
  | inr e ↦
      rw e (
        IsCandidate-cons self_id j (lowest m self_id) w m d.0
          (lowest-IsCandidate self_id m h.1 d.1))
]

-- The master of a well-formed table always exists. It is the node itself or an Alive member, and
-- its identifier is at most the node's own and every Alive member's.
pub master_from_lem :
    (self_id : ℕ) (m : Members)
    → IsValid self_id m
    → (id : ℕ) × (master_from m self_id ≡ some id)
      × IsCandidate self_id m id
      × (id ≤ self_id)
      × ((k : ℕ) (n : NodeInfo) → HashMap.get m k ≡ some n → n.state ≡ alive → id ≤ k)
master_from_lem self_id m v = (
  lowest m self_id,
  master_from-lowest m self_id,
  lowest-IsCandidate self_id m v.entries v.distinct,
  lowest-le_self m self_id,
  λ k n. lowest-le_entry self_id m k n v.entries,
)

pub lowest-le_candidate :
    (self_id : ℕ) (m : Members) (k : ℕ)
    → IsValid self_id m
    → IsCandidate self_id m k
    → lowest m self_id ≤ k
lowest-le_candidate self_id m k v (inl e) = omega (arith, lowest-le_self m self_id)
lowest-le_candidate self_id m k v (inr (n, found, up)) =
    lowest-le_entry self_id m k n v.entries found up

-- Two nodes that see the same nodes alive, each counting itself, elect the same master.
pub master_from_agree :
    (a b : ℕ) (ma mb : Members)
    → IsValid a ma
    → IsValid b mb
    → ((k : ℕ) → IsCandidate a ma k → IsCandidate b mb k)
    → ((k : ℕ) → IsCandidate b mb k → IsCandidate a ma k)
    → master_from ma a ≡ master_from mb b
master_from_agree a b ma mb va vb there back =
    let up =
      lowest-le_candidate b mb (lowest ma a) vb
        (there _ (lowest-IsCandidate a ma va.entries va.distinct)) in
    let down =
      lowest-le_candidate a ma (lowest mb b) va
        (back _ (lowest-IsCandidate b mb vb.entries vb.distinct)) in
    let same : lowest ma a ≡ lowest mb b = omega arith in
    rw (master_from-lowest, master_from-lowest, same)
