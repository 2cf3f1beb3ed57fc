-- ===== src/Prelude/Sort.antt =====
-- `sort_unstable_by_key`, as an insertion sort: the order of equal keys is the input's.
use Prim.Native.Nat.{ℕ, ◌≤◌, ◌<◌}
use mathlib.Core.Logic.{◌≢◌, inl, inr}
use mathlib.Core.List.{List, [], ◌∷◌, Perm}
use mathlib.Core.List.Perm
use native.Mathlib.Omega.{arith}
use hivebus.Prelude.Tests.{leb, if◌then◌else◌, Bool-cases}
use hivebus.Prelude.Lists.{All}

module _ {ℓ} {A : Type ℓ} (key : A → ℕ) where
  unfoldable pub insert_by_key : A → List A → List A
  insert_by_key x [] = x ∷ []
  insert_by_key x (y ∷ ys) = if leb (key x) (key y) then x ∷ y ∷ ys else y ∷ insert_by_key x ys

  unfoldable pub sort_by_key : List A → List A
  unfolding insert_by_key
  sort_by_key [] = []
  sort_by_key (x ∷ xs) = insert_by_key x (sort_by_key xs)

  -- Every element's key is at most the keys behind it.
  abbrev pub IsSorted : List A → Type 0
  IsSorted [] = Unit
  IsSorted (x ∷ xs) = All (λ y. key x ≤ key y) xs × IsSorted xs

  All-le_trans : {a b : ℕ} (ys : List A) → a ≤ b → All (λ y. b ≤ key y) ys → All (λ y. a ≤ key y) ys
  All-le_trans [] h all = tt
  All-le_trans (y ∷ ys) h all = (omega arith, All-le_trans ys h all.1)

  insert_by_key-All :
      (P : A → Type 0) (x : A) (ys : List A) → P x → All P ys → All P (insert_by_key x ys)
  unfolding insert_by_key
  insert_by_key-All P x [] px all = (px, tt)
  insert_by_key-All P x (y ∷ ys) px all = elim (Bool-cases (leb (key x) (key y))) [
    | inl p ↦ rw p (px, all)
    | inr p ↦ rw p (all.0, insert_by_key-All P x ys px all.1)
  ]

  insert_by_key-IsSorted : (x : A) (ys : List A) → IsSorted ys → IsSorted (insert_by_key x ys)
  unfolding insert_by_key
  insert_by_key-IsSorted x [] h = (tt, tt)
  insert_by_key-IsSorted x (y ∷ ys) h = elim (Bool-cases (leb (key x) (key y))) [
    | inl p ↦
        let le : key x ≤ key y = ground arith in rw p ((le, All-le_trans {a = key x} ys le h.0), h)
    | inr p ↦
        let le : key y ≤ key x = ground arith in
        rw p (insert_by_key-All (λ z. key y ≤ key z) x ys le h.0, insert_by_key-IsSorted x ys h.1)
  ]

  -- The result is in order.
  pub sort_by_key-IsSorted : (xs : List A) → IsSorted (sort_by_key xs)
  unfolding sort_by_key
  sort_by_key-IsSorted [] = tt
  sort_by_key-IsSorted (x ∷ xs) =
      insert_by_key-IsSorted x (sort_by_key xs) (sort_by_key-IsSorted xs)

  insert_by_key-perm : (x : A) (ys : List A) → Perm (insert_by_key x ys) (x ∷ ys)
  unfolding insert_by_key
  insert_by_key-perm x [] = Perm.refl (x ∷ [])
  insert_by_key-perm x (y ∷ ys) = elim (Bool-cases (leb (key x) (key y))) [
    | inl p ↦ rw p (Perm.refl (x ∷ y ∷ ys))
    | inr p ↦ rw p (Perm.trans (Perm.cons y (insert_by_key-perm x ys)) (Perm.swap x y ys))
  ]

  -- The result holds the same elements, as often.
  pub sort_by_key-perm : (xs : List A) → Perm (sort_by_key xs) xs
  unfolding sort_by_key
  sort_by_key-perm [] = Perm.refl []
  sort_by_key-perm (x ∷ xs) =
      Perm.trans (insert_by_key-perm x (sort_by_key xs)) (Perm.cons x (sort_by_key-perm xs))

  -- Each key is below the keys behind it, so no key stands twice.
  abbrev pub IsStrict : List A → Type 0
  IsStrict [] = Unit
  IsStrict (x ∷ xs) = All (λ y. key x < key y) xs × IsStrict xs

  -- No key stands twice.
  abbrev pub HasDistinctKeys : List A → Type 0
  HasDistinctKeys [] = Unit
  HasDistinctKeys (x ∷ xs) = All (λ y. key x ≢ key y) xs × HasDistinctKeys xs

  All-lt_trans : {a b : ℕ} (ys : List A) → a < b → All (λ y. b < key y) ys → All (λ y. a < key y) ys
  All-lt_trans [] h all = tt
  All-lt_trans (y ∷ ys) h all = (omega arith, All-lt_trans ys h all.1)

  insert_by_key-IsStrict :
      (x : A) (ys : List A)
      → All (λ y. key x ≢ key y) ys
      → IsStrict ys
      → IsStrict (insert_by_key x ys)
  unfolding insert_by_key
  insert_by_key-IsStrict x [] fresh h = (tt, tt)
  insert_by_key-IsStrict x (y ∷ ys) fresh h = elim (Bool-cases (leb (key x) (key y))) [
    | inl p ↦
        let lt : key x < key y = ground (arith, fresh.0) in
        rw p ((lt, All-lt_trans {a = key x} ys lt h.0), h)
    | inr p ↦
        let lt : key y < key x = ground arith in
        rw p (
          insert_by_key-All (λ z. key y < key z) x ys lt h.0,
          insert_by_key-IsStrict x ys fresh.1 h.1,
        )
  ]

  pub sort_by_key-All : (P : A → Type 0) (xs : List A) → All P xs → All P (sort_by_key xs)
  unfolding sort_by_key
  sort_by_key-All P [] all = tt
  sort_by_key-All P (x ∷ xs) all =
      insert_by_key-All P x (sort_by_key xs) all.0 (sort_by_key-All P xs all.1)

  -- Distinct keys come out in strictly ascending order.
  pub sort_by_key-IsStrict : (xs : List A) → HasDistinctKeys xs → IsStrict (sort_by_key xs)
  unfolding sort_by_key
  sort_by_key-IsStrict [] d = tt
  sort_by_key-IsStrict (x ∷ xs) d =
      insert_by_key-IsStrict x (sort_by_key xs) (sort_by_key-All _ xs d.0)
        (sort_by_key-IsStrict xs d.1)
