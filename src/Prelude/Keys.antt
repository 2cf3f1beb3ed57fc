-- ===== src/Prelude/Keys.antt =====
-- Lists of elements with keys: the element of a key, and that sorting does not change it.
use Prim.Native.Nat.{ℕ, ◌≤◌, ◌<◌}
use mathlib.Core.Path.{◌≡◌, refl, sym, ap, ◌∙◌}
use mathlib.Core.Logic.{◌≢◌, inl, inr}
use mathlib.Core.Option.{Option, none, some}
use mathlib.Core.List.{List, [], ◌∷◌}
use native.Mathlib.Omega.{arith}
use hivebus.Prelude.Tests.{◌==◌, nat_eq, if◌then◌else◌, Bool-cases}
use hivebus.Prelude.Lists.{All}
use hivebus.Prelude.Sort.{insert_by_key, sort_by_key, sort_by_key-All, IsStrict, HasDistinctKeys}

module _ {ℓ} {A : Type ℓ} (key : A → ℕ) where
  -- The first element with a key.
  unfoldable pub find_by_key : ℕ → List A → Option A
  find_by_key k [] = none
  find_by_key k (x ∷ xs) = if key x == k then some x else find_by_key k xs

  find_by_key-insert_by_key :
      (k : ℕ) (x : A) (ys : List A)
      → All (λ y. key x ≢ key y) ys
      → find_by_key k (insert_by_key key x ys) ≡ find_by_key k (x ∷ ys)
  unfolding find_by_key insert_by_key
  find_by_key-insert_by_key k x [] fresh = refl
  find_by_key-insert_by_key k x (y ∷ ys) fresh =
      ground (arith, fresh.0, find_by_key-insert_by_key k x ys fresh.1)

  pub find_by_key-sort_by_key :
      (k : ℕ) (xs : List A)
      → HasDistinctKeys key xs
      → find_by_key k (sort_by_key key xs) ≡ find_by_key k xs
  unfolding find_by_key sort_by_key
  find_by_key-sort_by_key k [] d = refl
  find_by_key-sort_by_key k (x ∷ xs) d =
      find_by_key-insert_by_key k x (sort_by_key key xs) (sort_by_key-All key _ xs d.0)
      ∙ ap (λ (o : Option A). if key x == k then some x else o) (find_by_key-sort_by_key k xs d.1)

  find_by_key-lt :
      (a k : ℕ) (ys : List A) (v : A) → All (λ y. a < key y) ys → find_by_key k ys ≡ some v → a < k
  unfolding find_by_key
  find_by_key-lt a k [] v above found = absurd (ground arith)
  find_by_key-lt a k (y ∷ ys) v above found =
      ground (arith, above.0, find_by_key-lt a k ys v above.1)

  find_by_key_absent : (k : ℕ) (ys : List A) → All (λ y. k < key y) ys → find_by_key k ys ≡ none
  unfolding find_by_key
  find_by_key_absent k [] above = refl
  find_by_key_absent k (y ∷ ys) above = ground (arith, above.0, find_by_key_absent k ys above.1)

  find_by_key_head : (y : A) (ys : List A) (k : ℕ) → key y ≡ k → find_by_key k (y ∷ ys) ≡ some y
  unfolding find_by_key
  find_by_key_head y ys k e = ground arith

  head_least :
      (y : A) (ys : List A) (k : ℕ) (v : A)
      → All (λ z. key y < key z) ys
      → find_by_key k (y ∷ ys) ≡ some v
      → key y ≤ k
  unfolding find_by_key
  head_least y ys k v above found = ground (arith, find_by_key-lt (key y) k ys v above)

  -- Two lists in strict order are equal when they have the same element for each key.
  pub IsStrict-ext :
      (xs ys : List A)
      → IsStrict key xs
      → IsStrict key ys
      → ((k : ℕ) → find_by_key k xs ≡ find_by_key k ys)
      → xs ≡ ys
  unfolding find_by_key
  IsStrict-ext [] [] sx sy same = refl
  IsStrict-ext [] (y ∷ ys) sx sy same = absurd (ground (arith, same (key y)))
  IsStrict-ext (x ∷ xs) [] sx sy same = absurd (ground (arith, same (key x)))
  IsStrict-ext (x ∷ xs) (y ∷ ys) sx sy same =
      let first = find_by_key_head x xs (key x) refl in
      let second = find_by_key_head y ys (key y) refl in
      let le = head_least y ys (key x) x sy.0 (sym (same (key x)) ∙ first) in
      let ge = head_least x xs (key y) y sx.0 (same (key y) ∙ second) in
      let keys : key y ≡ key x = omega (arith, le, ge) in
      let heads : some x ≡ some y =
        sym first ∙ (same (key x) ∙ find_by_key_head y ys (key x) keys) in
      let e : x ≡ y = ground arith in
      rw e (ap (◌∷◌ y) (IsStrict-ext xs ys sx.1 sy.1 (λ k. rest k keys)))
    where
      rest : (k : ℕ) → key y ≡ key x → find_by_key k xs ≡ find_by_key k ys
      rest k keys = elim (Bool-cases (key x == k)) [
        | inl p ↦
            let at : key x ≡ k = ground arith in
            find_by_key_absent k xs (rw at at sx.0)
            ∙ sym (find_by_key_absent k ys (rw (keys ∙ at) at sy.0))
        | inr p ↦ ground (arith, keys, same k)
      ]
