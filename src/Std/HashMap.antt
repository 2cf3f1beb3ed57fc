-- ===== src/Std/HashMap.antt =====
-- `std::collections::HashMap` as an association list. The order in which a map hands out its
-- entries is the list's; no theorem about the program depends on it.
use mathlib.Core.Path.{subst, subst₂}
use hivebus.Prelude.{
  ◌≡◌, ◌≢◌, refl, sym, ap, Bool, Option, none, some, List, [], ◌∷◌, map, arith, Eq, ◌==◌, beq_refl,
  beq_ne, if◌then◌else◌, Bool-cases, Option-cases, inl, inr,
}

abbrev pub HashMap {ℓ} : Type ℓ → Type ℓ → Type ℓ
HashMap K V = List (K × V)

module _ {ℓ} {K V : Type ℓ} where
  abbrev pub values : HashMap K V → List V
  values = map (λ e. e.1)

  -- `for v in m.values_mut() { *v = f(v) }`
  abbrev pub values_mut : (V → V) → HashMap K V → HashMap K V
  values_mut f [] = []
  values_mut f ((k, v) ∷ m) = (k, f v) ∷ values_mut f m

  -- `m.retain(|k, v| test(v))`
  unfoldable pub retain : (V → Bool) → HashMap K V → HashMap K V
  retain test [] = []
  retain test ((k, v) ∷ m) = let rest = retain test m in if test v then (k, v) ∷ rest else rest

module _ {ℓ} {K V : Type ℓ} ⦃e : Eq K⦄ where
  unfoldable pub get : HashMap K V → K → Option V
  get [] k = none
  get ((j, v) ∷ m) k = if j == k then some v else get m k

  unfoldable pub insert : HashMap K V → K → V → HashMap K V
  insert [] k v = (k, v) ∷ []
  insert ((j, w) ∷ m) k v = if j == k then (j, v) ∷ m else (j, w) ∷ insert m k v

  unfoldable pub remove : HashMap K V → K → HashMap K V
  remove [] k = []
  remove ((j, v) ∷ m) k = let rest = remove m k in if j == k then rest else (j, v) ∷ rest

  -- `m.get_mut(k)`, with what is done to the value that it finds.
  unfoldable pub update : HashMap K V → K → (V → V) → HashMap K V
  update m k f = elim (get m k) [ none ↦ m | some v ↦ insert m k (f v) ]

  -- `m.entry(k).or_insert_with(|| fresh)`: the value, and the map that holds it.
  unfoldable pub or_insert : HashMap K V → K → V → V × HashMap K V
  or_insert m k fresh = elim (get m k) [ none ↦ (fresh, insert m k fresh) | some v ↦ (v, m) ]

  pub get-insert :
      (m : HashMap K V) (k j : K) (v : V)
      → get (insert m k v) j ≡ (if k == j then some v else get m j)
  unfolding get insert
  get-insert [] k j v = refl
  get-insert ((i, w) ∷ m) k j v =
      ground (arith, e.decides k j, e.decides i k, e.decides i j, get-insert m k j v)

  pub get-remove :
      (m : HashMap K V) (k j : K) → get (remove m k) j ≡ (if k == j then none else get m j)
  unfolding get remove
  get-remove [] k j = ground arith
  get-remove ((i, w) ∷ m) k j =
      ground (arith, e.decides k j, e.decides i k, e.decides i j, get-remove m k j)

  pub get-insert_self : (m : HashMap K V) (k : K) (v : V) → get (insert m k v) k ≡ some v
  get-insert_self m k v = rw (get-insert, beq_refl)

  pub get-insert_ne : (m : HashMap K V) (k j : K) (v : V) → k ≢ j → get (insert m k v) j ≡ get m j
  get-insert_ne m k j v h = rw (get-insert, beq_ne k j h)

  pub get-values_mut :
      (f : V → V) (m : HashMap K V) (k : K)
      → get (values_mut f m) k ≡ elim (get m k) [ none ↦ none | some v ↦ some (f v) ]
  unfolding get
  get-values_mut f [] k = refl
  get-values_mut f ((j, v) ∷ m) k = ground (arith, get-values_mut f m k)

  pub or_insert_lem :
      (m : HashMap K V) (k : K) (fresh : V)
      → or_insert m k fresh
        ≡ (elim (get m k) [ none ↦ (fresh, insert m k fresh) | some v ↦ (v, m) ])
  unfolding or_insert
  or_insert_lem m k fresh = refl

  pub get-update :
      (m : HashMap K V) (k j : K) (f : V → V)
      → get (update m k f) j
        ≡ (if k == j then (elim (get m k) [ none ↦ none | some v ↦ some (f v) ]) else get m j)
  unfolding update
  get-update m k j f = elim (Option-cases (get m k)) [
    | inl p ↦ rw (p, update) (ground (arith, e.decides k j))
    | inr (v, p) ↦ rw (p, update) (get-insert m k j (f v))
  ]

  -- No key stands twice.
  abbrev pub IsDistinct : HashMap K V → Type ℓ
  IsDistinct [] = Unit
  IsDistinct ((k, v) ∷ m) = (get m k ≡ none) × IsDistinct m

  pub insert-IsDistinct :
      (m : HashMap K V) (k : K) (v : V) → IsDistinct m → IsDistinct (insert m k v)
  unfolding insert get
  insert-IsDistinct [] k v d = (refl, tt)
  insert-IsDistinct ((j, w) ∷ m) k v d = elim (Bool-cases (j == k)) [
    | inl p ↦ rw p (d.0, d.1)
    | inr p ↦ rw p (
      ground (arith, get-insert m k j v, e.decides k j, e.decides j k),
      insert-IsDistinct m k v d.1,
    )
  ]

  pub get-retain-none :
      (test : V → Bool) (m : HashMap K V) (k : K) → get m k ≡ none → get (retain test m) k ≡ none
  unfolding get retain
  get-retain-none test [] k h = refl
  get-retain-none test ((j, v) ∷ m) k h = ground (arith, get-retain-none test m k)

  pub retain-IsDistinct :
      (test : V → Bool) (m : HashMap K V) → IsDistinct m → IsDistinct (retain test m)
  unfolding retain
  retain-IsDistinct test [] d = tt
  retain-IsDistinct test ((k, v) ∷ m) d = elim (Bool-cases (test v)) [
    | inl p ↦ rw p (get-retain-none test m k d.0, retain-IsDistinct test m d.1)
    | inr p ↦ rw p (retain-IsDistinct test m d.1)
  ]

  -- With distinct keys, `retain` keeps exactly the entries that pass.
  pub get-retain :
      (test : V → Bool) (m : HashMap K V) (k : K)
      → IsDistinct m
      → get (retain test m) k
        ≡ elim (get m k) [ none ↦ none | some v ↦ (if test v then some v else none) ]
  unfolding get retain
  get-retain test [] k d = refl
  get-retain test ((j, v) ∷ m) k d = ground (
    arith,
    e.decides j k,
    get-retain test m k d.1,
    get-retain-none test m j d.0,
    ap (λ (i : K). get (retain test m) i) {x = j} {y = k},
  )

  pub values_mut-IsDistinct :
      (f : V → V) (m : HashMap K V) → IsDistinct m → IsDistinct (values_mut f m)
  values_mut-IsDistinct f [] d = tt
  values_mut-IsDistinct f ((k, v) ∷ m) d =
      (ground (arith, get-values_mut f m k), values_mut-IsDistinct f m d.1)

module _ {ℓ κ} {K V : Type ℓ} where
  -- A predicate on every entry; it computes to a product.
  abbrev pub AllEntries : (K → V → Type κ) → HashMap K V → Type κ
  AllEntries P [] = Unit
  AllEntries P ((k, v) ∷ m) = P k v × AllEntries P m

module _ {ℓ κ} {K V : Type ℓ} (P : K → V → Type κ) where
  pub AllEntries-retain :
      (test : V → Bool) (m : HashMap K V) → AllEntries P m → AllEntries P (retain test m)
  unfolding retain
  AllEntries-retain test [] h = tt
  AllEntries-retain test ((k, v) ∷ m) h = elim (Bool-cases (test v)) [
    | inl p ↦ rw p (h.0, AllEntries-retain test m h.1)
    | inr p ↦ rw p (AllEntries-retain test m h.1)
  ]

  pub AllEntries-values_mut :
      (f : V → V) (m : HashMap K V)
      → ((k : K) (v : V) → P k v → P k (f v))
      → AllEntries P m
      → AllEntries P (values_mut f m)
  AllEntries-values_mut f [] keep h = tt
  AllEntries-values_mut f ((k, v) ∷ m) keep h = (keep k v h.0, AllEntries-values_mut f m keep h.1)

module _ {ℓ κ} {K V : Type ℓ} ⦃e : Eq K⦄ (P : K → V → Type κ) where
  pub AllEntries-insert :
      (m : HashMap K V) (k : K) (v : V) → P k v → AllEntries P m → AllEntries P (insert m k v)
  unfolding insert
  AllEntries-insert [] k v pv h = (pv, tt)
  AllEntries-insert ((j, w) ∷ m) k v pv h = elim (Bool-cases (j == k)) [
    | inl p ↦ rw p (subst (λ (i : K). P i v) (sym ((e.decides j k).0 p)) pv, h.1)
    | inr p ↦ rw p (h.0, AllEntries-insert m k v pv h.1)
  ]

  pub AllEntries-remove : (m : HashMap K V) (k : K) → AllEntries P m → AllEntries P (remove m k)
  unfolding remove
  AllEntries-remove [] k h = tt
  AllEntries-remove ((j, w) ∷ m) k h = elim (Bool-cases (j == k)) [
    | inl p ↦ rw p (AllEntries-remove m k h.1)
    | inr p ↦ rw p (h.0, AllEntries-remove m k h.1)
  ]

  -- What a lookup finds satisfies the predicate.
  pub AllEntries-get : (m : HashMap K V) (k : K) {v : V} → AllEntries P m → get m k ≡ some v → P k v
  unfolding get
  AllEntries-get [] k h found = cc
  AllEntries-get ((j, w) ∷ m) k {v} h found = elim (Bool-cases (j == k)) [
    | inl p ↦ let same : w ≡ v = ground arith in subst₂ P ((e.decides j k).0 p) same h.0
    | inr p ↦ AllEntries-get m k h.1 (ground arith)
  ]

  -- What lookups say of every entry, with distinct keys.
  pub AllEntries-of-get :
      (m : HashMap K V)
      → IsDistinct m
      → ((k : K) (v : V) → get m k ≡ some v → P k v)
      → AllEntries P m
  unfolding get
  AllEntries-of-get [] d all = tt
  AllEntries-of-get ((j, w) ∷ m) d all = (
    all j w (ground (arith, e.decides j j)),
    AllEntries-of-get m d.1
        (λ k v at. all k v (ground (arith, d.0, e.decides j k, ap (get m) {x = j} {y = k}))),
  )
