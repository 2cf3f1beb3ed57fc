-- ===== src/Std/Path/Laws.antt =====
-- Splitting a text, and what the components of a path can be.
use hivebus.Prelude.{
  ℕ, ◌≡◌, ◌≢◌, inl, inr, List, [], ◌∷◌, ◌++◌, arith, ◌==◌, nat_eq, bytes_eq, Bool-cases,
  if_branches, beq_ne, beq_refl, ne_of_beq, All, All-append, append-nil, append_assoc,
}
use hivebus.Std.Text.{Str, str, split, split_from}
use hivebus.Std.Path.{
  Component, normal, root_dir, cur_dir, slash, piece_components, pieces_components,
  relative_components, components,
}

-- A text without a byte.
abbrev pub Lacks : ℕ → Str → Type 0
Lacks separator = All (λ c. c ≢ separator)

pub split_from_whole :
    (separator : ℕ) (piece s : Str)
    → Lacks separator s
    → split_from separator piece s ≡ (piece ++ s) ∷ []
unfolding split_from
split_from_whole separator piece [] h = rw append-nil
split_from_whole separator piece (c ∷ s) h =
    rw (beq_ne c separator h.0, split_from_whole separator (piece ++ c ∷ []) s h.1, append_assoc)

pub split_from-append :
    (separator : ℕ) (piece a b : Str)
    → Lacks separator a
    → split_from separator piece (a ++ separator ∷ b) ≡ (piece ++ a) ∷ split_from separator [] b
unfolding split_from
split_from-append separator piece [] b h = rw (append-nil, beq_refl separator)
split_from-append separator piece (c ∷ a) b h =
    rw (beq_ne c separator h.0, split_from-append separator (piece ++ c ∷ []) a b h.1, append_assoc)

pub split_from-Lacks :
    (separator : ℕ) (piece s : Str)
    → Lacks separator piece
    → All (Lacks separator) (split_from separator piece s)
unfolding split_from
split_from-Lacks separator piece [] h = (h, tt)
split_from-Lacks separator piece (c ∷ s) h = elim (Bool-cases (c == separator)) [
  | inl p ↦ rw p (h, split_from-Lacks separator [] s tt)
  | inr p ↦
      let other : c ≢ separator = ground arith in
      rw p
        (split_from-Lacks separator (piece ++ c ∷ []) s (All-append _ piece (c ∷ []) h (other, tt)))
]

-- A name that stands for an entry of a directory: it is not empty, not a dot or two, and has no
-- slash.
pub record IsName (s : Str) : Type 0 where
  pub nonempty : s ≢ []
  pub not_here : s ≢ str "."
  pub not_up : s ≢ str ".."
  pub no_slash : Lacks slash s

abbrev pub NormalIsName : Component → Type 0
NormalIsName (normal s) = IsName s
NormalIsName _ = Unit

piece_IsName : (p : Str) → Lacks slash p → All NormalIsName (piece_components p)
unfolding piece_components
piece_IsName p h = elim (Bool-cases (p == [])) [
  | inl e ↦ rw e tt
  | inr e ↦ rw e (elim (Bool-cases (p == str ".")) [
    | inl f ↦ rw f tt
    | inr f ↦ rw f (elim (Bool-cases (p == str "..")) [
      | inl g ↦ rw g (tt, tt)
      | inr g ↦ rw g (
        record {
          nonempty = ne_of_beq p [] e;
          not_here = ne_of_beq p (str ".") f;
          not_up = ne_of_beq p (str "..") g;
          no_slash = h;
        },
        tt,
      )
    ])
  ])
]

pieces_IsName : (ps : List Str) → All (Lacks slash) ps → All NormalIsName (pieces_components ps)
unfolding pieces_components
pieces_IsName [] h = tt
pieces_IsName (p ∷ ps) h =
    All-append NormalIsName (piece_components p) (pieces_components ps) (piece_IsName p h.0)
      (pieces_IsName ps h.1)

relative_IsName : (ps : List Str) → All (Lacks slash) ps → All NormalIsName (relative_components ps)
unfolding relative_components
relative_IsName [] h = tt
relative_IsName (p ∷ ps) h =
    if_branches (All NormalIsName) (p == str ".") {x = cur_dir ∷ pieces_components ps}
      {y = pieces_components (p ∷ ps)} (λ e. (tt, pieces_IsName ps h.1))
      (λ e. pieces_IsName (p ∷ ps) h)

-- The components of a path other than the root and the dots are names.
pub components-IsName : (s : Str) → All NormalIsName (components s)
unfolding components split
components-IsName [] = tt
components-IsName (c ∷ s) =
    if_branches (All NormalIsName) (c == slash) {x = root_dir ∷ pieces_components (split slash s)}
      {y = relative_components (split slash (c ∷ s))}
      (λ e. (tt, pieces_IsName (split slash s) (split_from-Lacks slash [] s tt)))
      (λ e. relative_IsName (split slash (c ∷ s)) (split_from-Lacks slash [] (c ∷ s) tt))
