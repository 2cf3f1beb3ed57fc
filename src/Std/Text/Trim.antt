-- ===== src/Std/Text/Trim.antt =====
-- `str::trim` on UTF-8 bytes: the characters with the Unicode property White_Space.
use hivebus.Prelude.{
  ℕ, zero, suc, ◌-◌, ◌<◌, ◌≡◌, refl, ap, Bool, ◌&&◌, ◌||◌, List, [], ◌∷◌, ◌++◌, arith, leb, ◌==◌,
  nat_eq, bytes_eq, bytes_beq, if◌then◌else◌, All,
}

abbrev is_ascii_space : ℕ → Bool
is_ascii_space c = c == 32 || (leb 9 c && leb c 13)

abbrev is_space_pair : ℕ → ℕ → Bool
is_space_pair a b = a == 0xc2 && (b == 0x85 || b == 0xa0)

abbrev is_space_triple : ℕ → ℕ → ℕ → Bool
is_space_triple a b c =
    (a == 0xe1 && b == 0x9a && c == 0x80)
    || (a == 0xe2
        && b == 0x80
        && ((leb 0x80 c && leb c 0x8a) || c == 0xa8 || c == 0xa9 || c == 0xaf))
    || (a == 0xe2 && b == 0x81 && c == 0x9f)
    || (a == 0xe3 && b == 0x80 && c == 0x80)

-- The bytes of the white space character that a text begins with, 0 if it begins with none.
unfoldable pub space_length : List ℕ → ℕ
space_length [] = 0
space_length (a ∷ []) = if is_ascii_space a then 1 else 0
space_length (a ∷ b ∷ []) = if is_ascii_space a then 1 else if is_space_pair a b then 2 else 0
space_length (a ∷ b ∷ c ∷ s) =
    if is_ascii_space a
    then 1
    else if is_space_pair a b
    then 2
    else if is_space_triple a b c
    then 3
    else 0

-- `skip` bytes belong to a character that was dropped.
unfoldable pub trim_start_from : ℕ → List ℕ → List ℕ
unfolding space_length
trim_start_from skip [] = []
trim_start_from (suc skip) (c ∷ s) = trim_start_from skip s
trim_start_from zero (c ∷ s) =
    let rest = trim_start_from (space_length (c ∷ s) - 1) s in
    if space_length (c ∷ s) == 0 then c ∷ s else rest

unfoldable pub trim_start : List ℕ → List ℕ
unfolding trim_start_from
trim_start s = trim_start_from 0 s

unfoldable pub trim_end : List ℕ → List ℕ
unfolding trim_start
trim_end [] = []
trim_end (c ∷ s) = let rest = trim_end s in if trim_start (c ∷ s) == [] then [] else c ∷ rest

unfoldable pub trim : List ℕ → List ℕ
unfolding trim_start trim_end
trim s = trim_end (trim_start s)

-- Bytes of ASCII that can be seen.
abbrev pub IsVisible : List ℕ → Type 0
IsVisible = All (λ c. (32 < c) × (c < 127))

space_length-visible : (c : ℕ) (s : List ℕ) → 32 < c → c < 127 → space_length (c ∷ s) ≡ 0
unfolding space_length
space_length-visible c [] lo hi = ground arith
space_length-visible c (a ∷ []) lo hi = ground arith
space_length-visible c (a ∷ b ∷ s) lo hi = ground arith

trim_start-visible : (c : ℕ) (s : List ℕ) → 32 < c → c < 127 → trim_start (c ∷ s) ≡ c ∷ s
unfolding trim_start
trim_start-visible c s lo hi = rw (trim_start_from, space_length-visible c s lo hi)

trim_end_line : (s : List ℕ) → IsVisible s → trim_end (s ++ 10 ∷ []) ≡ s
unfolding trim_end bytes_beq
trim_end_line [] h = unfold trim_start space_length in refl
trim_end_line (c ∷ s) h =
    rw (trim_end, trim_start-visible c (s ++ 10 ∷ []) h.0.0 h.0.1)
      (ap (◌∷◌ c) (trim_end_line s h.1))

-- A line of visible ASCII is trimmed to the text in front of its end.
pub trim_line : (c : ℕ) (s : List ℕ) → IsVisible (c ∷ s) → trim (c ∷ s ++ 10 ∷ []) ≡ c ∷ s
unfolding trim
trim_line c s h = rw (trim_start-visible c (s ++ 10 ∷ []) h.0.0 h.0.1) (trim_end_line (c ∷ s) h)
