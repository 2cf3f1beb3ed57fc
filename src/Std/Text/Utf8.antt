-- ===== src/Std/Text/Utf8.antt =====
-- `std::str::from_utf8`: which byte sequences are UTF-8.
use hivebus.Prelude.{
  ℕ, ◌<◌, ◌≡◌, refl, Bool, true, false, ◌&&◌, Option, none, some, List, [], ◌∷◌, arith, leb, ltb,
  ◌==◌, nat_eq, if◌then◌else◌, All,
}

abbrev between : ℕ → ℕ → ℕ → Bool
between lo hi c = leb lo c && leb c hi

abbrev continues : ℕ → Bool
continues = between 0x80 0xbf

-- The second byte of a sequence of three that begins with `a`.
abbrev second_of_three : ℕ → ℕ → Bool
second_of_three a b =
    if a == 0xe0
    then between 0xa0 0xbf b
    else if a == 0xed
    then between 0x80 0x9f b
    else between 0xe1 0xef a && continues b

-- The second byte of a sequence of four that begins with `a`.
abbrev second_of_four : ℕ → ℕ → Bool
second_of_four a b =
    if a == 0xf0
    then between 0x90 0xbf b
    else if a == 0xf4
    then between 0x80 0x8f b
    else between 0xf1 0xf3 a && continues b

unfoldable pub is_utf8 : List ℕ → Bool
is_utf8 [] = true
is_utf8 (a ∷ []) = ltb a 0x80
is_utf8 (a ∷ b ∷ []) = if ltb a 0x80 then is_utf8 (b ∷ []) else between 0xc2 0xdf a && continues b
is_utf8 (a ∷ b ∷ c ∷ []) =
    if ltb a 0x80
    then is_utf8 (b ∷ c ∷ [])
    else if between 0xc2 0xdf a
    then continues b && is_utf8 (c ∷ [])
    else second_of_three a b && continues c
is_utf8 (a ∷ b ∷ c ∷ d ∷ s) = elim (ltb a 0x80) [
  | true ↦ is_utf8 (b ∷ c ∷ d ∷ s)
  | false ↦ elim (between 0xc2 0xdf a) [
    | true ↦ continues b && is_utf8 (c ∷ d ∷ s)
    | false ↦ elim (second_of_three a b) [
      | true ↦ continues c && is_utf8 (d ∷ s)
      | false ↦ second_of_four a b && continues c && continues d && is_utf8 s
    ]
  ]
]

-- `std::str::from_utf8(bytes).ok()`
unfoldable pub from_utf8 : List ℕ → Option (List ℕ)
unfolding is_utf8
from_utf8 bytes = if is_utf8 bytes then some bytes else none

abbrev pub IsAscii : List ℕ → Type 0
IsAscii = All (λ c. c < 0x80)

-- ASCII is UTF-8.
pub is_utf8_of_IsAscii : (s : List ℕ) → IsAscii s → is_utf8 s ≡ true
unfolding is_utf8
is_utf8_of_IsAscii [] h = refl
is_utf8_of_IsAscii (a ∷ []) h = ground arith
is_utf8_of_IsAscii (a ∷ b ∷ []) h = ground arith
is_utf8_of_IsAscii (a ∷ b ∷ c ∷ []) h = ground arith
is_utf8_of_IsAscii (a ∷ b ∷ c ∷ d ∷ s) h = ground (arith, is_utf8_of_IsAscii (b ∷ c ∷ d ∷ s) h.1)
