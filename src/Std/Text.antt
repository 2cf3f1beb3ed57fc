-- ===== src/Std/Text.antt =====
-- `String` and `str`: a text is its UTF-8 bytes. Literals, formatting, splitting and parsing.
pub mod Hex
pub mod Utf8
pub mod Trim
use Prim.Native.Char.{code}
use hivebus.Prelude.{
  ℕ, zero, suc, ◌+◌, ◌-◌, ◌*◌, ◌/◌, ◌%◌, String, Bool, true, false, ◌&&◌, ◌||◌, Option, none, some,
  List, [], ◌∷◌, ◌++◌, map, leb, ltb, ◌==◌, nat_eq, if◌then◌else◌,
}

abbrev pub Str : Type 0
Str = List ℕ

-- The UTF-8 encoding of a code point.
abbrev utf8_char : ℕ → List ℕ
utf8_char c =
    if ltb c 0x80
    then c ∷ []
    else if ltb c 0x800
    then (0xc0 + c / 0x40) ∷ (0x80 + c % 0x40) ∷ []
    else if ltb c 0x1_0000
    then (0xe0 + c / 0x1000) ∷ (0x80 + c / 0x40 % 0x40) ∷ (0x80 + c % 0x40) ∷ []
    else (0xf0 + c / 0x4_0000)
      ∷ (0x80 + c / 0x1000 % 0x40)
      ∷ (0x80 + c / 0x40 % 0x40)
      ∷ (0x80 + c % 0x40)
      ∷ []

-- A literal of the source.
abbrev pub str : String → Str
str String.[] = []
str (String.◌∷◌ c s) = utf8_char (code c) ++ str s

-- `parts.join(separator)`
unfoldable pub join : Str → List Str → Str
join separator [] = []
join separator (p ∷ []) = p
join separator (p ∷ q ∷ ps) = p ++ separator ++ join separator (q ∷ ps)

-- The pieces of a text between its separators; there is always one.
unfoldable pub split_from : ℕ → Str → Str → List Str
split_from separator piece [] = piece ∷ []
split_from separator piece (c ∷ s) =
    let next = split_from separator [] s in
    let more = split_from separator (piece ++ c ∷ []) s in
    if c == separator then piece ∷ next else more

-- `s.split(separator)` for an ASCII separator.
unfoldable pub split : ℕ → Str → List Str
unfolding split_from
split separator s = split_from separator [] s

-- `to_ascii_lowercase`
abbrev lower : ℕ → ℕ
lower c = if leb b'A' c && leb c b'Z' then c + 32 else c

unfoldable pub to_ascii_lowercase : Str → Str
to_ascii_lowercase s = map lower s

-- `{}` of an unsigned integer. Every round divides by ten, so `n + 1` rounds are enough.
unfoldable pub decimal_rounds : ℕ → ℕ → Str
decimal_rounds zero n = []
decimal_rounds (suc fuel) n =
    let front = decimal_rounds fuel (n / 10) in
    if ltb n 10 then (b'0' + n) ∷ [] else front ++ (b'0' + n % 10) ∷ []

unfoldable pub decimal : ℕ → Str
unfolding decimal_rounds
decimal n = decimal_rounds (suc n) n
