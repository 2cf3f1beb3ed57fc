-- ===== src/Std/Text/Hex.antt =====
-- Hexadecimal digits: `{:02x}`, `{:#06x}` and `u8::from_str_radix(_, 16)`.
use hivebus.Prelude.{
  ℕ, ◌+◌, ◌-◌, ◌*◌, ◌/◌, ◌%◌, ◌<◌, ◌≡◌, ◌&&◌, Option, none, some, List, [], ◌∷◌, arith, leb, ltb,
  ◌==◌, nat_eq, if◌then◌else◌,
}

abbrev pub hex_digit : ℕ → ℕ
hex_digit n = if ltb n 10 then b'0' + n else b'a' + (n - 10)

-- `{:02x}` of a byte
unfoldable pub hex_byte : ℕ → List ℕ
hex_byte b = hex_digit (b / 16) ∷ hex_digit (b % 16) ∷ []

-- `{:#06x}` of a `u16`: the prefix and four digits
unfoldable pub hex_word : ℕ → List ℕ
hex_word n =
    b'0'
    ∷ b'x'
    ∷ hex_digit (n / 0x1000 % 16)
    ∷ hex_digit (n / 0x100 % 16)
    ∷ hex_digit (n / 0x10 % 16)
    ∷ hex_digit (n % 16)
    ∷ []

abbrev pub digit_value : ℕ → Option ℕ
digit_value c =
    if leb b'0' c && leb c b'9'
    then some (c - b'0')
    else if leb b'a' c && leb c b'f'
    then some (c - b'a' + 10)
    else if leb b'A' c && leb c b'F'
    then some (c - b'A' + 10)
    else none

-- The digits of a `u8`; `none` is the error, a character that is no digit or a value above 255.
unfoldable pub parse_digits : ℕ → List ℕ → Option ℕ
parse_digits acc [] = some acc
parse_digits acc (c ∷ s) = elim (digit_value c) [
  | none ↦ none
  | some d ↦ (if ltb (acc * 16 + d) 256 then parse_digits (acc * 16 + d) s else none)
]

-- `u8::from_str_radix(s, 16)`: one leading `+` is allowed, no digits at all are an error.
unfoldable pub u8_from_hex : List ℕ → Option ℕ
unfolding parse_digits
u8_from_hex [] = none
u8_from_hex (c ∷ []) = parse_digits 0 (c ∷ [])
u8_from_hex (c ∷ d ∷ s) = if c == b'+' then parse_digits 0 (d ∷ s) else parse_digits 0 (c ∷ d ∷ s)

pub digit_value-hex_digit : (n : ℕ) → n < 16 → digit_value (hex_digit n) ≡ some n
digit_value-hex_digit n h = ground arith

-- A byte that is printed with two digits is read back.
pub u8_from_hex-hex_byte : (b : ℕ) → b < 256 → u8_from_hex (hex_byte b) ≡ some b
unfolding u8_from_hex hex_byte
u8_from_hex-hex_byte b h =
    ground (arith, digit_value-hex_digit (b / 16), digit_value-hex_digit (b % 16))
