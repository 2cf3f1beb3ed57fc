-- ===== src/Std/Bytes.antt =====
-- `to_be_bytes` and `from_be_bytes` of unsigned integers.
use hivebus.Prelude.{ℕ, ◌<◌, All, ◌+◌, ◌*◌, ◌/◌, ◌%◌, ◌^◌, List, [], ◌∷◌}

abbrev pub u16_to_be : ℕ → List ℕ
u16_to_be n = (n / 2 ^ 8 % 256) ∷ (n % 256) ∷ []

abbrev pub u16_from_be : ℕ → ℕ → ℕ
u16_from_be hi lo = hi * 2 ^ 8 + lo

abbrev pub u32_to_be : ℕ → List ℕ
u32_to_be n = (n / 2 ^ 24 % 256) ∷ (n / 2 ^ 16 % 256) ∷ (n / 2 ^ 8 % 256) ∷ (n % 256) ∷ []

abbrev pub u32_from_be : ℕ → ℕ → ℕ → ℕ → ℕ
u32_from_be a b c d = a * 2 ^ 24 + b * 2 ^ 16 + c * 2 ^ 8 + d

-- Every element is a byte.
abbrev pub IsBytes : List ℕ → Type 0
IsBytes = All (λ b. b < 256)
