-- ===== src/Prelude/Xor.antt =====
-- Exclusive or at variables, from its lowest digit.
use Prim.Native.Nat.{
  ℕ, zero, suc, ◌+◌, ◌*◌, ◌/◌, ◌%◌, ◌≤◌, ◌<◌, ◌^◌, bit_xor, bit_xor-bitwise, digits, differ,
}
use mathlib.Core.Path.{◌≡◌, refl}
use native.Mathlib.Nat.{pow-suc}
use native.Mathlib.Omega.{arith}

abbrev differing : ℕ → ℕ → ℕ → ℕ
differing rounds a b = digits (λ rest. rest) differ rounds a b

-- Any two counts of rounds that are enough for the first number agree.
differing_rounds : (p q a b : ℕ) → a ≤ p → a ≤ q → differing p a b ≡ differing q a b
differing_rounds zero zero a b hp hq = refl
differing_rounds zero (suc q) zero b hp hq = refl
differing_rounds zero (suc q) (suc a) b hp hq = absurd (omega arith)
differing_rounds (suc p) zero zero b hp hq = refl
differing_rounds (suc p) zero (suc a) b hp hq = absurd (omega arith)
differing_rounds (suc p) (suc q) zero b hp hq = refl
differing_rounds (suc p) (suc q) (suc a) b hp hq =
    rw (differing_rounds p q (suc a / 2) (b / 2) (omega arith) (omega arith))

zero-bit_xor : (b : ℕ) → bit_xor 0 b ≡ b
zero-bit_xor b = bit_xor-bitwise 0 b

-- The digit of an exclusive or is the parity of the two digits.
digit_sum : (x y : ℕ) → x < 2 → y < 2 → differ x y ≡ (x + y) % 2
digit_sum zero y hx hy = omega arith
digit_sum (suc zero) zero hx hy = refl
digit_sum (suc zero) (suc zero) hx hy = refl
digit_sum (suc zero) (suc (suc y)) hx hy = absurd (omega arith)
digit_sum (suc (suc x)) y hx hy = absurd (omega arith)

pub bit_xor_step : (a b : ℕ) → bit_xor a b ≡ bit_xor (a / 2) (b / 2) * 2 + (a % 2 + b % 2) % 2
bit_xor_step zero b = omega (arith, zero-bit_xor b, zero-bit_xor (b / 2))
bit_xor_step (suc a) b = omega (
  arith,
  bit_xor-bitwise (suc a) b,
  bit_xor-bitwise (suc a / 2) (b / 2),
  digit_sum (suc a % 2) (b % 2) (omega arith) (omega arith),
  differing_rounds a (suc a / 2) (suc a / 2) (b / 2) (omega arith) (omega arith),
)

comm_within : (n a b : ℕ) → a + b ≤ n → bit_xor a b ≡ bit_xor b a
comm_within n zero zero h = refl
comm_within zero a b h = absurd (omega arith)
comm_within (suc n) zero (suc b) h = omega (
  arith,
  bit_xor_step 0 (suc b),
  bit_xor_step (suc b) 0,
  comm_within n 0 (suc b / 2) (omega arith),
)
comm_within (suc n) (suc a) b h = omega (
  arith,
  bit_xor_step (suc a) b,
  bit_xor_step b (suc a),
  comm_within n (suc a / 2) (b / 2) (omega arith),
)

pub bit_xor_comm : (a b : ℕ) → bit_xor a b ≡ bit_xor b a
bit_xor_comm a b = comm_within (a + b) a b (omega arith)

-- The result needs no more digits than the operands.
pub bit_xor-lt : (k a b : ℕ) → a < 2 ^ k → b < 2 ^ k → bit_xor a b < 2 ^ k
bit_xor-lt zero zero zero ha hb = omega (arith, zero-bit_xor 0)
bit_xor-lt zero zero (suc b) ha hb = absurd (omega arith)
bit_xor-lt zero (suc a) b ha hb = absurd (omega arith)
bit_xor-lt (suc k) a b ha hb = omega (
  arith,
  pow-suc 2 k,
  bit_xor_step a b,
  bit_xor-lt k (a / 2) (b / 2) (omega (arith, pow-suc 2 k)) (omega (arith, pow-suc 2 k)),
)

cancel_within : (n a b c : ℕ) → a + b + c ≤ n → bit_xor a b ≡ bit_xor a c → b ≡ c
cancel_within zero a b c h e = omega arith
cancel_within (suc n) a b c h e =
    let halves : bit_xor (a / 2) (b / 2) ≡ bit_xor (a / 2) (c / 2) =
      omega (arith, bit_xor_step a b, bit_xor_step a c) in
    omega (
      arith,
      bit_xor_step a b,
      bit_xor_step a c,
      cancel_within n (a / 2) (b / 2) (c / 2) (omega arith) halves,
    )

-- One operand and the result determine the other.
pub bit_xor_cancel : (a b c : ℕ) → bit_xor a b ≡ bit_xor a c → b ≡ c
bit_xor_cancel a b c e = cancel_within (a + b + c) a b c (omega arith) e
