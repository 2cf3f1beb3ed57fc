-- ===== src/Prelude/Bits.antt =====
-- The bit operations of the wire formats as arithmetic: a mask of low bits, the join of disjoint
-- fields, and exclusive or.
use Prim.Native.Nat.{ℕ, zero, suc, ◌+◌, ◌*◌, ◌%◌, ◌<◌, bit_and, bit_or}
use mathlib.Core.Path.{◌≡◌, refl}
use mathlib.Core.Bool.{Bool, true, ◌&&◌}
use native.Mathlib.Omega.{arith}
use hivebus.Prelude.Tests.{nat_beq, nat_beq_iff}

-- A test passes for every number below a bound.
unfoldable pub each_below : (ℕ → Bool) → ℕ → Bool
each_below test zero = true
each_below test (suc bound) = each_below test bound && test bound

pub each_below_lem :
    (test : ℕ → Bool) (bound x : ℕ) → each_below test bound ≡ true → x < bound → test x ≡ true
unfolding each_below
each_below_lem test zero x passed lt = absurd (omega arith)
each_below_lem test (suc bound) x passed lt = ground (arith, each_below_lem test bound x)

nibble_table : each_below (λ x. nat_beq (bit_and x 0x0f) (x % 16)) 256 ≡ true
unfolding each_below
nibble_table = refl

-- `x & 0x0F` of a byte is its remainder by 16.
pub bit_and_nibble : (x : ℕ) → x < 256 → bit_and x 0x0f ≡ x % 16
bit_and_nibble x h = (nat_beq_iff _ _).0 (each_below_lem _ 256 x nibble_table h)

fields_table :
    each_below (λ q. each_below (λ r. nat_beq (bit_or (q * 16) r) (q * 16 + r)) 16) 16 ≡ true
unfolding each_below
fields_table = refl

-- `(q << 4) | r` of two nibbles is a sum.
pub bit_or_nibbles : (q r : ℕ) → q < 16 → r < 16 → bit_or (q * 16) r ≡ q * 16 + r
bit_or_nibbles q r hq hr =
    (nat_beq_iff _ _).0 (each_below_lem _ 16 r (each_below_lem _ 16 q fields_table hq) hr)
