-- ===== src/Pxeboot/Dhcp/Fields.antt =====
-- Fields written at offsets of a packet, as the DHCP reply of crates/pxeboot/src/main.rs is built.
use hivebus.Prelude.{
  ℕ, zero, suc, ◌+◌, ◌≤◌, ◌≡◌, refl, ap, List, [], ◌∷◌, ◌++◌, arith, length, take, drop,
}
use native.Mathlib.Numerals.{unary_clauses}
use hivebus.Pxeboot.Dhcp.{write_at}

pub length-write_at : (i : ℕ) (bytes pkt : List ℕ) → length (write_at i bytes pkt) ≡ length pkt
unfolding write_at
length-write_at i bytes [] = refl
length-write_at (suc i) bytes (x ∷ pkt) = ap suc (length-write_at i bytes pkt)
length-write_at zero [] (x ∷ pkt) = refl
length-write_at zero (b ∷ bytes) (x ∷ pkt) = ap suc (length-write_at zero bytes pkt)

-- `n` bytes from the offset `i` on.
unfoldable pub slice : ℕ → ℕ → List ℕ → List ℕ
slice i n pkt = take n (drop i pkt)

pub slice-write_at :
    (i : ℕ) (bytes pkt : List ℕ)
    → i + length bytes ≤ length pkt
    → slice i (length bytes) (write_at i bytes pkt) ≡ bytes
unfolding slice write_at
slice-write_at zero [] [] h = refl
slice-write_at zero [] (x ∷ pkt) h = refl
slice-write_at zero (b ∷ bytes) [] h = absurd (omega arith)
slice-write_at zero (b ∷ bytes) (x ∷ pkt) h =
    ap (◌∷◌ b) (slice-write_at zero bytes pkt (omega arith))
slice-write_at (suc i) bytes [] h = absurd (omega arith)
slice-write_at (suc i) bytes (x ∷ pkt) h = slice-write_at i bytes pkt (omega arith)

pub slice-write_at_size :
    (i n : ℕ) (bytes pkt : List ℕ)
    → length bytes ≡ n
    → i + n ≤ length pkt
    → slice i n (write_at i bytes pkt) ≡ bytes
slice-write_at_size i n bytes pkt size h = rw (← size) (slice-write_at i bytes pkt (omega arith))

-- A field in front of what is written.
pub slice-write_at_before :
    (i n j : ℕ) (bytes pkt : List ℕ) → i + n ≤ j → slice i n (write_at j bytes pkt) ≡ slice i n pkt
unfolding slice write_at
slice-write_at_before i zero j bytes pkt h = refl
slice-write_at_before i (suc n) j bytes [] h = refl
slice-write_at_before zero (suc n) zero bytes (x ∷ pkt) h = absurd (omega arith)
slice-write_at_before zero (suc n) (suc j) bytes (x ∷ pkt) h =
    ap (◌∷◌ x) (slice-write_at_before zero n j bytes pkt (omega arith))
slice-write_at_before (suc i) (suc n) zero bytes (x ∷ pkt) h = absurd (omega arith)
slice-write_at_before (suc i) (suc n) (suc j) bytes (x ∷ pkt) h =
    slice-write_at_before i (suc n) j bytes pkt (omega arith)

pub slice-append : (i n : ℕ) (p q : List ℕ) → i + n ≤ length p → slice i n (p ++ q) ≡ slice i n p
unfolding slice
slice-append i zero p q h = refl
slice-append zero (suc n) [] q h = absurd (omega arith)
slice-append zero (suc n) (x ∷ p) q h = ap (◌∷◌ x) (slice-append zero n p q (omega arith))
slice-append (suc i) (suc n) [] q h = absurd (omega arith)
slice-append (suc i) (suc n) (x ∷ p) q h = slice-append i (suc n) p q (omega arith)

-- What is behind the beginning of what is written.
pub drop-write_at :
    (i : ℕ) (bytes pkt : List ℕ)
    → i + length bytes ≤ length pkt
    → drop i (write_at i bytes pkt) ≡ bytes ++ drop (i + length bytes) pkt
unfolding write_at
drop-write_at zero [] [] h = refl
drop-write_at zero [] (x ∷ pkt) h = refl
drop-write_at zero (b ∷ bytes) [] h = absurd (omega arith)
drop-write_at zero (b ∷ bytes) (x ∷ pkt) h =
    simp unary_clauses (ap (◌∷◌ b) (drop-write_at zero bytes pkt (omega arith)))
drop-write_at (suc i) bytes [] h = absurd (omega arith)
drop-write_at (suc i) bytes (x ∷ pkt) h =
    let next : suc i + length bytes ≡ suc (i + length bytes) = omega arith in
    rw next (drop-write_at i bytes pkt (omega arith))

-- What is behind all that is written.
pub drop-write_at_behind :
    (j i : ℕ) (bytes pkt : List ℕ)
    → i + length bytes ≤ j
    → drop j (write_at i bytes pkt) ≡ drop j pkt
unfolding write_at
drop-write_at_behind j i bytes [] h = refl
drop-write_at_behind zero zero [] (x ∷ pkt) h = refl
drop-write_at_behind zero zero (b ∷ bytes) (x ∷ pkt) h = absurd (omega arith)
drop-write_at_behind zero (suc i) bytes (x ∷ pkt) h = absurd (omega arith)
drop-write_at_behind (suc j) zero [] (x ∷ pkt) h = refl
drop-write_at_behind (suc j) zero (b ∷ bytes) (x ∷ pkt) h =
    drop-write_at_behind j zero bytes pkt (omega arith)
drop-write_at_behind (suc j) (suc i) bytes (x ∷ pkt) h =
    drop-write_at_behind j i bytes pkt (omega arith)

pub drop-append_short : (n : ℕ) (p q : List ℕ) → n ≤ length p → drop n (p ++ q) ≡ drop n p ++ q
drop-append_short zero p q h = refl
drop-append_short (suc n) [] q h = absurd (omega arith)
drop-append_short (suc n) (x ∷ p) q h = drop-append_short n p q (omega arith)
