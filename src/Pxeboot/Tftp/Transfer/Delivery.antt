-- ===== src/Pxeboot/Tftp/Transfer/Delivery.antt =====
-- A client that takes the packets of a transfer of crates/pxeboot/src/main.rs.
use hivebus.Prelude.{
  ℕ, ◌+◌, ◌*◌, ◌/◌, ◌%◌, ◌^◌, ◌<◌, ◌≡◌, ◌⊎◌, inl, inr, refl, List, [], ◌∷◌, ◌++◌, arith, ◌==◌,
  nat_eq, ltb, if◌then◌else◌, length, drop, get_or,
}
use hivebus.Result.{Result, ok, err}
use hivebus.Std.Bytes.{u16_from_be}
use hivebus.Pxeboot.Tftp.{build_tftp_data}
use hivebus.Pxeboot.Tftp.Transfer.{Attempt, Sending, acked, gave_up, broken, tftp_block_size}

-- The block after another.
abbrev pub next_block : ℕ → ℕ
next_block block = (block + 1) % 2 ^ 16

-- A client that waits for one block after the other and takes no notice of any other packet: the
-- bytes that it puts together.
unfoldable pub receive : ℕ → List (List ℕ) → List ℕ
receive expected [] = []
receive expected (packet ∷ packets) =
    let taken = drop 4 packet ++ receive (next_block expected) packets in
    let ignored = receive expected packets in
    if u16_from_be (get_or packet 2 0) (get_or packet 3 0) == expected then taken else ignored

-- The bytes of a file whose reads are listed: up to the first read that is short.
unfoldable pub contents : List (Result (List ℕ)) → List ℕ
contents [] = []
contents (err e ∷ reads) = []
contents (ok bytes ∷ reads) =
    if ltb (length bytes) tftp_block_size then bytes else bytes ++ contents reads

pub receive_expected :
    (block : ℕ) (bytes : List ℕ) (packets : List (List ℕ))
    → block < 2 ^ 16
    → receive block (build_tftp_data block bytes ∷ packets)
      ≡ bytes ++ receive (next_block block) packets
unfolding receive build_tftp_data
receive_expected block bytes packets h =
    let e : block / 2 ^ 8 % 256 * 2 ^ 8 + block % 256 ≡ block = omega arith in ground (arith, e)

pub Sending-cases :
    (s : Sending)
    → (((retries : ℕ) × (rest : List Attempt) × (s ≡ acked retries rest)))
      ⊎ (((retries : ℕ) × (s ≡ gave_up retries)) ⊎ ((retries : ℕ) × (s ≡ broken retries)))
Sending-cases (acked retries rest) = inl (retries, rest, refl)
Sending-cases (gave_up retries) = inr (inl (retries, refl))
Sending-cases (broken retries) = inr (inr (retries, refl))
