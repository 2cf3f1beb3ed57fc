-- ===== src/Pxeboot/Tftp/Transfer/Lossy.antt =====
-- What a client gets of a transfer of crates/pxeboot/src/main.rs over a network that loses packets.
use mathlib.Core.Path.{subst}
use hivebus.Prelude.{
  ℕ, suc, ◌^◌, ◌<◌, ◌≤◌, ◌≡◌, ◌≢◌, inl, inr, refl, sym, ap, ◌∙◌, Bool, true, false, ◌&&◌, List, [],
  ◌∷◌, ◌++◌, arith, ◌==◌, nat_eq, beq_refl, beq_ne, if◌then◌else◌, length, get_or, replicate,
  Bool-cases,
}
use hivebus.Std.Bytes.{u16_from_be}
use hivebus.Std.Net.{SocketAddr, addr_eq}
use hivebus.Pxeboot.Tftp.{build_tftp_data}
use hivebus.Pxeboot.Tftp.Transfer.{Attempt, received, tftp_ack, is_ack}
use hivebus.Pxeboot.Tftp.Transfer.Delivery.{next_block, receive, receive_expected}

-- The block that a packet of data or an acknowledgement names.
abbrev pub block_of : List ℕ → ℕ
block_of packet = u16_from_be (get_or packet 2 0) (get_or packet 3 0)

-- A datagram that acknowledges a block, in the format of RFC 1350.
pub record Acknowledges (block : ℕ) (datagram : List ℕ) : Type 0 where
  pub long : 4 ≤ length datagram
  pub opcode : u16_from_be (get_or datagram 0 0) (get_or datagram 1 0) ≡ tftp_ack
  pub number : block_of datagram ≡ block

-- A packet of the server on the network: whether it gets through to the client, and what the
-- server has of its wait afterwards.
pub record Exchange : Type 0 where
  pub through : Bool
  pub outcome : Attempt

-- The packets that get through.
abbrev pub arrived : List (List ℕ) → List Exchange → List (List ℕ)
arrived [] es = []
arrived (packet ∷ packets) [] = []
arrived (packet ∷ packets) (e ∷ es) =
    let rest = arrived packets es in if e.through then packet ∷ rest else rest

-- The block that the client waits for after a packet.
abbrev pub waits_for : ℕ → List ℕ → Bool → ℕ
waits_for expected packet through =
    if through && block_of packet == expected then next_block expected else expected

-- Nothing that the server has from the client acknowledges the block that the client still waits
-- for. Acknowledgements may be lost, late and repeated, and other hosts may send anything.
abbrev pub IsHonest : SocketAddr → ℕ → List (List ℕ) → List Exchange → Type 0
IsHonest client expected [] es = Unit
IsHonest client expected (packet ∷ packets) [] = Unit
IsHonest client expected (packet ∷ packets) (e ∷ es) =
    ((d : List ℕ)
      → e.outcome ≡ received d client
      → ¬ Acknowledges (waits_for expected packet e.through) d)
    × IsHonest client (waits_for expected packet e.through) packets es

pub is_ack-Acknowledges :
    (client from : SocketAddr) (block : ℕ) (d : List ℕ)
    → is_ack client block d from ≡ true
    → (from ≡ client) × Acknowledges block d
unfolding is_ack
is_ack-Acknowledges client from block [] h = absurd (ground arith)
is_ack-Acknowledges client from block (a ∷ []) h = absurd (ground arith)
is_ack-Acknowledges client from block (a ∷ b ∷ []) h = absurd (ground arith)
is_ack-Acknowledges client from block (a ∷ b ∷ c ∷ []) h = absurd (ground arith)
is_ack-Acknowledges client from block (a ∷ b ∷ c ∷ d ∷ ds) h = (
  (addr_eq.decides from client).0 (ground arith),
  record { long = omega arith; opcode = ground arith; number = ground arith },
)

block_of-build_tftp_data :
    (block : ℕ) (bytes : List ℕ) → block < 2 ^ 16 → block_of (build_tftp_data block bytes) ≡ block
unfolding build_tftp_data
block_of-build_tftp_data block bytes h = omega arith

receive_old :
    (block : ℕ) (bytes : List ℕ) (packets : List (List ℕ))
    → block < 2 ^ 16
    → receive (next_block block) (build_tftp_data block bytes ∷ packets)
      ≡ receive (next_block block) packets
unfolding receive
receive_old block bytes packets h =
    let other : block ≢ next_block block = omega arith in
    rw (block_of-build_tftp_data block bytes h, beq_ne block (next_block block) other) refl

module _ (client : SocketAddr) (block : ℕ) (bytes : List ℕ) (small : block < 2 ^ 16) where
  abbrev packet : List ℕ
  packet = build_tftp_data block bytes

  pub waits_for_new : waits_for block packet true ≡ next_block block
  waits_for_new = rw (block_of-build_tftp_data block bytes small, beq_refl block) refl

  pub waits_for_old :
      (through : Bool) → waits_for (next_block block) packet through ≡ next_block block
  waits_for_old false = refl
  waits_for_old true =
      let other : block ≢ next_block block = omega arith in
      rw (block_of-build_tftp_data block bytes small, beq_ne block (next_block block) other) refl

  -- From a packet of the block on, sent so many times more, to what follows on the block.
  pub record Passes (k : ℕ) (es es' : List Exchange) : Type 0 where
    pub fresh :
        (more : List (List ℕ))
        → IsHonest client block (replicate (suc k) packet ++ more) es
        → (receive block (arrived (replicate (suc k) packet ++ more) es)
            ≡ bytes ++ receive (next_block block) (arrived more es'))
          × IsHonest client (next_block block) more es'
    pub known :
        (more : List (List ℕ))
        → IsHonest client (next_block block) (replicate (suc k) packet ++ more) es
        → (receive (next_block block) (arrived (replicate (suc k) packet ++ more) es)
            ≡ receive (next_block block) (arrived more es'))
          × IsHonest client (next_block block) more es'

  known_step :
      (e : Exchange) (packets : List (List ℕ)) (es : List Exchange)
      → receive (next_block block) (arrived (packet ∷ packets) (e ∷ es))
        ≡ receive (next_block block) (arrived packets es)
  known_step e packets es = elim (Bool-cases e.through) [
    | inl p ↦ rw p (receive_old block bytes (arrived packets es) small)
    | inr p ↦ rw p refl
  ]

  pub missed :
      (k : ℕ) (e : Exchange) (es es' : List Exchange)
      → Passes k es es'
      → Passes (suc k) (e ∷ es) es'
  missed k e es es' q = record {
    fresh = λ more h. elim (Bool-cases e.through) [
      | inl p ↦
          let h' =
            subst (λ n. IsHonest client n (replicate (suc k) packet ++ more) es)
              (ap (waits_for block packet) p ∙ waits_for_new) h.1 in
          let (got, left) = q.known more h' in
          (
            (rw p (
                receive_expected block bytes (arrived (replicate (suc k) packet ++ more) es) small
                ∙ ap (◌++◌ bytes) got)),
            left,
          )
      | inr p ↦
          let h' =
            subst (λ n. IsHonest client n (replicate (suc k) packet ++ more) es)
              (ap (waits_for block packet) p) h.1 in
          let (got, left) = q.fresh more h' in (rw p got, left)
    ];
    known = λ more h.
        let h' =
          subst (λ n. IsHonest client n (replicate (suc k) packet ++ more) es)
            (waits_for_old e.through) h.1 in
        let (got, left) = q.known more h' in
        (known_step e (replicate (suc k) packet ++ more) es ∙ got, left);
  }

  pub answered :
      (d : List ℕ) (e : Exchange) (es : List Exchange)
      → e.outcome ≡ received d client
      → Acknowledges block d
      → Passes 0 (e ∷ es) es
  answered d e es said acks = record {
    fresh = λ more h. elim (Bool-cases e.through) [
      | inl p ↦ (
        (rw p (receive_expected block bytes (arrived more es) small)),
        subst (λ n. IsHonest client n more es) (ap (waits_for block packet) p ∙ waits_for_new) h.1,
      )
      | inr p ↦
          absurd
            (h.0 d said (subst (λ n. Acknowledges n d) (sym (ap (waits_for block packet) p)) acks))
    ];
    known = λ more h. (
      known_step e more es,
      subst (λ n. IsHonest client n more es) (waits_for_old e.through) h.1,
    );
  }
