-- ===== src/Pxeboot/Tftp/Transfer/Completion.antt =====
-- When a transfer of crates/pxeboot/src/main.rs comes to its end.
use hivebus.Prelude.{
  ℕ, zero, suc, ◌+◌, ◌*◌, ◌/◌, ◌%◌, ◌^◌, ◌<◌, ◌≡◌, inl, inr, ap, ◌∙◌, true, List, [], ◌∷◌, ◌++◌,
  arith, nat_eq, beq_refl, ltb, length, replicate, Bool-cases, All,
}
use hivebus.Result.{Result, ok, err}
use hivebus.Std.Bytes.{u16_to_be}
use hivebus.Std.Net.{SocketAddr, addr_eq}
use hivebus.Pxeboot.Tftp.Transfer.{
  tftp_ack, Attempt, received, timed_out, is_ack, acked, send_block, complete, transfer_blocks,
  tftp_block_size, tftp_max_retries,
}
use hivebus.Pxeboot.Tftp.Transfer.Delivery.{next_block}

-- The acknowledgement of a block.
abbrev pub ack_packet : ℕ → List ℕ
ack_packet block = u16_to_be tftp_ack ++ u16_to_be block

is_ack-ack_packet :
    (client : SocketAddr) (block : ℕ)
    → block < 2 ^ 16
    → is_ack client block (ack_packet block) client ≡ true
unfolding is_ack
is_ack-ack_packet client block h =
    let e : block / 2 ^ 8 % 256 * 2 ^ 8 + block % 256 ≡ block = omega arith in
    rw (beq_refl client, e, beq_refl block)

pub send_block-acked :
    (client : SocketAddr) (block n retries left : ℕ) (rest : List Attempt)
    → block < 2 ^ 16
    → n < left
    → send_block client block retries left
        (replicate n timed_out ++ received (ack_packet block) client ∷ rest)
      ≡ acked (retries + n) rest
unfolding send_block
send_block-acked client block n retries zero rest h lt = absurd (omega arith)
send_block-acked client block zero retries (suc left) rest h lt =
    rw (send_block, is_ack-ack_packet client block h) (ap (λ r. acked r rest) (omega arith))
send_block-acked client block (suc n) retries (suc left) rest h lt =
    send_block-acked client block n (suc retries) left rest h (omega arith)
    ∙ ap (λ r. acked r rest) (omega arith)

-- What comes of the packets when the client acknowledges every block and `lost i` packets or
-- acknowledgements of the block at position `i` are lost before.
unfoldable pub answers : SocketAddr → ℕ → ℕ → (ℕ → ℕ) → List (Result (List ℕ)) → List Attempt
answers client block i lost [] =
    replicate (lost i) timed_out ++ received (ack_packet block) client ∷ []
answers client block i lost (r ∷ reads) =
    replicate (lost i) timed_out
    ++ received (ack_packet block) client ∷ answers client (next_block block) (suc i) lost reads

-- A read that gave bytes.
abbrev pub IsRead : Result (List ℕ) → Type 0
IsRead r = (bytes : List ℕ) × (r ≡ ok bytes)

-- A transfer ends as complete if the file is read without an error and the client acknowledges each
-- block after at most four losses.
pub transfer_blocks-complete :
    (client : SocketAddr) (block i : ℕ) (lost : ℕ → ℕ) (reads : List (Result (List ℕ)))
    → block < 2 ^ 16
    → ((j : ℕ) → lost j < tftp_max_retries)
    → All IsRead reads
    → (transfer_blocks client block reads (answers client block i lost reads)).1 ≡ complete
unfolding transfer_blocks answers
transfer_blocks-complete client block i lost [] h few all =
    rw (transfer_blocks, send_block-acked client block (lost i) 0 tftp_max_retries [] h (few i))
transfer_blocks-complete client block i lost (err e ∷ reads) h few all =
    absurd (ground (arith, all.0.1))
transfer_blocks-complete client block i lost (ok bytes ∷ reads) h few all =
    let rest = answers client (next_block block) (suc i) lost reads in
    let sent = send_block-acked client block (lost i) 0 tftp_max_retries rest h (few i) in
    elim (Bool-cases (ltb (length bytes) tftp_block_size)) [
      | inl p ↦ rw (transfer_blocks, sent, p)
      | inr p ↦
          rw (transfer_blocks, sent, p)
            (transfer_blocks-complete client (next_block block) (suc i) lost reads (omega arith) few
              all.1)
    ]
