-- ===== src/Pxeboot/Tftp/Transfer/Losses.antt =====
-- A transfer of crates/pxeboot/src/main.rs in which each block gets through after some losses.
use mathlib.Core.Path.{subst}
use hivebus.Prelude.{
  ℕ, zero, suc, ◌^◌, ◌<◌, ◌≡◌, ◌⊎◌, inl, inr, refl, sym, ap, ◌∙◌, Bool, true, false, List, [], ◌∷◌,
  ◌++◌, map, arith, ltb, length, replicate, append-nil, Bool-cases, All,
}
use hivebus.Result.{Result, ok, err}
use hivebus.Std.Net.{SocketAddr}
use hivebus.Pxeboot.Tftp.{build_tftp_data}
use hivebus.Pxeboot.Tftp.Transfer.{
  received, timed_out, acked, send_block, transfer_blocks, tftp_block_size, tftp_max_retries,
}
use hivebus.Pxeboot.Tftp.Transfer.Delivery.{next_block, receive, contents}
use hivebus.Pxeboot.Tftp.Transfer.Completion.{
  ack_packet, answers, IsRead, send_block-acked, transfer_blocks-complete,
}
use hivebus.Pxeboot.Tftp.Transfer.Lossy.{
  block_of, Acknowledges, Exchange, arrived, waits_for, IsHonest, waits_for_new, waits_for_old,
}
use hivebus.Pxeboot.Tftp.Transfer.Arrival.{transfer_blocks-receive-arrived}

-- Packets without an answer in time; of each is given whether it got through.
abbrev pub lost_ones : (ℕ → Bool) → ℕ → List Exchange
lost_ones through zero = []
lost_ones through (suc n) =
    record { through = through n; outcome = timed_out } ∷ lost_ones through n

-- The client gets the packet, and its acknowledgement gets through.
abbrev pub acknowledged : SocketAddr → ℕ → Exchange
acknowledged client block = record { through = true; outcome = received (ack_packet block) client }

-- `lost i` packets of the block at position `i`, or their acknowledgements, are lost before.
abbrev pub exchanges :
    SocketAddr → ℕ → ℕ → (ℕ → ℕ → Bool) → (ℕ → ℕ) → List (Result (List ℕ)) → List Exchange
exchanges client block i through lost [] =
    lost_ones (through i) (lost i) ++ acknowledged client block ∷ []
exchanges client block i through lost (r ∷ reads) =
    lost_ones (through i) (lost i)
    ++ acknowledged client block ∷ exchanges client (next_block block) (suc i) through lost reads

outcomes_lost :
    (through : ℕ → Bool) (n : ℕ) (es : List Exchange)
    → map (λ e. e.outcome) (lost_ones through n ++ es)
      ≡ replicate n timed_out ++ map (λ e. e.outcome) es
outcomes_lost through zero es = refl
outcomes_lost through (suc n) es = ap (◌∷◌ timed_out) (outcomes_lost through n es)

pub outcomes-exchanges :
    (client : SocketAddr) (block i : ℕ) (through : ℕ → ℕ → Bool) (lost : ℕ → ℕ)
    (reads : List (Result (List ℕ)))
    → map (λ e. e.outcome) (exchanges client block i through lost reads)
      ≡ answers client block i lost reads
unfolding answers
outcomes-exchanges client block i through lost [] = outcomes_lost (through i) (lost i) _
outcomes-exchanges client block i through lost (r ∷ reads) =
    outcomes_lost (through i) (lost i) _
    ∙ ap (λ rest. replicate (lost i) timed_out ++ received (ack_packet block) client ∷ rest)
        (outcomes-exchanges client (next_block block) (suc i) through lost reads)

module _ (client : SocketAddr) (block : ℕ) (bytes : List ℕ) (small : block < 2 ^ 16)
    (through : ℕ → Bool) (more : List (List ℕ)) (es : List Exchange)
    (rest : IsHonest client (next_block block) more es) where
  -- The client waits for the block, or has it.
  abbrev Waits : ℕ → Type 0
  Waits expected = (expected ≡ block) ⊎ (expected ≡ next_block block)

  Waits-waits_for :
      (expected : ℕ) (got : Bool)
      → Waits expected
      → Waits (waits_for expected (build_tftp_data block bytes) got)
  Waits-waits_for expected true (inl e) = rw e (inr (waits_for_new client block bytes small))
  Waits-waits_for expected false (inl e) = inl e
  Waits-waits_for expected got (inr e) = rw e (inr (waits_for_old client block bytes small got))

  has_it :
      (expected : ℕ)
      → Waits expected
      → waits_for expected (build_tftp_data block bytes) true ≡ next_block block
  has_it expected (inl e) = rw e (waits_for_new client block bytes small)
  has_it expected (inr e) = rw e (waits_for_old client block bytes small true)

  not_next :
      (d : List ℕ)
      → received (ack_packet block) client ≡ received d client
      → Acknowledges (next_block block) d
      → ⊥
  not_next d said acks =
      let same : ack_packet block ≡ d = ground arith in
      let number : block_of (ack_packet block) ≡ block = omega arith in
      omega (arith, number, ap block_of same, acks.number)

  honest_block :
      (n expected : ℕ)
      → Waits expected
      → IsHonest client expected
          (replicate (suc n) (build_tftp_data block bytes) ++ more)
          (lost_ones through n ++ acknowledged client block ∷ es)
  honest_block zero expected w = (
    (λ d said acks. not_next d said (subst (λ k. Acknowledges k d) (has_it expected w) acks)),
    subst (λ k. IsHonest client k more es) (sym (has_it expected w)) rest,
  )
  honest_block (suc n) expected w =
      ((λ d said. absurd (ground arith)), honest_block n _ (Waits-waits_for expected (through n) w))

sent_acked :
    (client : SocketAddr) (block n : ℕ) (through : ℕ → Bool) (es : List Exchange)
    → block < 2 ^ 16
    → n < tftp_max_retries
    → send_block client block 0 tftp_max_retries
        (map (λ e. e.outcome) (lost_ones through n ++ acknowledged client block ∷ es))
      ≡ acked n (map (λ e. e.outcome) es)
sent_acked client block n through es small few =
    ap (send_block client block 0 tftp_max_retries)
      (outcomes_lost through n (acknowledged client block ∷ es))
    ∙ send_block-acked client block n 0 tftp_max_retries (map (λ e. e.outcome) es) small few
    ∙ ap (λ k. acked k (map (λ e. e.outcome) es)) (omega arith)

-- Nothing follows on the packets of the block.
honest_last :
    (client : SocketAddr) (block : ℕ) (bytes : List ℕ) (n : ℕ) (through : ℕ → Bool)
    (es : List Exchange)
    → block < 2 ^ 16
    → IsHonest client block
        (replicate (suc n) (build_tftp_data block bytes))
        (lost_ones through n ++ acknowledged client block ∷ es)
honest_last client block bytes n through es small =
    subst (λ ps. IsHonest client block ps (lost_ones through n ++ acknowledged client block ∷ es))
      (append-nil (replicate (suc n) (build_tftp_data block bytes)))
      (honest_block client block bytes small through [] es tt n block (inl refl))

exchanges-IsHonest :
    (client : SocketAddr) (block i : ℕ) (through : ℕ → ℕ → Bool) (lost : ℕ → ℕ)
    (reads : List (Result (List ℕ)))
    → block < 2 ^ 16
    → ((j : ℕ) → lost j < tftp_max_retries)
    → All IsRead reads
    → IsHonest client block
        (transfer_blocks client block reads
          (map (λ e. e.outcome) (exchanges client block i through lost reads))).0
        (exchanges client block i through lost reads)
unfolding transfer_blocks
exchanges-IsHonest client block i through lost [] small few all =
    rw (transfer_blocks, sent_acked client block (lost i) (through i) [] small (few i))
      (honest_last client block [] (lost i) (through i) [] small)
exchanges-IsHonest client block i through lost (err e ∷ reads) small few all =
    absurd (ground (arith, all.0.1))
exchanges-IsHonest client block i through lost (ok bytes ∷ reads) small few all =
    let es = exchanges client (next_block block) (suc i) through lost reads in
    let sent = sent_acked client block (lost i) (through i) es small (few i) in
    elim (Bool-cases (ltb (length bytes) tftp_block_size)) [
      | inl p ↦
          rw (transfer_blocks, sent, p)
            (honest_last client block bytes (lost i) (through i) es small)
      | inr p ↦
          let behind =
            exchanges-IsHonest client (next_block block) (suc i) through lost reads (omega arith)
              few all.1 in
          rw (transfer_blocks, sent, p)
            (honest_block client block bytes small (through i) _ es behind (lost i) block
              (inl refl))
    ]

-- A file that is read without an error reaches the client whole when each of its blocks gets
-- through after at most four losses, of the packet or of its acknowledgement.
pub lossy_delivery :
    (client : SocketAddr) (block i : ℕ) (through : ℕ → ℕ → Bool) (lost : ℕ → ℕ)
    (reads : List (Result (List ℕ)))
    → block < 2 ^ 16
    → ((j : ℕ) → lost j < tftp_max_retries)
    → All IsRead reads
    → receive block (
        arrived
          (transfer_blocks client block reads
            (map (λ e. e.outcome) (exchanges client block i through lost reads))).0
          (exchanges client block i through lost reads))
      ≡ contents reads
lossy_delivery client block i through lost reads small few all =
    transfer_blocks-receive-arrived client block reads (exchanges client block i through lost reads)
      small
      (rw (outcomes-exchanges client block i through lost reads)
        (transfer_blocks-complete client block i lost reads small few all))
      (exchanges-IsHonest client block i through lost reads small few all)
