-- ===== src/Pxeboot/Tftp/Transfer/Arrival.antt =====
-- The delivery of a file of crates/pxeboot/src/main.rs over a network that loses packets.
use mathlib.Core.Path.{subst}
use hivebus.Prelude.{
  ℕ, zero, suc, ◌+◌, ◌^◌, ◌<◌, ◌≡◌, ◌≢◌, inl, inr, refl, sym, ap, ◌∙◌, List, [], ◌∷◌, ◌++◌, map,
  arith, nat_eq, ltb, length, replicate, append-nil, Bool-cases,
}
use hivebus.Result.{Result, ok, err}
use hivebus.Std.Net.{SocketAddr, addr_eq}
use hivebus.Pxeboot.Tftp.{build_tftp_data}
use hivebus.Pxeboot.Tftp.Transfer.{
  Attempt, send_failed, received, recv_failed, timed_out, is_ack, acked, after, send_block,
  complete, transfer_blocks, tftp_block_size, tftp_max_retries,
}
use hivebus.Pxeboot.Tftp.Transfer.Delivery.{next_block, receive, contents, Sending-cases}
use hivebus.Pxeboot.Tftp.Transfer.Lossy.{
  Exchange, arrived, IsHonest, is_ack-Acknowledges, Passes, missed, answered,
}

module _ (client : SocketAddr) (block : ℕ) (bytes : List ℕ) (small : block < 2 ^ 16) where
  abbrev packet : List ℕ
  packet = build_tftp_data block bytes

  unanswered :
      (retries left r : ℕ) (rest : List Attempt)
      → send_block client block retries left [] ≢ acked r rest
  unfolding send_block
  unanswered retries zero r rest e = absurd (ground arith)
  unanswered retries (suc left) r rest e = unanswered (suc retries) left r rest e

  -- What the inner loop has done when the block is acknowledged.
  record Sent (retries r : ℕ) (es : List Exchange) (rest : List Attempt) : Type 0 where
    again : ℕ
    behind : List Exchange
    count : r ≡ retries + again
    goes_on : map (λ e. e.outcome) behind ≡ rest
    passes : Passes client block bytes small again es behind

  missed-Sent :
      (retries r : ℕ) (e : Exchange) (es : List Exchange) (rest : List Attempt)
      → Sent (suc retries) r es rest
      → Sent retries r (e ∷ es) rest
  missed-Sent retries r e es rest s = record {
    again = suc s.again;
    behind = s.behind;
    count = omega (arith, s.count);
    goes_on = s.goes_on;
    passes = missed client block bytes small s.again e es s.behind s.passes;
  }

  send_block_after :
      (retries left r : ℕ) (e : Exchange) (outcome : Attempt) (es : List Exchange)
      (rest : List Attempt)
      → (send_block client block (suc retries) left (map (λ e. e.outcome) es) ≡ acked r rest
          → Sent (suc retries) r es rest)
      → e.outcome ≡ outcome
      → send_block client block retries (suc left) (outcome ∷ map (λ e. e.outcome) es)
        ≡ acked r rest
      → Sent retries r (e ∷ es) rest
  unfolding send_block
  send_block_after retries left r e send_failed es rest further at h = absurd (ground arith)
  send_block_after retries left r e recv_failed es rest further at h =
      missed-Sent retries r e es rest (further h)
  send_block_after retries left r e timed_out es rest further at h =
      missed-Sent retries r e es rest (further h)
  send_block_after retries left r e (received d from) es rest further at h =
      elim (Bool-cases (is_ack client block d from)) [
        | inl p ↦
            let (same, acks) = is_ack-Acknowledges client from block d p in
            record {
              again = 0;
              behind = es;
              count = ground arith;
              goes_on = ground arith;
              passes = answered client block bytes small d e es (rw same at at) acks;
            }
        | inr p ↦ missed-Sent retries r e es rest (further (ground arith))
      ]

  send_block-Sent :
      (retries left r : ℕ) (es : List Exchange) (rest : List Attempt)
      → send_block client block retries left (map (λ e. e.outcome) es) ≡ acked r rest
      → Sent retries r es rest
  unfolding send_block
  send_block-Sent retries left r [] rest h = absurd (unanswered retries left r rest h)
  send_block-Sent retries zero r (e ∷ es) rest h = absurd (ground arith)
  send_block-Sent retries (suc left) r (e ∷ es) rest h =
      send_block_after retries left r e e.outcome es rest
        (send_block-Sent (suc retries) left r es rest) refl h

  -- The packets of the block reach the client, and what follows on them starts at the next one.
  send_block-fresh :
      (r : ℕ) (es : List Exchange) (rest : List Attempt) (s : Sent 0 r es rest)
      (more : List (List ℕ))
      → IsHonest client block (replicate (suc r) packet ++ more) es
      → (receive block (arrived (replicate (suc r) packet ++ more) es)
          ≡ bytes ++ receive (next_block block) (arrived more s.behind))
        × IsHonest client (next_block block) more s.behind
  send_block-fresh r es rest s more h =
      let same : s.again ≡ r = omega (arith, s.count) in
      subst
        (λ k.
          IsHonest client block (replicate (suc k) packet ++ more) es
          → (receive block (arrived (replicate (suc k) packet ++ more) es)
              ≡ bytes ++ receive (next_block block) (arrived more s.behind))
            × IsHonest client (next_block block) more s.behind)
        same (s.passes.fresh more) h

  -- The same where nothing follows.
  send_block_last :
      (r : ℕ) (es : List Exchange) (rest : List Attempt)
      → Sent 0 r es rest
      → IsHonest client block (replicate (suc r) packet) es
      → receive block (arrived (replicate (suc r) packet) es) ≡ bytes
  unfolding receive
  send_block_last r es rest s h =
      let e = append-nil (replicate (suc r) packet) in
      let (got, _) =
        send_block-fresh r es rest s [] (subst (λ ps. IsHonest client block ps es) (sym e) h) in
      ap (λ ps. receive block (arrived ps es)) (sym e) ∙ (got ∙ append-nil bytes)

-- A transfer that ends as complete has delivered the file over a network that loses packets: a
-- client that waits for one block after the other, beginning with the first that is sent, and
-- ignores what it has already, puts together exactly the bytes that the reads gave up to the first
-- short one from the packets that get through to it. Which packets get through is arbitrary, and
-- acknowledgements may be lost, late and repeated. The one condition is that nothing the server has
-- from the client's address acknowledges the block that the client is waiting for at that time.
-- This holds for files of any number of blocks, since the block numbers wrap around.
pub transfer_blocks-receive-arrived :
    (client : SocketAddr) (block : ℕ) (reads : List (Result (List ℕ))) (es : List Exchange)
    → block < 2 ^ 16
    → (transfer_blocks client block reads (map (λ e. e.outcome) es)).1 ≡ complete
    → IsHonest client block (transfer_blocks client block reads (map (λ e. e.outcome) es)).0 es
    → receive block (arrived (transfer_blocks client block reads (map (λ e. e.outcome) es)).0 es)
      ≡ contents reads
unfolding transfer_blocks contents
transfer_blocks-receive-arrived client block [] es h done honest =
    elim (Sending-cases (send_block client block 0 tftp_max_retries (map (λ e. e.outcome) es))) [
      | inl (retries, rest, e) ↦
          let s = send_block-Sent client block [] h 0 tftp_max_retries retries es rest e in
          rw (transfer_blocks, e)
            (send_block_last client block [] h retries es rest s
              (rw (transfer_blocks, e) at honest))
      | inr (inl (retries, e)) ↦ absurd (ground arith)
      | inr (inr (retries, e)) ↦ absurd (ground arith)
    ]
transfer_blocks-receive-arrived client block (err e ∷ reads) es h done honest =
    absurd (ground arith)
transfer_blocks-receive-arrived client block (ok bytes ∷ reads) es h done honest =
    elim (Sending-cases (send_block client block 0 tftp_max_retries (map (λ e. e.outcome) es))) [
      | inl (retries, rest, e) ↦
          let s = send_block-Sent client block bytes h 0 tftp_max_retries retries es rest e in
          elim (Bool-cases (ltb (length bytes) tftp_block_size)) [
            | inl p ↦
                rw (transfer_blocks, e, p)
                  (send_block_last client block bytes h retries es rest s
                    (rw (transfer_blocks, e, p) at honest))
            | inr p ↦
                let further =
                  transfer_blocks client (next_block block) reads (map (λ e. e.outcome) s.behind) in
                let step : transfer_blocks client block (ok bytes ∷ reads) (map (λ e. e.outcome) es)
                    ≡ after (replicate (suc retries) (build_tftp_data block bytes)) further =
                  rw (transfer_blocks, e, p, s.goes_on) in
                let (got, left) =
                  send_block-fresh client block bytes h retries es rest s further.0
                    (rw step at honest) in
                rw (step, p)
                  (got
                    ∙ ap (◌++◌ bytes) (
                        transfer_blocks-receive-arrived client (next_block block) reads s.behind
                          (omega arith) (rw step at done) left))
          ]
      | inr (inl (retries, e)) ↦ absurd (ground arith)
      | inr (inr (retries, e)) ↦ absurd (ground arith)
    ]
