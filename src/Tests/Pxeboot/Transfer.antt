-- ===== src/Tests/Pxeboot/Transfer.antt =====
-- A concrete file of two blocks, and the address of a concrete network interface.
use hivebus.Prelude.{ℕ, ◌≡◌, refl, true, false, List, [], ◌∷◌, ◌++◌, map, arith, nat_eq, replicate}
use hivebus.Result.{Result, ok}
use hivebus.Std.Net.{SocketAddr, addr_beq}
use hivebus.Std.Text.{str}
use hivebus.Proto.Mac.{node_id_from_mac}
use hivebus.Pxeboot.Boot.{fmt_mac}
use hivebus.Pxeboot.Tftp.{build_tftp_data}
use hivebus.Pxeboot.Tftp.Transfer.{
  Attempt, received, timed_out, is_ack, send_block, complete, transfer_blocks,
}
use hivebus.Pxeboot.Tftp.Transfer.Delivery.{receive, contents}
use hivebus.Pxeboot.Tftp.Transfer.Lossy.{Exchange, IsHonest, arrived}
use hivebus.Pxeboot.Tftp.Transfer.Arrival.{transfer_blocks-receive-arrived}
use hivebus.Pxeboot.Tftp.Transfer.Completion.{ack_packet}
use hivebus.Hivebus.Identity.{derive_node_id}
use hivebus.Hivebus.Identity.Laws.{derive_node_id-fmt_mac}
use hivebus.Tests.Data.{addr}
use hivebus.Tests.Pxeboot.{mac}

abbrev client : SocketAddr
client = addr 44

abbrev reads : List (Result (List ℕ))
reads = ok (replicate 512 7) ∷ ok (1 ∷ 2 ∷ []) ∷ []

abbrev acknowledged : ℕ → Attempt
acknowledged block = received (ack_packet block) client

-- The first packet is lost, then an acknowledgement, and the first acknowledgement comes again while
-- the second packet is lost.
abbrev exchanges : List Exchange
exchanges =
    record { through = false; outcome = timed_out }
    ∷ record { through = true; outcome = timed_out }
    ∷ record { through = true; outcome = acknowledged 1 }
    ∷ record { through = false; outcome = acknowledged 1 }
    ∷ record { through = true; outcome = acknowledged 2 }
    ∷ []

abbrev outcomes : List Attempt
outcomes = map (λ e. e.outcome) exchanges

done : (transfer_blocks client 1 reads outcomes).1 ≡ complete
unfolding transfer_blocks send_block is_ack addr_beq
done = refl

honest : IsHonest client 1 (transfer_blocks client 1 reads outcomes).0 exchanges
unfolding transfer_blocks send_block is_ack build_tftp_data addr_beq
honest = (
  (λ d said acks. absurd (ground arith)),
  (
    (λ d said acks. absurd (ground arith)),
    (
      (λ d said acks. absurd (ground (arith, acks.number))),
      (
        (λ d said acks. absurd (ground (arith, acks.number))),
        ((λ d said acks. absurd (ground (arith, acks.number))), tt),
      ),
    ),
  ),
)

transfer_blocks-receive-arrived_example :
    receive 1 (arrived (transfer_blocks client 1 reads outcomes).0 exchanges) ≡ contents reads
transfer_blocks-receive-arrived_example =
    transfer_blocks-receive-arrived client 1 reads exchanges (omega arith) done honest

derive_node_id-fmt_mac_example :
    derive_node_id (λ path. ok (fmt_mac mac ++ 10 ∷ [])) (str "eth1") ≡ ok (node_id_from_mac mac)
derive_node_id-fmt_mac_example =
    derive_node_id-fmt_mac (λ path. ok (fmt_mac mac ++ 10 ∷ [])) (str "eth1") mac (omega arith) refl
