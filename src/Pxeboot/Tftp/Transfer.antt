-- ===== src/Pxeboot/Tftp/Transfer.antt =====
-- `serve_tftp_read` of crates/pxeboot/src/main.rs: the transfer of one file. What the system does
-- is an argument: what each read of the file gives, and what comes of each packet that is sent.
pub mod Delivery
pub mod Completion
pub mod Lossy
pub mod Arrival
pub mod Losses
use hivebus.Prelude.{
  ℕ, zero, suc, ◌+◌, ◌%◌, ◌^◌, Bool, true, false, ◌&&◌, Option, none, some, List, [], ◌∷◌, ◌++◌,
  ◌==◌, nat_eq, ltb, if◌then◌else◌, length, take, get_or, replicate,
}
use hivebus.Result.{Result, ok, err}
use hivebus.Std.Bytes.{u16_from_be}
use hivebus.Std.Net.{SocketAddr, addr_eq}
use hivebus.Std.Text.{Str, str}
use hivebus.Pxeboot.Boot.{sanitize_tftp_path}
use hivebus.Pxeboot.Tftp.{build_tftp_data, build_tftp_error}

abbrev pub tftp_ack : ℕ
tftp_ack = 4

abbrev pub tftp_block_size : ℕ
tftp_block_size = 512

abbrev pub tftp_max_retries : ℕ
tftp_max_retries = 5

-- What comes of sending a packet and waiting for two seconds.
pub data Attempt : Type 0 where
  send_failed : Attempt
  received : List ℕ → SocketAddr → Attempt
  recv_failed : Attempt
  timed_out : Attempt

-- The receive buffer holds four bytes.
unfoldable pub is_ack : SocketAddr → ℕ → List ℕ → SocketAddr → Bool
is_ack client block datagram from =
    let ack_buf = take 4 datagram in
    length ack_buf == 4
    && from == client
    && u16_from_be (get_or ack_buf 0 0) (get_or ack_buf 1 0) == tftp_ack
    && u16_from_be (get_or ack_buf 2 0) (get_or ack_buf 3 0) == block

-- How the inner loop ends, after some retries.
pub data Sending : Type 0 where
  acked : ℕ → List Attempt → Sending
  gave_up : ℕ → Sending
  broken : ℕ → Sending

-- The inner loop for one block. `left` attempts are left after `retries` of them. When no attempt
-- is listed any more, nothing is received any more.
unfoldable pub send_block : SocketAddr → ℕ → ℕ → ℕ → List Attempt → Sending
unfolding is_ack
send_block client block retries zero attempts = gave_up retries
send_block client block retries (suc left) [] = send_block client block (suc retries) left []
send_block client block retries (suc left) (send_failed ∷ attempts) = broken retries
send_block client block retries (suc left) (recv_failed ∷ attempts) =
    send_block client block (suc retries) left attempts
send_block client block retries (suc left) (timed_out ∷ attempts) =
    send_block client block (suc retries) left attempts
send_block client block retries (suc left) (received datagram from ∷ attempts) =
    elim (is_ack client block datagram from) [
      | true ↦ acked retries attempts
      | false ↦ send_block client block (suc retries) left attempts
    ]

-- How a transfer ends.
pub data End : Type 0 where
  complete abandoned send_error read_error : End

-- The packets in front of what follows.
abbrev pub after : List (List ℕ) → List (List ℕ) × End → List (List ℕ) × End
after packets (more, end) = (packets ++ more, end)

-- The outer loop: the packets that are sent and the end. Behind the listed reads the file is at its
-- end and a read gives no bytes.
unfoldable pub transfer_blocks :
    SocketAddr → ℕ → List (Result (List ℕ)) → List Attempt → List (List ℕ) × End
unfolding send_block build_tftp_data build_tftp_error
transfer_blocks client block [] attempts =
    elim (send_block client block 0 tftp_max_retries attempts) [
      | acked retries rest ↦ (replicate (suc retries) (build_tftp_data block []), complete)
      | gave_up retries ↦ (replicate retries (build_tftp_data block []), abandoned)
      | broken retries ↦ (replicate retries (build_tftp_data block []), send_error)
    ]
transfer_blocks client block (err e ∷ reads) attempts =
    (build_tftp_error 0 (str "read failed") ∷ [], read_error)
transfer_blocks client block (ok bytes ∷ reads) attempts =
    elim (send_block client block 0 tftp_max_retries attempts) [
      | acked retries rest ↦ elim (ltb (length bytes) tftp_block_size) [
        | true ↦ (replicate (suc retries) (build_tftp_data block bytes), complete)
        | false ↦
            after (replicate (suc retries) (build_tftp_data block bytes))
              (transfer_blocks client ((block + 1) % 2 ^ 16) reads rest)
      ]
      | gave_up retries ↦ (replicate retries (build_tftp_data block bytes), abandoned)
      | broken retries ↦ (replicate retries (build_tftp_data block bytes), send_error)
    ]

-- What opening a path gives: the error, or what the reads of the file give.
pub data Opening : Type 0 where
  absent : Opening
  opened : List (Result (List ℕ)) → Opening

-- The whole task, but for the binding of its sockets. `file_at` is the file system.
unfoldable pub serve_tftp_read :
    (Str → Opening) → Str → Str → SocketAddr → List Attempt → List (List ℕ)
unfolding sanitize_tftp_path transfer_blocks
serve_tftp_read file_at root requested client attempts = elim (sanitize_tftp_path root requested) [
  | none ↦ build_tftp_error 2 (str "invalid path") ∷ []
  | some path ↦ elim (file_at path) [
    | absent ↦ build_tftp_error 1 (str "file not found") ∷ []
    | opened reads ↦ (transfer_blocks client 1 reads attempts).0
  ]
]
