-- ===== src/Pxeboot/Tftp.antt =====
-- The TFTP packets of crates/pxeboot/src/main.rs, and what its server makes of a read request.
pub mod Laws
pub mod Transfer
use hivebus.Prelude.{
  ℕ, Option, none, some, Bool, true, false, ◌||◌, ◌&&◌, not, List, [], ◌∷◌, ◌++◌, ◌==◌, nat_eq,
  bytes_eq, take, ltb, if◌then◌else◌, length, drop, get_or, ◌>>=◌,
}
use hivebus.Std.Bytes.{u16_to_be, u16_from_be}
use hivebus.Std.Text.{Str, str, to_ascii_lowercase}
use hivebus.Std.Text.Utf8.{from_utf8}
use hivebus.Pxeboot.Boot.{sanitize_tftp_path}

abbrev pub tftp_rrq : ℕ
tftp_rrq = 1

abbrev pub tftp_data : ℕ
tftp_data = 3

abbrev pub tftp_error : ℕ
tftp_error = 5

-- The bytes before the first zero and those behind it: `position(|b| *b == 0)` and the slices.
unfoldable pub cut_at_zero : List ℕ → Option (List ℕ × List ℕ)
cut_at_zero [] = none
cut_at_zero (b ∷ bytes) = elim (b == 0) [
  | true ↦ some ([], bytes)
  | false ↦ elim (cut_at_zero bytes) [
    | none ↦ none
    | some (before, behind) ↦ some (b ∷ before, behind)
  ]
]

-- The file name and the mode.
unfoldable pub parse_strings : List ℕ → Option (Str × Str)
unfolding cut_at_zero from_utf8 to_ascii_lowercase
parse_strings payload = do
  (name_bytes, behind) ← cut_at_zero payload
  (mode_bytes, _) ← cut_at_zero behind
  filename ← from_utf8 name_bytes
  mode ← from_utf8 mode_bytes
  some (filename, to_ascii_lowercase mode)

unfoldable pub parse_tftp_rrq : List ℕ → Option (Str × Str)
unfolding parse_strings
parse_tftp_rrq packet =
    if ltb (length packet) 4
      || not (u16_from_be (get_or packet 0 0) (get_or packet 1 0) == tftp_rrq)
    then none
    else parse_strings (drop 2 packet)

unfoldable pub build_tftp_data : ℕ → List ℕ → List ℕ
build_tftp_data block bytes = u16_to_be tftp_data ++ u16_to_be block ++ bytes

unfoldable pub build_tftp_error : ℕ → Str → List ℕ
build_tftp_error code message = u16_to_be tftp_error ++ u16_to_be code ++ message ++ 0 ∷ []

-- What `tftp_server` does with a packet: it sends a reply, or it starts a transfer.
pub data Dispatch : Type 0 where
  refuse : List ℕ → Dispatch
  transfer : Str → Dispatch

unfoldable pub dispatch : Option (Str × Str) → Dispatch
unfolding build_tftp_error
dispatch none = refuse (build_tftp_error 4 (str "unsupported operation"))
dispatch (some (requested, mode)) =
    if not (mode == str "octet") && not (mode == str "netascii")
    then refuse (build_tftp_error 0 (str "unsupported transfer mode"))
    else transfer requested

-- The receive buffer holds 1500 bytes.
unfoldable pub on_tftp : List ℕ → Dispatch
unfolding dispatch parse_tftp_rrq
on_tftp datagram = dispatch (parse_tftp_rrq (take 1500 datagram))
