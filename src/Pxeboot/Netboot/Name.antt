-- ===== src/Pxeboot/Netboot/Name.antt =====
-- The name of the script of a node that crates/pxeboot/src/main.rs does not know: visible ASCII.
use hivebus.Prelude.{
  ℕ, ◌<◌, ◌≡◌, refl, [], ◌∷◌, ◌++◌, arith, All-append, length, length-append, inl,
}
use hivebus.Std.Text.{Str, str, join, to_ascii_lowercase}
use hivebus.Std.Text.Hex.{hex_byte}
use hivebus.Std.Text.Trim.{IsVisible}
use hivebus.Std.Text.Utf8.{IsAscii, is_utf8_of_IsAscii}
use hivebus.Std.Path.Laws.{Lacks}
use hivebus.Proto.Mac.{Mac, IsMac, octets}
use hivebus.Hivebus.Identity.Laws.{join-IsVisible, octets-bytes}
use hivebus.Pxeboot.Boot.{fmt_mac, default_script_path}
use hivebus.Pxeboot.Tftp.{on_tftp, transfer}
use hivebus.Pxeboot.Tftp.Laws.{read_request, on_tftp-read_request}

pub default_script_path-IsVisible : (mac : Mac) → IsMac mac → IsVisible (default_script_path mac)
unfolding default_script_path fmt_mac
default_script_path-IsVisible mac h =
    let address = join-IsVisible (octets mac) (octets-bytes mac h) in
    let visible : ℕ → Type 0 = λ c. (32 < c) × (c < 127) in
    All-append visible (str "scripts/") (fmt_mac mac ++ str ".ipxe") (omega arith)
      (All-append visible (fmt_mac mac) (str ".ipxe") address (omega arith))

pub length-default_script_path : (mac : Mac) → length (default_script_path mac) ≡ 30
unfolding default_script_path fmt_mac join hex_byte
length-default_script_path mac = refl

IsVisible-IsAscii : (s : Str) → IsVisible s → IsAscii s
IsVisible-IsAscii [] h = tt
IsVisible-IsAscii (c ∷ s) h = (omega arith, IsVisible-IsAscii s h.1)

IsVisible-Lacks : (s : Str) → IsVisible s → Lacks 0 s
IsVisible-Lacks [] h = tt
IsVisible-Lacks (c ∷ s) h = (omega arith, IsVisible-Lacks s h.1)

pub default_script_path-Lacks : (mac : Mac) → IsMac mac → Lacks 0 (default_script_path mac)
default_script_path-Lacks mac h = IsVisible-Lacks _ (default_script_path-IsVisible mac h)

-- The server starts a transfer of the script when it is requested in the mode `octet`.
pub default_script_path_requested :
    (mac : Mac)
    → IsMac mac
    → on_tftp (read_request (default_script_path mac) (str "octet"))
      ≡ transfer (default_script_path mac)
unfolding read_request to_ascii_lowercase
default_script_path_requested mac h =
    let ascii = IsVisible-IsAscii _ (default_script_path-IsVisible mac h) in
    let size = length-append (default_script_path mac) (0 ∷ (str "octet" ++ 0 ∷ [])) in
    on_tftp-read_request (default_script_path mac) (str "octet") (default_script_path-Lacks mac h)
      (omega arith) (is_utf8_of_IsAscii _ ascii) (is_utf8_of_IsAscii (str "octet") (omega arith))
      (omega (arith, size, length-default_script_path mac)) (inl refl)
