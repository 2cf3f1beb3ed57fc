-- ===== src/Pxeboot/Netboot.antt =====
-- How a node that crates/pxeboot/src/main.rs does not know boots from the network: its discover,
-- the script that is written for it, and its read request for that script.
pub mod Name
pub mod Discovered
pub mod Boots
use hivebus.Prelude.{ℕ, ◌≡◌, Option, none, some, List, All, drop}
use hivebus.Result.{Result}
use hivebus.Std.Text.{Str}
use hivebus.Pxeboot.Boot.{FileWrite}
use hivebus.Pxeboot.Tftp.{cut_at_zero}
use hivebus.Pxeboot.Tftp.Transfer.{Opening, opened}
use hivebus.Pxeboot.Tftp.Transfer.Completion.{IsRead}
use hivebus.Pxeboot.Tftp.Transfer.Delivery.{contents}

-- The file that a client of DHCP reads in a reply: the field from offset 108 on, up to a zero byte.
unfoldable pub boot_name : List ℕ → Option Str
unfolding cut_at_zero
boot_name reply = elim (cut_at_zero (drop 108 reply)) [ none ↦ none | some (name, _) ↦ some name ]

-- The file system has the files that were written: what the reads of one give.
pub record HasFile (file_at : Str → Opening) (reads : FileWrite → List (Result (List ℕ)))
    (f : FileWrite) : Type 0 where
  pub found : file_at f.path ≡ opened (reads f)
  pub readable : All IsRead (reads f)
  pub whole : contents (reads f) ≡ f.contents
