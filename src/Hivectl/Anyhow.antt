-- ===== src/Hivectl/Anyhow.antt =====
-- `anyhow::Result` of crates/hivectl/src/main.rs. An error is the text that `{:#}` shows of it: its
-- contexts and its cause, the outer one first. A call can also panic.
use hivebus.Prelude.{ℕ, List, Option, none, some, ◌++◌}
use hivebus.Result.{Result, ok, err}
use hivebus.Std.Text.{Str, str}
use hivebus.Proto.Control.{Encoding, frame, failed, panic}

pub data Call {ℓ} (A : Type ℓ) : Type ℓ where
  returned : A → Call A
  raised : Str → Call A
  aborted : Call A

infixl 5 ◌>>=◌
abbrev pub ◌>>=◌ {ℓ κ} : {A : Type ℓ} {B : Type κ} → Call A → (A → Call B) → Call B
returned a >>= f = f a
raised e >>= f = raised e
aborted >>= f = aborted

-- `.context(text)`
abbrev pub with_context {ℓ} : {A : Type ℓ} → Str → Call A → Call A
with_context text (returned a) = returned a
with_context text (raised e) = raised (text ++ str ": " ++ e)
with_context text aborted = aborted

-- A call of the system that gives nothing but perhaps an error.
abbrev pub checked : Option Str → Call (Unit {0})
checked none = returned tt
checked (some e) = raised e

abbrev pub of_encoding : Encoding → Call (List ℕ)
of_encoding (frame bytes) = returned bytes
of_encoding (failed e) = raised e
of_encoding panic = aborted

abbrev pub of_result {ℓ} : {A : Type ℓ} → Result A → Call A
of_result (ok a) = returned a
of_result (err e) = raised e
