-- ===== src/Tests/Starting.antt =====
-- Concrete inputs for the start of crates/netop/src/main.rs.
use hivebus.Prelude.{ℕ, zero, suc, ◌≡◌, refl, none, some, Bool, true, false, [], arith}
use hivebus.Result.{ok, err}
use hivebus.Std.Text.{str}
use hivebus.Std.Time.{from_secs}
use hivebus.Configuration.{ConfigFiles}
use hivebus.Netop.Start.{Fields, start, ticking, panicked, PanicsOnZero, start_without_period}

abbrev netop_fields : Fields
netop_fields = record { reconcile_secs = none }

-- A file system with one file, or with none.
abbrev without_file : ConfigFiles Fields
without_file = record {
  exists = λ path. false;
  read_to_string = λ path. err (str "No such file or directory (os error 2)");
  parse = λ raw. ok netop_fields;
}

abbrev with_file : ConfigFiles Fields
with_file = record {
  exists = λ path. true;
  read_to_string = λ path. ok [];
  parse = λ raw. ok netop_fields;
}

abbrev is_zero : ℕ → Bool
is_zero zero = true
is_zero (suc n) = false

is_zero-PanicsOnZero : PanicsOnZero is_zero
is_zero-PanicsOnZero zero = (λ _. refl, λ _. refl)
is_zero-PanicsOnZero (suc n) = (λ h. absurd (ground arith), λ h. absurd (omega arith))

start_without_period_example :
    (start without_file is_zero (some (str "netop.toml")) ≡ ok panicked)
    × (start with_file is_zero (some (str "netop.toml")) ≡ ok (ticking (from_secs 5)))
start_without_period_example =
    start_without_period without_file with_file is_zero (str "netop.toml") [] is_zero-PanicsOnZero
      refl refl refl refl
