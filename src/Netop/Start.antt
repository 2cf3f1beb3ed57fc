-- ===== src/Netop/Start.antt =====
-- `Config` and the start in `main` of crates/netop/src/main.rs, with the loop that reconciles. The
-- timer of the tokio crate is a parameter.
use hivebus.Prelude.{ℕ, ◌≡◌, ◌≢◌, ◌↔◌, refl, Option, none, some, Bool, true, false, arith}
use hivebus.Result.{Result, ok, ◌>>=◌}
use hivebus.Std.Text.{Str, str}
use hivebus.Std.Time.{Duration, from_secs}
use hivebus.Std.Fs.{Process, FileSystem}
use hivebus.Socket.Setup.{open_control}
use hivebus.Configuration.{ConfigFiles, read_or, or_default}

pub record Fields : Type 0 where
  pub reconcile_secs : Option ℕ

pub record Config : Type 0 where
  pub reconcile_secs : ℕ

abbrev pub default_reconcile_secs : ℕ
default_reconcile_secs = 5

unfoldable pub of_fields : Fields → Config
of_fields f = record { reconcile_secs = or_default f.reconcile_secs default_reconcile_secs }

-- `#[derive(Default)]`
abbrev pub derived_default : Config
derived_default = record { reconcile_secs = 0 }

-- What `reconcile_loop` becomes: it ticks, or `interval` panics and the task ends.
pub data LoopState : Type 0 where
  ticking : Duration → LoopState
  panicked : LoopState

-- Whether `interval` panics for a period.
abbrev pub Timer : Type 0
Timer = Duration → Bool

-- The documented behaviour of `interval`.
abbrev pub PanicsOnZero : Timer → Type 0
PanicsOnZero panics = (period : Duration) → (panics period ≡ true) ↔ (period ≡ 0)

unfoldable pub reconcile_loop : Timer → Duration → LoopState
reconcile_loop panics period = elim (panics period) [ true ↦ panicked | false ↦ ticking period ]

unfoldable pub start : ConfigFiles Fields → Timer → Option Str → Result LoopState
unfolding read_or of_fields reconcile_loop
start files panics argument = do
  cfg ←
      read_or files of_fields derived_default (or_default argument (str "/etc/hivebus/netop.toml"))
  ok (reconcile_loop panics (from_secs cfg.reconcile_secs))

period_zero : (secs : ℕ) → from_secs secs ≡ 0 → secs ≡ 0
period_zero secs h = omega arith

loop_ticks :
    (panics : Timer) (secs : ℕ)
    → PanicsOnZero panics
    → secs ≢ 0
    → reconcile_loop panics (from_secs secs) ≡ ticking (from_secs secs)
unfolding reconcile_loop
loop_ticks panics secs zero positive = ground (arith, (zero (from_secs secs)).0, period_zero secs)

-- Without a configuration file netop starts, and the task that reconciles panics at once. With a
-- file that leaves the period out, the task runs every five seconds. The timer panics exactly on a
-- period of zero.
pub start_without_period :
    (files bare : ConfigFiles Fields) (panics : Timer) (path raw : Str)
    → PanicsOnZero panics
    → files.exists path ≡ false
    → bare.exists path ≡ true
    → bare.read_to_string path ≡ ok raw
    → bare.parse raw ≡ ok (record { reconcile_secs = none })
    → (start files panics (some path) ≡ ok panicked)
      × (start bare panics (some path) ≡ ok (ticking (from_secs 5)))
unfolding start read_or of_fields
start_without_period files bare panics path raw zero absent there read parsed = (
  rw (start, absent, reconcile_loop, (zero 0).1 refl) refl,
  rw (start, there, read, parsed, loop_ticks panics 5 zero (omega arith)) refl,
)

-- `control_plane`, up to the first connection.
unfoldable pub open_socket : Process → FileSystem → Result FileSystem
unfolding open_control
open_socket process fs = open_control process (str "netop.sock") fs
