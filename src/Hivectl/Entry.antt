-- ===== src/Hivectl/Entry.antt =====
-- `main` and `TerminalGuard` of crates/hivectl/src/main.rs: the terminal is set up, the loop runs,
-- and the terminal is restored.
use hivebus.Prelude.{
  ◌≡◌, ◌≢◌, ◌⊎◌, ◌↔◌, refl, inl, inr, Bool, true, false, not, Option, none, some, List, ◌++◌, arith,
}
use hivebus.Std.Text.{Str, str}
use hivebus.Hivectl.{App, Instant, default_socket, new}
use hivebus.Hivectl.Anyhow.{Call, returned, raised, aborted}
use hivebus.Hivectl.Screen.{Ratatui}
use hivebus.Hivectl.Loop.{Pass, Next, next, quit, ended, crashed, run_loop}

pub record Terminal : Type 0 where
  pub raw : Bool
  pub alternate : Bool

-- What the process is given, and what the calls to set up the terminal come to. The calls to
-- restore it may fail too, which is ignored.
pub record Process : Type 0 where
  pub argument : Option Str
  pub enable_raw_mode : Option Str
  pub enter_alternate : Option Str
  pub new_terminal : Option Str
  pub disables : Bool
  pub leaves : Bool
  pub started_at : Instant

-- How the process ends, or the state of the loop that goes on.
pub data Exit : Type 0 where
  finished : Exit
  failed : Str → Exit
  panicked : Exit
  running : App → Exit

-- Both the guard's `drop` and the end of `main`: what is restored once stays so.
abbrev restored : Process → Terminal
restored p = record { raw = not p.disables; alternate = not p.leaves }

abbrev on : Terminal
on = record { raw = true; alternate = true }

abbrev off : Terminal
off = record { raw = false; alternate = false }

-- The guard restores the terminal after an error and while a panic unwinds.
abbrev ending : Process → Next → Exit × Terminal
ending p (next app) = (running app, on)
ending p quit = (finished, restored p)
ending p (ended e) = (failed e, restored p)
ending p crashed = (panicked, restored p)

abbrev socket_of : Option Str → Str
socket_of none = default_socket
socket_of (some path) = path

module _ (ratatui : Ratatui) (passes : List Pass) (p : Process) where
  abbrev run : Call App → Exit × Terminal
  run (returned app) = ending p (run_loop ratatui passes app)
  run (raised e) = (failed e, restored p)
  run aborted = (panicked, restored p)

  -- The three calls that set the terminal up, by what each comes to. The guard exists from the
  -- second one on.
  abbrev set_up : Option Str → Option Str → Option Str → Exit × Terminal
  set_up (some e) _ _ = (failed (str "enable raw mode: " ++ e), off)
  set_up none (some e) _ =
      (failed (str "enter alternate screen: " ++ e), record { raw = true; alternate = false })
  set_up none none (some e) = (failed (str "create terminal: " ++ e), restored p)
  set_up none none none = run (new p.started_at (socket_of p.argument))

  unfoldable pub main : Exit × Terminal
  unfolding new run_loop
  main = set_up p.enable_raw_mode p.enter_alternate p.new_terminal

-- The process has ended.
abbrev pub IsOver : Exit → Type 0
IsOver (running app) = ⊥
IsOver _ = Unit

abbrev pub IsRestored : Terminal → Type 0
IsRestored t = (t.raw ≡ false) × (t.alternate ≡ false)

module _ (p : Process) (disables : p.disables ≡ true) (leaves : p.leaves ≡ true) where
  ending-IsRestored : (n : Next) → IsOver (ending p n).0 → IsRestored (ending p n).1
  ending-IsRestored (next app) over = absurd over
  ending-IsRestored quit over = ground arith
  ending-IsRestored (ended e) over = ground arith
  ending-IsRestored crashed over = ground arith

module _ (ratatui : Ratatui) (passes : List Pass) (p : Process) (disables : p.disables ≡ true)
    (leaves : p.leaves ≡ true) where
  run-IsRestored :
      (c : Call App) → IsOver (run ratatui passes p c).0 → IsRestored (run ratatui passes p c).1
  run-IsRestored (returned app) over =
      ending-IsRestored p disables leaves (run_loop ratatui passes app) over
  run-IsRestored (raised e) over = ground arith
  run-IsRestored aborted over = ground arith

  set_up-IsRestored :
      (a b c : Option Str)
      → IsOver (set_up ratatui passes p a b c).0
      → IsRestored (set_up ratatui passes p a b c).1 ↔ ((a ≢ none) ⊎ (b ≡ none))
  set_up-IsRestored (some e) b c over = (λ _. inl (λ q. cc), λ _. (refl, refl))
  set_up-IsRestored none (some e) c over =
      (λ q. absurd (ground (arith, q.0)), λ q. absurd (ground (arith, q)))
  set_up-IsRestored none none (some e) over = (λ _. inr refl, λ _. ground arith)
  set_up-IsRestored none none none over =
      (λ _. inr refl, λ _. run-IsRestored (new p.started_at (socket_of p.argument)) over)

  -- When the process is over, by a key, by an error or by a panic, the terminal is out of the raw
  -- mode and of the alternate screen again, except if the raw mode was entered and entering the
  -- alternate screen failed. The calls that restore the terminal work.
  pub main-IsRestored :
      IsOver (main ratatui passes p).0
      → IsRestored (main ratatui passes p).1
        ↔ ((p.enable_raw_mode ≢ none) ⊎ (p.enter_alternate ≡ none))
  unfolding main
  main-IsRestored over = set_up-IsRestored p.enable_raw_mode p.enter_alternate p.new_terminal over
