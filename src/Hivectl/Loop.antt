-- ===== src/Hivectl/Loop.antt =====
-- `run_loop` of crates/hivectl/src/main.rs. What the terminal, the clock and the socket give in one
-- pass of the loop is a record; a run is the list of its passes.
pub mod Passes
pub mod Selection
pub mod Failing
pub mod Ends
pub mod First
use hivebus.Prelude.{
  ℕ, ◌-◌, Bool, true, false, ◌&&◌, Option, none, some, List, [], ◌∷◌, leb, ◌==◌, nat_eq,
  if◌then◌else◌,
}
use hivebus.Result.{Result, ok, err}
use hivebus.Std.Text.{Str}
use hivebus.Std.Time.{SystemTime}
use hivebus.Proto.Node.{NodeInfo}
use hivebus.Hivectl.{App, Instant, elapsed, refresh_interval, refresh, scroll_up, scroll_down}
use hivebus.Hivectl.Anyhow.{Call, returned, raised, aborted}
use hivebus.Hivectl.Screen.{Ratatui, Rect, ui}

pub data KeyCode : Type 0 where
  char : ℕ → KeyCode
  up : KeyCode
  down : KeyCode
  other_code : KeyCode

-- `KeyModifiers::CONTROL`
abbrev pub control : ℕ
control = 0b10

pub data Event : Type 0 where
  key : KeyCode → ℕ → Event
  other_event : Event

-- What `query_hivebus` comes to, and the instant after it.
pub record Queried : Type 0 where
  pub result : Call (List NodeInfo × Option ℕ)
  pub at : Instant

pub record Pass : Type 0 where
  pub area : Rect
  pub drawn_at : Instant
  pub wall : SystemTime
  -- the error of `terminal.draw`
  pub draw_error : Option Str
  pub poll : Result Bool
  pub read : Result Event
  -- the query of a refresh by key
  pub by_key : Queried
  -- the clock for the test of the age, and the query of a refresh by age
  pub checked_at : Instant
  pub by_age : Queried

-- How a pass ends: the loop goes on, it is left by `break` or by an error, or it panics.
pub data Next : Type 0 where
  next : App → Next
  quit : Next
  ended : Str → Next
  crashed : Next

abbrev pub of_call : Call App → Next
of_call (returned app) = next app
of_call (raised e) = ended e
of_call aborted = crashed

infixl 5 ◌>>=◌
abbrev pub ◌>>=◌ : Next → (App → Next) → Next
next app >>= f = f app
quit >>= f = quit
ended e >>= f = ended e
crashed >>= f = crashed

unfoldable pub on_key : Queried → KeyCode → ℕ → App → Next
unfolding refresh scroll_up scroll_down
on_key q (char c) modifiers app =
    if c == b'q'
    then quit
    else if c == b'c' && modifiers == control
    then quit
    else if c == b'r'
    then of_call (refresh q.result q.at app)
    else next app
on_key q up modifiers app = next (scroll_up app)
on_key q down modifiers app = next (scroll_down app)
on_key q other_code modifiers app = next app

abbrev pub on_event : Queried → Event → App → Next
on_event q (key code modifiers) app = on_key q code modifiers app
on_event q other_event app = next app

unfoldable pub handle : Pass → App → Next
unfolding on_key
handle pass app = elim pass.poll [
  | err e ↦ ended e
  | ok false ↦ next app
  | ok true ↦ elim pass.read [ err e ↦ ended e | ok event ↦ on_event pass.by_key event app ]
]

-- The refresh once per interval.
unfoldable pub tick : Pass → App → Next
unfolding refresh
tick pass app =
    if leb refresh_interval (elapsed pass.checked_at app.cluster.queried_at)
    then of_call (refresh pass.by_age.result pass.by_age.at app)
    else next app

abbrev on_drawn : Pass → Option Str → App → Next
on_drawn pass (some e) app = ended e
on_drawn pass none app = handle pass app >>= tick pass

module _ (ratatui : Ratatui) where
  unfoldable pub run_pass : Pass → App → Next
  unfolding ui handle tick
  run_pass pass app = elim (ui ratatui pass.drawn_at pass.wall pass.area app) [
    | none ↦ crashed
    | some (screen, app') ↦ on_drawn pass pass.draw_error app'
  ]

  -- The passes of a run; `next` at their end means that the loop goes on.
  unfoldable pub run_loop : List Pass → App → Next
  unfolding run_pass
  run_loop [] app = next app
  run_loop (pass ∷ passes) app = run_pass pass app >>= run_loop passes
