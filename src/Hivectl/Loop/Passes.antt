-- ===== src/Hivectl/Loop/Passes.antt =====
-- What one pass, and a run, of crates/hivectl/src/main.rs keep.
use hivebus.Prelude.{
  ℕ, ◌≡◌, inl, inr, none, some, Option, Bool, true, false, List, [], ◌∷◌, All, length, ◌==◌, nat_eq,
  Bool-cases, ◌&&◌, leb,
}
use hivebus.Result.{Result, ok, err}
use hivebus.Std.Text.{Str}
use hivebus.Hivectl.{App, refresh, scroll_up, scroll_down, elapsed, refresh_interval}
use hivebus.Hivectl.Screen.{Ratatui, Behaves}
use hivebus.Hivectl.Screen.Laws.{ui_lem}
use hivebus.Hivectl.Loop.{
  KeyCode, char, up, down, other_code, Event, key, other_event, Queried, Pass, control, Next, next,
  quit, ended, crashed, ◌>>=◌, of_call, on_key, on_event, handle, tick, on_drawn, run_pass,
  run_loop,
}

-- The state after drawing.
abbrev pub drawn : Ratatui → App → App
drawn ratatui app = record app { selected = ratatui.render (length app.cluster.nodes) app.selected }

-- Where the layout behaves, a pass draws and then handles its event and the age.
pub run_pass_lem :
    {ratatui : Ratatui} (behaves : Behaves ratatui) (pass : Pass) (app : App)
    → run_pass ratatui pass app ≡ on_drawn pass pass.draw_error (drawn ratatui app)
unfolding run_pass
run_pass_lem behaves pass app =
    let (_, shown, _) = ui_lem behaves pass.drawn_at pass.wall pass.area app in rw (run_pass, shown)

module _ {ℓ} (P : App → Type ℓ) where
  -- What the state satisfies if the loop goes on.
  abbrev pub Holds : Next → Type ℓ
  Holds (next app) = P app
  Holds _ = Unit

  Holds-bind :
      (n : Next) (f : App → Next)
      → Holds n
      → ((app : App) → P app → Holds (f app))
      → Holds (n >>= f)
  Holds-bind (next app) f h keep = keep app h
  Holds-bind quit f h keep = tt
  Holds-bind (ended e) f h keep = tt
  Holds-bind crashed f h keep = tt

  -- The query gives a state with the property.
  abbrev pub Refreshes : Queried → Type ℓ
  Refreshes q = (app : App) → P app → Holds (of_call (refresh q.result q.at app))

  module _ {ratatui : Ratatui} (behaves : Behaves ratatui)
      (draws : (app : App) → P app → P (drawn ratatui app))
      (ups : (app : App) → P app → P (scroll_up app))
      (downs : (app : App) → P app → P (scroll_down app)) where
    on_key-Holds :
        (q : Queried) (code : KeyCode) (modifiers : ℕ) (app : App)
        → Refreshes q
        → P app
        → Holds (on_key q code modifiers app)
    unfolding on_key
    on_key-Holds q (char c) modifiers app fresh h = elim (Bool-cases (c == b'q')) [
      | inl p ↦ rw p tt
      | inr p ↦ elim (Bool-cases (c == b'c' && modifiers == control)) [
        | inl p' ↦ rw (p, p') tt
        | inr p' ↦ elim (Bool-cases (c == b'r')) [
          | inl p'' ↦ rw (p, p', p'') (fresh app h)
          | inr p'' ↦ rw (p, p', p'') h
        ]
      ]
    ]
    on_key-Holds q up modifiers app fresh h = ups app h
    on_key-Holds q down modifiers app fresh h = downs app h
    on_key-Holds q other_code modifiers app fresh h = h

    handle-Holds :
        (pass : Pass) (app : App) → Refreshes pass.by_key → P app → Holds (handle pass app)
    unfolding handle
    handle-Holds pass app fresh h = polled pass.poll pass.read
      where
        event_keeps : (e : Event) → Holds (on_event pass.by_key e app)
        event_keeps (key code modifiers) = on_key-Holds pass.by_key code modifiers app fresh h
        event_keeps other_event = h

        polled :
            (p : Result Bool) (r : Result Event)
            → Holds (elim p [
              | err e ↦ ended e
              | ok false ↦ next app
              | ok true ↦ elim r [ err e ↦ ended e | ok event ↦ on_event pass.by_key event app ]
            ])
        polled (err e) r = tt
        polled (ok false) r = h
        polled (ok true) (err e) = tt
        polled (ok true) (ok event) = event_keeps event

    tick-Holds : (pass : Pass) (app : App) → Refreshes pass.by_age → P app → Holds (tick pass app)
    unfolding tick
    tick-Holds pass app fresh h =
        elim (Bool-cases (leb refresh_interval (elapsed pass.checked_at app.cluster.queried_at))) [
          | inl p ↦ rw p (fresh app h)
          | inr p ↦ rw p h
        ]

    on_drawn-Holds :
        (pass : Pass) (error : Option Str) (app : App)
        → Refreshes pass.by_key
        → Refreshes pass.by_age
        → P app
        → Holds (on_drawn pass error app)
    on_drawn-Holds pass (some e) app fresh fresh' h = tt
    on_drawn-Holds pass none app fresh fresh' h =
        Holds-bind (handle pass app) (tick pass) (handle-Holds pass app fresh h)
          (λ app' h'. tick-Holds pass app' fresh' h')

    pub run_loop-Holds :
        (passes : List Pass) (app : App)
        → All (λ pass. Refreshes pass.by_key × Refreshes pass.by_age) passes
        → P app
        → Holds (run_loop ratatui passes app)
    unfolding run_loop
    run_loop-Holds [] app fresh h = h
    run_loop-Holds (pass ∷ passes) app fresh h =
        Holds-bind (run_pass ratatui pass app) (run_loop ratatui passes)
          (rw (run_pass_lem behaves pass app) (
            on_drawn-Holds pass pass.draw_error (drawn ratatui app) fresh.0.0 fresh.0.1
              (draws app h)))
          (λ app' h'. run_loop-Holds passes app' fresh.1 h')
