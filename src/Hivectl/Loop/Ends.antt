-- ===== src/Hivectl/Loop/Ends.antt =====
-- How and when the loop of crates/hivectl/src/main.rs ends, and what its first pass does.
use hivebus.Prelude.{
  ℕ, ◌≡◌, ◌↔◌, refl, inl, inr, none, some, Option, Bool, true, false, ◌&&◌, ◌||◌, List, [], ◌∷◌,
  All, arith, leb, ◌==◌, nat_eq, if◌then◌else◌, Bool-cases,
}
use hivebus.Result.{Result, ok, err}
use hivebus.Std.Text.{Str}
use hivebus.Proto.Node.{NodeInfo}
use hivebus.Hivectl.{App, Instant, elapsed, refresh_interval, refresh}
use hivebus.Hivectl.Anyhow.{Call, returned, raised, aborted}
use hivebus.Hivectl.Screen.{Ratatui, Behaves}
use hivebus.Hivectl.Loop.{
  char, up, down, other_code, control, Event, key, other_event, Queried, Pass, Next, next, quit,
  ended, ◌>>=◌, of_call, on_key, on_event, handle, tick, on_drawn, run_pass, run_loop,
}
use hivebus.Hivectl.Loop.Passes.{drawn, run_pass_lem}

-- `q`, and `c` with the control key alone.
abbrev pub leaves : Event → Bool
leaves (key (char c) modifiers) = c == b'q' || (c == b'c' && modifiers == control)
leaves _ = false

-- The user leaves in this pass.
abbrev pub left_in : Result Bool → Result Event → Bool
left_in (ok true) (ok event) = leaves event
left_in _ _ = false

abbrev pub Answers : Call (List NodeInfo × Option ℕ) → Type 0
Answers aborted = ⊥
Answers _ = Unit

abbrev pub Succeeds {ℓ} : {A : Type ℓ} → Result A → Type 0
Succeeds (ok a) = Unit
Succeeds (err e) = ⊥

-- The terminal gives no error in the pass, and no query panics.
pub record IsSmooth (pass : Pass) : Type 0 where
  pub draws : pass.draw_error ≡ none
  pub polls : Succeeds pass.poll
  pub reads : Succeeds pass.read
  pub by_key : Answers pass.by_key.result
  pub by_age : Answers pass.by_age.result

-- The loop goes on, or was left by the user.
abbrev GoesOn : Bool → Next → Type 0
GoesOn left n = if left then n ≡ quit else (app : App) × (n ≡ next app)

refresh_total :
    (r : Call (List NodeInfo × Option ℕ)) (now : Instant) (app : App)
    → Answers r
    → (app' : App) × (of_call (refresh r now app) ≡ next app')
unfolding refresh
refresh_total (returned (nodes, master_id)) now app h = (_, refl)
refresh_total (raised e) now app h = (_, refl)
refresh_total aborted now app h = absurd h

on_event-GoesOn :
    (q : Queried) (event : Event) (app : App)
    → Answers q.result
    → GoesOn (leaves event) (on_event q event app)
unfolding on_key
on_event-GoesOn q (key (char c) modifiers) app h = elim (Bool-cases (c == b'q')) [
  | inl p ↦ rw p refl
  | inr p ↦ elim (Bool-cases (c == b'c' && modifiers == control)) [
    | inl p' ↦ rw (p, p') refl
    | inr p' ↦ elim (Bool-cases (c == b'r')) [
      | inl p'' ↦ rw (p, p', p'') (refresh_total q.result q.at app h)
      | inr p'' ↦ rw (p, p', p'') (app, refl)
    ]
  ]
]
on_event-GoesOn q (key up modifiers) app h = (_, refl)
on_event-GoesOn q (key down modifiers) app h = (_, refl)
on_event-GoesOn q (key other_code modifiers) app h = (_, refl)
on_event-GoesOn q other_event app h = (_, refl)

tick_total :
    (pass : Pass) (app : App)
    → Answers pass.by_age.result
    → (app' : App) × (tick pass app ≡ next app')
unfolding tick
tick_total pass app h =
    elim (Bool-cases (leb refresh_interval (elapsed pass.checked_at app.cluster.queried_at))) [
      | inl p ↦ rw p (refresh_total pass.by_age.result pass.by_age.at app h)
      | inr p ↦ rw p (app, refl)
    ]

GoesOn-bind :
    (left : Bool) (n : Next) (f : App → Next)
    → GoesOn left n
    → ((app : App) → (app' : App) × (f app ≡ next app'))
    → GoesOn left (n >>= f)
GoesOn-bind true n f h total = rw h refl
GoesOn-bind false n f (app, h) total = let (app', h') = total app in (app', rw (h, ◌>>=◌) h')

handle-GoesOn :
    (pass : Pass) (app : App)
    → IsSmooth pass
    → GoesOn (left_in pass.poll pass.read) (handle pass app)
unfolding handle
handle-GoesOn pass app smooth = polled pass.poll pass.read smooth.polls smooth.reads
  where
    polled :
        (p : Result Bool) (r : Result Event)
        → Succeeds p
        → Succeeds r
        → GoesOn (left_in p r) (elim p [
          | err e ↦ ended e
          | ok false ↦ next app
          | ok true ↦ elim r [ err e ↦ ended e | ok event ↦ on_event pass.by_key event app ]
        ])
    polled (err e) r hp hr = absurd hp
    polled (ok false) r hp hr = (app, refl)
    polled (ok true) (err e) hp hr = absurd hr
    polled (ok true) (ok event) hp hr = on_event-GoesOn pass.by_key event app smooth.by_key

pub on_drawn-none :
    (pass : Pass) (error : Option Str) (app : App)
    → error ≡ none
    → on_drawn pass error app ≡ (handle pass app >>= tick pass)
on_drawn-none pass none app h = refl
on_drawn-none pass (some e) app h = absurd (ground arith)

run_pass-GoesOn :
    {ratatui : Ratatui} (pass : Pass) (app : App)
    → Behaves ratatui
    → IsSmooth pass
    → GoesOn (left_in pass.poll pass.read) (run_pass ratatui pass app)
run_pass-GoesOn {ratatui} pass app behaves smooth =
    rw
      (
        run_pass_lem behaves pass app,
        on_drawn-none pass pass.draw_error (drawn ratatui app) smooth.draws,
      )
      (GoesOn-bind (left_in pass.poll pass.read) (handle pass (drawn ratatui app)) (tick pass)
        (handle-GoesOn pass (drawn ratatui app) smooth)
        (λ app'. tick_total pass app' smooth.by_age))

-- The user leaves in one of the passes.
abbrev pub left : List Pass → Bool
left [] = false
left (pass ∷ passes) = left_in pass.poll pass.read || left passes

GoesOn-run :
    {ratatui : Ratatui} (passes : List Pass) (app : App)
    → Behaves ratatui
    → All IsSmooth passes
    → GoesOn (left passes) (run_loop ratatui passes app)
unfolding run_loop
GoesOn-run [] app behaves smooth = (app, refl)
GoesOn-run {ratatui} (pass ∷ passes) app behaves smooth =
    step (left_in pass.poll pass.read) (run_pass ratatui pass app)
      (run_pass-GoesOn pass app behaves smooth.0) (λ app'. GoesOn-run passes app' behaves smooth.1)
  where
    step :
        (b : Bool) (n : Next)
        → GoesOn b n
        → ((app' : App) → GoesOn (left passes) (run_loop ratatui passes app'))
        → GoesOn (b || left passes) (n >>= run_loop ratatui passes)
    step true n h rest = rw h refl
    step false n (app', h) rest = rw h (rest app')

-- A run in which the terminal gives no error and no query panics is left exactly if the user
-- presses `q`, or `c` with the control key alone, in one of its passes. Else, and only then, the
-- loop goes on. The layout and the drawing of the table behave as the ratatui crate documents them.
pub run_loop_ends :
    {ratatui : Ratatui} (passes : List Pass) (app : App)
    → Behaves ratatui
    → All IsSmooth passes
    → ((run_loop ratatui passes app ≡ quit) ↔ (left passes ≡ true))
      × (((app' : App) × (run_loop ratatui passes app ≡ next app')) ↔ (left passes ≡ false))
run_loop_ends {ratatui} passes app behaves smooth =
    ends (left passes) (run_loop ratatui passes app) (GoesOn-run passes app behaves smooth)
  where
    ends :
        (b : Bool) (n : Next)
        → GoesOn b n
        → ((n ≡ quit) ↔ (b ≡ true)) × (((app' : App) × (n ≡ next app')) ↔ (b ≡ false))
    ends true n h = ((λ _. refl, λ _. h), (λ p. cc (p.1), λ e. absurd (ground arith)))
    ends false n h = ((λ e. absurd (ground (arith, h.1)), λ e. cc), (λ _. refl, λ _. h))
