-- ===== src/Hivectl/Loop/Selection.antt =====
-- The selected row of crates/hivectl/src/main.rs is a row that is shown.
use hivebus.Prelude.{
  ℕ, zero, suc, ◌<◌, ◌≤◌, ◌≡◌, refl, none, some, Option, List, [], ◌∷◌, arith, All, length,
}
use hivebus.Std.Text.{Str}
use hivebus.Proto.Node.{NodeInfo}
use hivebus.Hivectl.{App, Instant, new, refresh, reselect, scroll_up, scroll_down}
use hivebus.Hivectl.Anyhow.{Call, returned, raised, aborted}
use hivebus.Hivectl.Screen.{Ratatui, Behaves}
use hivebus.Hivectl.Loop.{Pass, next, of_call, run_loop}
use hivebus.Hivectl.Loop.Passes.{Holds, Refreshes, run_loop-Holds}

-- A selection among so many rows.
abbrev InBounds : ℕ → Option ℕ → Type 0
InBounds len none = len ≡ 0
InBounds len (some sel) = len ≤ sel → len ≡ 0

abbrev IsShown : App → Type 0
IsShown app = InBounds (length app.cluster.nodes) app.selected

InBounds-zero : (sel : Option ℕ) → InBounds 0 sel
InBounds-zero none = refl
InBounds-zero (some sel) = λ _. refl

render-InBounds :
    {ratatui : Ratatui} (behaves : Behaves ratatui) (len : ℕ) (sel : Option ℕ)
    → InBounds len sel
    → InBounds len (ratatui.render len sel)
render-InBounds behaves zero sel h = InBounds-zero _
render-InBounds behaves (suc len) none h = absurd (omega arith)
render-InBounds behaves (suc len) (some sel) h = rw (behaves.keeps (suc len) sel (ground arith)) h

reselect-InBounds :
    (nodes : List NodeInfo) (sel : Option ℕ) → InBounds (length nodes) (reselect nodes sel)
unfolding reselect
reselect-InBounds [] none = ground arith
reselect-InBounds [] (some sel) = ground arith
reselect-InBounds (n ∷ nodes) none = ground arith
reselect-InBounds (n ∷ nodes) (some sel) = ground arith

scroll_up-IsShown : (app : App) → IsShown app → IsShown (scroll_up app)
unfolding scroll_up
scroll_up-IsShown app h = ground arith

scroll_down-IsShown : (app : App) → IsShown app → IsShown (scroll_down app)
unfolding scroll_down
scroll_down-IsShown app h = ground arith

refresh-IsShown :
    (result : Call (List NodeInfo × Option ℕ)) (now : Instant) (app : App)
    → IsShown app
    → Holds IsShown (of_call (refresh result now app))
unfolding refresh
refresh-IsShown (returned (nodes, master_id)) now app h = reselect-InBounds nodes app.selected
refresh-IsShown (raised e) now app h = h
refresh-IsShown aborted now app h = tt

every_pass :
    (passes : List Pass)
    → All (λ pass. Refreshes IsShown pass.by_key × Refreshes IsShown pass.by_age) passes
every_pass [] = tt
every_pass (pass ∷ passes) = (
  (
    λ app h. refresh-IsShown pass.by_key.result pass.by_key.at app h,
    λ app h. refresh-IsShown pass.by_age.result pass.by_age.at app h,
  ),
  every_pass passes,
)

new-IsShown :
    {app : App} (now : Instant) (socket_path : Str)
    → new now socket_path ≡ returned app
    → IsShown app
unfolding new
new-IsShown now socket_path started = ground arith

-- After any number of passes, whatever keys are pressed and whatever the queries return, a row that
-- is there is selected as soon as there are rows. The layout and the drawing of the table behave
-- as the ratatui crate documents them.
pub run_loop_selects :
    {ratatui : Ratatui} {app app' : App} (now : Instant) (socket_path : Str) (passes : List Pass)
    → Behaves ratatui
    → new now socket_path ≡ returned app
    → run_loop ratatui passes app ≡ next app'
    → 0 < length app'.cluster.nodes
    → (sel : ℕ) × (app'.selected ≡ some sel) × (sel < length app'.cluster.nodes)
run_loop_selects {app} {app'} now socket_path passes behaves started goes_on some_rows =
    let kept =
      run_loop-Holds IsShown behaves
        (λ a h. render-InBounds behaves (length a.cluster.nodes) a.selected h) scroll_up-IsShown
        scroll_down-IsShown passes app (every_pass passes) (new-IsShown now socket_path started) in
    chosen app'.selected refl (rw goes_on at kept)
  where
    chosen :
        (o : Option ℕ)
        → app'.selected ≡ o
        → IsShown app'
        → (sel : ℕ) × (app'.selected ≡ some sel) × (sel < length app'.cluster.nodes)
    chosen none e h = absurd (ground arith)
    chosen (some sel) e h = (sel, e, ground arith)
