-- ===== src/Hivectl/Loop/Failing.antt =====
-- crates/hivectl/src/main.rs while hivebus does not answer.
use hivebus.Prelude.{◌≡◌, ◌⊎◌, refl, inl, inr, some, List, [], ◌∷◌, All, arith}
use hivebus.Std.Text.{Str}
use hivebus.Hivectl.{App, ClusterState, refresh, scroll_up, scroll_down}
use hivebus.Hivectl.Anyhow.{raised}
use hivebus.Hivectl.Screen.{Ratatui, Behaves}
use hivebus.Hivectl.Loop.{Queried, Pass, next, run_loop}
use hivebus.Hivectl.Loop.Passes.{Refreshes, run_loop-Holds}

abbrev pub Fails : Queried → Type 0
Fails q = (e : Str) × (q.result ≡ raised e)

-- The nodes and the master are the old ones, and what has changed of the rest comes with an error.
abbrev IsStale : ClusterState → App → Type 0
IsStale old app =
    (app.cluster.nodes ≡ old.nodes)
    × (app.cluster.master_id ≡ old.master_id)
    × ((app.cluster ≡ old) ⊎ ((e : Str) × (app.cluster.error ≡ some e)))

module _ (old : ClusterState) where
  scroll_up-IsStale : (app : App) → IsStale old app → IsStale old (scroll_up app)
  unfolding scroll_up
  scroll_up-IsStale app h = ground (arith, h.0, h.1, h.2)

  scroll_down-IsStale : (app : App) → IsStale old app → IsStale old (scroll_down app)
  unfolding scroll_down
  scroll_down-IsStale app h = ground (arith, h.0, h.1, h.2)

  failing_refresh : (q : Queried) → Fails q → Refreshes (IsStale old) q
  unfolding refresh
  failing_refresh q (e, failed) app h = rw (failed, refresh) (h.0, h.1, inr (e, refl))

  every_pass :
      (passes : List Pass)
      → All (λ pass. Fails pass.by_key × Fails pass.by_age) passes
      → All
          (λ pass. Refreshes (IsStale old) pass.by_key × Refreshes (IsStale old) pass.by_age)
          passes
  every_pass [] h = tt
  every_pass (pass ∷ passes) h = (
    (failing_refresh pass.by_key h.0.0, failing_refresh pass.by_age h.0.1),
    every_pass passes h.1,
  )

-- As long as every query fails, whatever keys are pressed, the nodes and the master stay those of
-- the last successful query, and either nothing was queried or an error is shown.
pub run_loop_failing :
    {ratatui : Ratatui} {app' : App} (app : App) (passes : List Pass)
    → Behaves ratatui
    → All (λ pass. Fails pass.by_key × Fails pass.by_age) passes
    → run_loop ratatui passes app ≡ next app'
    → (app'.cluster.nodes ≡ app.cluster.nodes)
      × (app'.cluster.master_id ≡ app.cluster.master_id)
      × ((app'.cluster ≡ app.cluster) ⊎ ((e : Str) × (app'.cluster.error ≡ some e)))
run_loop_failing app passes behaves failing goes_on =
    let kept =
      run_loop-Holds (IsStale app.cluster) behaves (λ a h. (h.0, h.1, h.2))
        (scroll_up-IsStale app.cluster) (scroll_down-IsStale app.cluster) passes app
        (every_pass app.cluster passes failing) (refl, refl, inl refl) in
    rw goes_on at kept
