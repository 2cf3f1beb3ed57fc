-- ===== src/Tests/Hivectl/Ending.antt =====
-- The end of a run of crates/hivectl/src/main.rs.
use hivebus.Prelude.{◌≡◌, ◌≢◌, ◌⊎◌, ◌↔◌, refl, some, none, true, List, [], ◌∷◌}
use hivebus.Hivectl.Loop.{Pass, key, char}
use hivebus.Hivectl.Entry.{Process, main, IsRestored, main-IsRestored}
use hivebus.Tests.Hivectl.Watching.{ratatui, boot, pass}

abbrev process : Process
process = record {
  argument = none;
  enable_raw_mode = none;
  enter_alternate = none;
  new_terminal = none;
  disables = true;
  leaves = true;
  started_at = boot;
}

abbrev passes : List Pass
passes = pass none ∷ pass (some (key (char b'q') 0)) ∷ []

main-IsRestored_example :
    IsRestored (main ratatui passes process).1
    ↔ ((process.enable_raw_mode ≢ none) ⊎ (process.enter_alternate ≡ none))
unfolding main
main-IsRestored_example = main-IsRestored ratatui passes process refl refl tt
