-- ===== src/Tests/Hivectl/Watching.antt =====
-- Runs of the loop of crates/hivectl/src/main.rs on concrete passes.
use hivebus.Prelude.{
  ℕ, ◌<◌, ◌≡◌, ◌↔◌, ◌⊎◌, refl, some, none, Option, true, false, List, [], ◌∷◌, ◌++◌, map, arith,
  length, length-replicate, replicate, nat_eq,
}
use hivebus.Result.{ok}
use hivebus.Std.Text.{Str, str, decimal, decimal_rounds}
use hivebus.Std.Time.{from_secs}
use hivebus.Proto.Node.{NodeInfo, alive}
use hivebus.Hivebus.Members.{master_from}
use hivebus.Hivebus.Control.{list_nodes}
use hivebus.Hivectl.{App, Instant, elapsed, new}
use hivebus.Hivectl.Anyhow.{returned, raised}
use hivebus.Hivectl.Query.{query_hivebus}
use hivebus.Hivectl.View.{as_secs, alive_count, show_age}
use hivebus.Hivectl.Screen.{Ratatui, Behaves, Rect, Placed, ui}
use hivebus.Hivectl.Screen.Reader.{Displays, headline, told}
use hivebus.Hivectl.Loop.{
  Queried, Pass, Event, key, char, down, control, next, quit, run_pass, run_loop,
}
use hivebus.Hivectl.Loop.Selection.{run_loop_selects}
use hivebus.Hivectl.Loop.Failing.{run_loop_failing}
use hivebus.Hivectl.Loop.Ends.{left, IsSmooth, run_loop_ends}
use hivebus.Hivectl.Loop.First.{first_pass-shows}
use hivebus.Tests.Data.{op_codec-ReadsBack, node, seen, later, table-IsValid}
use hivebus.Tests.Data
use hivebus.Tests.Replies.{reply_codec-ReadsBack}
use hivebus.Tests.Hivectl.{
  codecs, self, link, link-Serves, nodes-Fits, master-Fits, get_nodes-Fits, get_master-Fits,
}

-- A layout that gives every part the whole area.
abbrev pub ratatui : Ratatui
ratatui = record {
  split = λ d cs area. replicate (length cs) area;
  render = λ rows selected. selected;
}

pub ratatui-Behaves : Behaves ratatui
ratatui-Behaves = record {
  splits = λ d cs area. length-replicate (length cs) area;
  keeps = λ rows selected h. refl;
}

abbrev area : Rect
area = record { x = 0; y = 0; width = 80; height = 24 }

abbrev path : Str
path = str "/run/h.sock"

abbrev pub boot : Instant
boot = from_secs 100

abbrev refused : Queried
refused = record { result = raised (str "connection refused"); at = boot }

-- A pass with an event, or none, in which every query fails.
abbrev pub pass : Option Event → Pass
pass event = record {
  area = area;
  drawn_at = boot;
  wall = later;
  draw_error = none;
  poll = elim event [ none ↦ ok false | some e ↦ ok true ];
  read = elim event [ none ↦ ok (key down 0) | some e ↦ ok e ];
  by_key = refused;
  checked_at = boot;
  by_age = refused;
}

abbrev members : List NodeInfo
members = node 2 alive seen ∷ node 3 alive seen ∷ []

-- A pass in which the query by age answers.
abbrev answered : Pass
answered = record (pass none) { by_age = record { result = returned (members, some 2); at = boot } }

abbrev first : App
first = record {
  cluster = record {
    nodes = [];
    master_id = none;
    queried_at = 98_999_000_000;
    error = some (str "connecting…");
  };
  selected = none;
  socket_path = path;
}

first_new : new boot path ≡ returned first
unfolding new
first_new = refl

abbrev second : App
second = record {
  cluster = record { nodes = members; master_id = some 2; queried_at = boot; error = none };
  selected = some 1;
  socket_path = path;
}

second_run : run_loop ratatui (answered ∷ pass (some (key down 0)) ∷ []) first ≡ next second
unfolding run_loop
second_run = refl

run_loop_selects_example : (sel : ℕ) × (second.selected ≡ some sel) × (sel < 2)
run_loop_selects_example =
    run_loop_selects {ratatui = ratatui} {app = first} {app' = second} boot path
      (answered ∷ pass (some (key down 0)) ∷ []) ratatui-Behaves first_new second_run (omega arith)

abbrev third : App
third = record second {
  cluster = record second.cluster { error = some (str "connection refused") };
  selected = some 1;
}

third_run : run_loop ratatui (pass (some (key (char b'r') 0)) ∷ pass none ∷ []) second ≡ next third
unfolding run_loop
third_run = refl

run_loop_failing_example :
    (third.cluster.nodes ≡ members)
    × (third.cluster.master_id ≡ some 2)
    × ((third.cluster ≡ second.cluster) ⊎ ((e : Str) × (third.cluster.error ≡ some e)))
run_loop_failing_example =
    run_loop_failing {ratatui = ratatui} {app' = third} second
      (pass (some (key (char b'r') 0)) ∷ pass none ∷ []) ratatui-Behaves
      ((((_, refl), (_, refl)), (((_, refl), (_, refl)), tt))) third_run

pass-IsSmooth : (event : Option Event) → IsSmooth (pass event)
pass-IsSmooth none = record { draws = refl; polls = tt; reads = tt; by_key = tt; by_age = tt }
pass-IsSmooth (some e) = record { draws = refl; polls = tt; reads = tt; by_key = tt; by_age = tt }

abbrev leaving : List Pass
leaving = pass none ∷ pass (some (key (char b'c') control)) ∷ pass none ∷ []

run_loop_ends_example :
    ((run_loop ratatui leaving first ≡ quit) ↔ (left leaving ≡ true))
    × (((app' : App) × (run_loop ratatui leaving first ≡ next app')) ↔ (left leaving ≡ false))
run_loop_ends_example =
    run_loop_ends leaving first ratatui-Behaves (
      pass-IsSmooth none,
      (pass-IsSmooth (some (key (char b'c') control)), (pass-IsSmooth none, tt)),
    )

-- A pass that queries the daemon of node 5.
abbrev watching : Pass
watching = record (pass none) {
  by_age = record { result = query_hivebus codecs (λ r. []) link link path; at = boot };
}

first_pass-shows_example :
    (app' : App) × (n : NodeInfo) × (screen : List Placed) × (app'' : App) × (run_pass ratatui
        watching first
      ≡ next app')
    × (app'.cluster.nodes ≡ list_nodes self later Data.table)
    × (app'.cluster.error ≡ none)
    × (master_from Data.table 5 ≡ some n.node_id)
    × (n.state ≡ alive)
    × (ui ratatui boot later area app' ≡ some (screen, app''))
    × Displays screen
        (headline none app'.socket_path
          (n.hostname ++ (str " (" ++ (decimal n.node_id ++ str ")")))
          (alive_count (list_nodes self later Data.table))
          (length (list_nodes self later Data.table))
          (as_secs (elapsed boot app'.cluster.queried_at)))
        (map (told later) (list_nodes self later Data.table))
        app'.selected
        none
first_pass-shows_example =
    first_pass-shows {ratatui = ratatui} {app = first} codecs self Data.table (λ r. []) link link
      later later boot path watching boot later area op_codec-ReadsBack reply_codec-ReadsBack
      ratatui-Behaves table-IsValid link-Serves link-Serves get_nodes-Fits get_master-Fits
      nodes-Fits master-Fits first_new (omega arith) refl refl refl

shown_age : show_age 3725 ≡ str "62m5s"
unfolding show_age decimal_rounds
shown_age = refl
