-- ===== src/Hivectl/View.antt =====
-- What crates/hivectl/src/main.rs draws. The ratatui crate lays out and paints: it is given these
-- texts, styles and constraints, and its layout and what drawing does to the selection are
-- parameters.
pub mod Age
pub mod Laws
use hivebus.Prelude.{
  ℕ, String, ◌+◌, ◌-◌, ◌/◌, ◌%◌, ◌^◌, Bool, true, false, Option, none, some, List, [], ◌∷◌, ◌++◌,
  map, filter, ltb, ◌==◌, nat_eq, if◌then◌else◌, ◌>>=◌, length, get_elem?,
}
use hivebus.Std.Net.Display.{show_addr}
use hivebus.Std.Text.{Str, str, decimal}
use hivebus.Std.Time.{Duration, SystemTime, from_secs, duration_since}
use hivebus.Proto.Node.{NodeInfo, NodeState, alive, suspect, dead, state_eq}
use hivebus.Hivectl.{App, Instant, elapsed}

pub data Color : Type 0 where
  red green yellow cyan white dark_gray : Color

pub data Modifier : Type 0 where
  bold dim : Modifier

pub record Style : Type 0 where
  pub fg : Option Color
  pub add_modifier : Option Modifier

abbrev pub plain : Style
plain = record { fg = none; add_modifier = none }

abbrev pub colored : Color → Style
colored c = record { fg = some c; add_modifier = none }

abbrev pub modified : Color → Modifier → Style
modified c m = record { fg = some c; add_modifier = some m }

-- A `Span` of a line or a `Cell` of a row.
pub record Styled : Type 0 where
  pub text : Str
  pub style : Style

abbrev pub as_secs : Duration → ℕ
as_secs d = d / 1_000_000_000

unfoldable pub show_age : ℕ → Str
unfolding decimal
show_age secs =
    if ltb secs 60
    then decimal secs ++ str "s"
    else decimal (secs / 60) ++ (str "m" ++ (decimal (secs % 60) ++ str "s"))

unfoldable pub alive_count : List NodeInfo → ℕ
unfolding filter
alive_count nodes = length (filter (λ n. state_eq n.state alive) nodes)

-- `iter().find(|n| n.node_id == id)`
unfoldable pub find_node : ℕ → List NodeInfo → Option NodeInfo
find_node id [] = none
find_node id (n ∷ nodes) = if n.node_id == id then some n else find_node id nodes

abbrev pub label_of : Option NodeInfo → Str
label_of none = str "—"
label_of (some n) = n.hostname ++ (str " (" ++ (decimal n.node_id ++ str ")"))

unfoldable pub master_label : Option ℕ → List NodeInfo → Str
unfolding find_node decimal
master_label master_id nodes = label_of (do id ← master_id; find_node id nodes)

abbrev pub connection_sign : Option Str → Styled
connection_sign (some e) = record { text = str "✗"; style = colored Color.red }
connection_sign none = record { text = str "✔"; style = colored Color.green }

-- `draw_header`: the spans of its line.
unfoldable pub draw_header : Instant → App → List Styled
unfolding show_age alive_count master_label decimal
draw_header now app =
    let age_str = show_age (as_secs (elapsed now app.cluster.queried_at)) ++ str " ago" in
    let alive = decimal (alive_count app.cluster.nodes) in
    let total = decimal (length app.cluster.nodes) in
    connection_sign app.cluster.error
    ∷ record {
      text = str "  socket: " ++ (app.socket_path ++ str "   ");
      style = colored Color.dark_gray;
    }
    ∷ record { text = str "master: "; style = colored Color.cyan }
    ∷ record {
      text = master_label app.cluster.master_id app.cluster.nodes;
      style = modified Color.yellow Modifier.bold;
    }
    ∷ record {
      text = str "   nodes: " ++ (alive ++ (str "/" ++ (total ++ str " alive")));
      style = colored Color.white;
    }
    ∷ record { text = str "   updated " ++ age_str; style = colored Color.dark_gray }
    ∷ []

abbrev pub state_style : NodeState → Style
state_style alive = colored Color.green
state_style suspect = colored Color.yellow
state_style dead = modified Color.red Modifier.dim

-- `{:?}` of a state
abbrev pub debug_state : NodeState → Str
debug_state alive = str "Alive"
debug_state suspect = str "Suspect"
debug_state dead = str "Dead"

abbrev pub master_cell : Bool → Styled
master_cell true = record { text = str "★"; style = modified Color.yellow Modifier.bold }
master_cell false = record { text = []; style = plain }

abbrev pub last_seen : Option Duration → Str
last_seen (some d) = show_age (as_secs d)
last_seen none = str "?"

abbrev pub cell : Str → Styled
cell text = record { text = text; style = plain }

-- One row of `draw_table`; `now` is the system's time at `elapsed()`.
unfoldable pub node_row : SystemTime → NodeInfo → List Styled
unfolding decimal show_addr show_age
node_row now n =
    cell (decimal n.node_id)
    ∷ cell n.hostname
    ∷ cell (show_addr n.control_addr)
    ∷ record { text = debug_state n.state; style = state_style n.state }
    ∷ master_cell n.is_master
    ∷ cell (last_seen (duration_since now n.last_seen))
    ∷ []

abbrev pub column : String → Styled
column title = record { text = str title; style = modified Color.cyan Modifier.bold }

-- The titles of `draw_table`.
abbrev pub header_row : List Styled
header_row =
    column "NODE ID"
    ∷ column "HOSTNAME"
    ∷ column "ADDRESS"
    ∷ column "STATE"
    ∷ column "★"
    ∷ column "LAST SEEN"
    ∷ []

unfoldable pub draw_table : SystemTime → App → List (List Styled)
unfolding node_row
draw_table now app = map (node_row now) app.cluster.nodes
