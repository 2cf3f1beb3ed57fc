-- ===== src/Hivectl.antt =====
-- hivectl, the cluster inspector of crates/hivectl/src/main.rs: its state and what a refresh and
-- the arrow keys do to it. The children are the requests over the socket, the drawing and the loop.
pub mod Anyhow
pub mod Query
pub mod View
pub mod Screen
pub mod Loop
pub mod Entry
use hivebus.Prelude.{
  ℕ, ◌+◌, ◌-◌, Bool, Option, none, some, List, [], ltb, leb, not, ◌&&◌, if◌then◌else◌, length,
}
use hivebus.Std.Text.{Str, str}
use hivebus.Std.Time.{Duration, from_secs, from_millis}
use hivebus.Proto.Node.{NodeInfo}
use hivebus.Hivectl.Anyhow.{Call, returned, raised, aborted}

abbrev pub default_socket : Str
default_socket = str "/var/run/hivebus/hivebus.sock"

abbrev pub refresh_interval : Duration
refresh_interval = from_secs 1

-- `Instant`: nanoseconds since the first one that the monotonic clock can show.
abbrev pub Instant : Type 0
Instant = ℕ

-- `later.duration_since(earlier)`, which is zero where `earlier` is the later one.
abbrev pub elapsed : Instant → Instant → Duration
elapsed later earlier = later - earlier

pub record ClusterState : Type 0 where
  pub nodes : List NodeInfo
  pub master_id : Option ℕ
  pub queried_at : Instant
  pub error : Option Str

-- Of the table's state only the selected row is kept: the rest is the library's.
pub record App : Type 0 where
  pub cluster : ClusterState
  pub selected : Option ℕ
  pub socket_path : Str

-- The subtraction of a duration panics where the clock cannot show the instant.
unfoldable pub new : Instant → Str → Call App
new now socket_path =
    if ltb now (refresh_interval + from_millis 1)
    then aborted
    else returned (record {
      cluster = record {
        nodes = [];
        master_id = none;
        queried_at = now - refresh_interval - from_millis 1;
        error = some (str "connecting…");
      };
      selected = none;
      socket_path = socket_path;
    })

abbrev pub is_empty : List NodeInfo → Bool
is_empty nodes = leb (length nodes) 0

-- The selected row, kept in the bounds of the new rows.
unfoldable pub reselect : List NodeInfo → Option ℕ → Option ℕ
reselect nodes (some sel) =
    if not (is_empty nodes) && leb (length nodes) sel then some (length nodes - 1) else some sel
reselect nodes none = if not (is_empty nodes) then some 0 else none

-- `query` is what `query_hivebus` comes to, `now` the instant after it.
unfoldable pub refresh : Call (List NodeInfo × Option ℕ) → Instant → App → Call App
unfolding reselect
refresh (returned (nodes, master_id)) now app = returned (record app {
  selected = reselect nodes app.selected;
  cluster = record { nodes = nodes; master_id = master_id; queried_at = now; error = none };
})
refresh (raised e) now app =
    returned (record app { cluster = record app.cluster { error = some e; queried_at = now } })
refresh aborted now app = aborted

abbrev pub unwrap_or : Option ℕ → ℕ → ℕ
unwrap_or none d = d
unwrap_or (some n) d = n

unfoldable pub scroll_up : App → App
scroll_up app =
    let sel = unwrap_or app.selected 0 in
    if ltb 0 sel then record app { selected = some (sel - 1) } else app

unfoldable pub scroll_down : App → App
scroll_down app =
    let len = length app.cluster.nodes in
    let sel = unwrap_or app.selected 0 in
    if leb len 0
    then app
    else if ltb (sel + 1) len
    then record app { selected = some (sel + 1) }
    else app
