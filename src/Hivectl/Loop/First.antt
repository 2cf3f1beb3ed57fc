-- ===== src/Hivectl/Loop/First.antt =====
-- The first pass of the loop of crates/hivectl/src/main.rs, in front of a running hivebus.
use mathlib.Core.Path.{subst}
use hivebus.Prelude.{
  ℕ, ◌≤◌, ◌≡◌, refl, ◌∙◌, ap, none, some, Option, true, false, List, ◌++◌, map, length, arith, leb,
}
use hivebus.Result.{ok}
use hivebus.Bincode.{ReadsBack}
use hivebus.Std.Text.{Str, str, decimal}
use hivebus.Std.Time.{SystemTime}
use hivebus.Proto.Node.{NodeInfo, alive}
use hivebus.Proto.Message.{get_nodes, get_master, ControlReply, nodes, master}
use hivebus.Socket.{ControlCodecs}
use hivebus.Hivebus.Members.{Members, master_from, IsValid}
use hivebus.Hivebus.Control.{Local, list_nodes, find_master}
use hivebus.Hivectl.{App, ClusterState, Instant, refresh_interval, elapsed, new, reselect, refresh}
use hivebus.Hivectl.Anyhow.{returned}
use hivebus.Hivectl.Query.{Link, query_hivebus}
use hivebus.Hivectl.Query.Laws.{Serves, Fits, query_hivebus-serve_hivebus}
use hivebus.Hivectl.View.{as_secs, alive_count, master_label}
use hivebus.Hivectl.View.Laws.{master_label-list_nodes}
use hivebus.Hivectl.Screen.{Rect, Ratatui, Behaves, Placed, ui}
use hivebus.Hivectl.Screen.Reader.{Displays, headline, told, ui_shows}
use hivebus.Hivectl.Loop.{Pass, next, ◌>>=◌, handle, tick, run_pass}
use hivebus.Hivectl.Loop.Passes.{drawn, run_pass_lem}
use hivebus.Hivectl.Loop.Ends.{on_drawn-none}

-- The new state is older than the interval.
new_is_old :
    {app : App} (now later : Instant) (socket_path : Str)
    → new now socket_path ≡ returned app
    → now ≤ later
    → leb refresh_interval (elapsed later app.cluster.queried_at) ≡ true
unfolding new
new_is_old now later socket_path started after = ground arith

handle_no_event : (pass : Pass) (app : App) → pass.poll ≡ ok false → handle pass app ≡ next app
unfolding handle
handle_no_event pass app quiet = rw (quiet, handle) refl

tick_refreshes :
    {members : List NodeInfo} {master_id : Option ℕ} (pass : Pass) (app : App)
    → leb refresh_interval (elapsed pass.checked_at app.cluster.queried_at) ≡ true
    → pass.by_age.result ≡ returned (members, master_id)
    → (app' : App) × (tick pass app ≡ next app')
      × (app'.cluster ≡ record {
        nodes = members;
        master_id = master_id;
        queried_at = pass.by_age.at;
        error = none;
      })
unfolding tick refresh
tick_refreshes {members} {master_id} pass app old answered = (
  record app {
    selected = reselect members app.selected;
    cluster = record {
      nodes = members;
      master_id = master_id;
      queried_at = pass.by_age.at;
      error = none;
    };
  },
  rw (old, answered) refl,
  refl,
)

-- The first pass queries, whether or not an interval has passed since the start.
pub first_pass :
    {ratatui : Ratatui} {app : App} {members : List NodeInfo} {master_id : Option ℕ} (now : Instant)
    (socket_path : Str) (pass : Pass)
    → Behaves ratatui
    → new now socket_path ≡ returned app
    → now ≤ pass.checked_at
    → pass.draw_error ≡ none
    → pass.poll ≡ ok false
    → pass.by_age.result ≡ returned (members, master_id)
    → (app' : App) × (run_pass ratatui pass app ≡ next app')
      × (app'.cluster ≡ record {
        nodes = members;
        master_id = master_id;
        queried_at = pass.by_age.at;
        error = none;
      })
first_pass {ratatui} {app} now socket_path pass behaves started after draws quiet answered =
    let (app', ticked, shown) =
      tick_refreshes pass (drawn ratatui app)
        (new_is_old now pass.checked_at socket_path started after) answered in
    (
      app',
      run_pass_lem behaves pass app
          ∙ on_drawn-none pass pass.draw_error (drawn ratatui app) draws
          ∙ (rw (handle_no_event pass (drawn ratatui app) quiet, ◌>>=◌) ticked),
      shown,
    )

-- When hivectl is started in front of a hivebus with a well-formed table, its first pass, which
-- itself draws before it has queried anything, leaves the cluster in the state if no key is pressed:
-- the members and the node itself and no error. The drawing of that state, as the second pass does
-- it, shows the cluster: a row for each of these nodes, from which its values are read back, and a
-- line at the top that names the elected node, which is Alive, by its host name and its identifier.
-- The conditions: the terminal gives no error, the clock does not go back, both connections lead to
-- the hivebus and find the same table, the codecs read back what they wrote and give each message an
-- encoding of at most `MAX_CONTROL_PAYLOAD` bytes, and the layout behaves as the ratatui crate
-- documents it.
pub first_pass-shows :
    {ratatui : Ratatui} {app : App} (codecs : ControlCodecs) (self : Local) (m : Members)
    (debug : ControlReply → Str) (s1 s2 : Link) (t1 t2 : SystemTime) (now : Instant)
    (socket_path : Str) (pass : Pass) (drawn_at : Instant) (wall : SystemTime) (area : Rect)
    → ReadsBack codecs.op
    → ReadsBack codecs.reply
    → Behaves ratatui
    → IsValid self.self_id m
    → Serves codecs self t1 m s1
    → Serves codecs self t2 m s2
    → Fits codecs.op get_nodes
    → Fits codecs.op get_master
    → Fits codecs.reply (nodes (list_nodes self t1 m))
    → Fits codecs.reply (master (find_master self t2 m))
    → new now socket_path ≡ returned app
    → now ≤ pass.checked_at
    → pass.draw_error ≡ none
    → pass.poll ≡ ok false
    → pass.by_age.result ≡ query_hivebus codecs debug s1 s2 socket_path
    → (app' : App) × (n : NodeInfo) × (screen : List Placed) × (app'' : App) × (run_pass ratatui
          pass app
        ≡ next app')
      × (app'.cluster.nodes ≡ list_nodes self t1 m)
      × (app'.cluster.error ≡ none)
      × (master_from m self.self_id ≡ some n.node_id)
      × (n.state ≡ alive)
      × (ui ratatui drawn_at wall area app' ≡ some (screen, app''))
      × Displays screen
          (headline none app'.socket_path
            (n.hostname ++ (str " (" ++ (decimal n.node_id ++ str ")")))
            (alive_count (list_nodes self t1 m))
            (length (list_nodes self t1 m))
            (as_secs (elapsed drawn_at app'.cluster.queried_at)))
          (map (told wall) (list_nodes self t1 m))
          app'.selected
          none
first_pass-shows codecs self m debug s1 s2 t1 t2 now socket_path pass drawn_at wall area reads_op
      reads_reply behaves v served served' op1 op2 fits fits' started after draws quiet queried =
    let answered =
      query_hivebus-serve_hivebus codecs reads_op reads_reply self socket_path debug t1 t2 m m s1 s2
        served served' v op1 op2 fits fits' in
    let (app', goes_on, cluster) =
      first_pass now socket_path pass behaves started after draws quiet (queried ∙ answered) in
    let (n, elected, _, up, label) = master_label-list_nodes self t1 m v in
    let (screen, drawing, displays) = ui_shows behaves drawn_at wall area app' in
    let secs = as_secs (elapsed drawn_at app'.cluster.queried_at) in
    (
      app',
      n,
      screen,
      _,
      goes_on,
      ap (λ (c : ClusterState). c.nodes) cluster,
      ap (λ (c : ClusterState). c.error) cluster,
      elected,
      up,
      drawing,
      subst
          (λ (name : Str).
            Displays screen
              (headline none app'.socket_path name (alive_count (list_nodes self t1 m))
                (length (list_nodes self t1 m)) secs)
              (map (told wall) (list_nodes self t1 m)) app'.selected none)
          label
          (subst
            (λ (c : ClusterState).
              Displays screen
                (headline c.error app'.socket_path (master_label c.master_id c.nodes)
                  (alive_count c.nodes) (length c.nodes) secs)
                (map (told wall) c.nodes) app'.selected c.error)
            cluster displays),
    )
