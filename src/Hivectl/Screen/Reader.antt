-- ===== src/Hivectl/Screen/Reader.antt =====
-- A reader of the screen of crates/hivectl/src/main.rs: what its texts tell of the cluster.
use hivebus.Prelude.{
  ℕ, zero, suc, ◌+◌, ◌/◌, ◌%◌, ◌<◌, ◌≡◌, ◌≢◌, refl, ap, inl, inr, Bool, true, false, Option, none,
  some, List, [], ◌∷◌, ◌++◌, map, arith, ltb, ◌==◌, nat_eq, if◌then◌else◌, length, get_or, beq_ne,
  append_assoc, append-nil, Bool-cases,
}
use hivebus.Std.Net.Display.{show_addr}
use hivebus.Std.Text.{Str, str, decimal, decimal_rounds}
use hivebus.Std.Time.{SystemTime, Duration, duration_since}
use hivebus.Proto.Node.{NodeInfo, NodeState, alive, suspect, dead}
use hivebus.Hivectl.{App, Instant, elapsed}
use hivebus.Hivectl.View.{
  Styled, connection_sign, debug_state, master_cell, last_seen, as_secs, show_age, alive_count,
  master_label, draw_header, node_row, header_row, draw_table,
}
use hivebus.Hivectl.View.Age.{read_age, read_age-show_age, read_age-decimal}
use hivebus.Hivectl.Screen.{
  Rect, Ratatui, Behaves, header, table, footer, popup, Placed, widths, key_hints, ui,
}
use hivebus.Hivectl.Screen.Laws.{ui_lem}

-- A node as a row of the table tells it. The age is in seconds, if it is known.
pub record Seen : Type 0 where
  pub node_id : ℕ
  pub hostname : Str
  pub address : Str
  pub state : NodeState
  pub starred : Bool
  pub age : Option ℕ

-- A state by the first letter of its name.
abbrev read_state : ℕ → NodeState
read_state c = if c == b'A' then alive else if c == b'S' then suspect else dead

-- A question mark stands for an age that is not known.
abbrev read_last_seen : Str → Option ℕ
read_last_seen text = if get_or text 0 0 == b'?' then none else some (read_age text)

abbrev pub read_row : List Styled → Option Seen
read_row (a ∷ b ∷ c ∷ d ∷ e ∷ f ∷ []) = some (record {
  node_id = read_age (a.text ++ str "s");
  hostname = b.text;
  address = c.text;
  state = read_state (get_or d.text 0 0);
  starred = ltb 0 (length e.text);
  age = read_last_seen f.text;
})
read_row _ = none

-- The whole seconds of a time, if it is known.
abbrev pub secs_of : Option Duration → Option ℕ
secs_of none = none
secs_of (some d) = some (as_secs d)

-- What a row is to tell of a node.
abbrev pub told : SystemTime → NodeInfo → Seen
told wall n = record {
  node_id = n.node_id;
  hostname = n.hostname;
  address = show_addr n.control_addr;
  state = n.state;
  starred = n.is_master;
  age = secs_of (duration_since wall n.last_seen);
}

-- A number begins with a digit.
decimal_rounds-digit :
    (fuel n : ℕ) (rest : Str) → n < fuel → get_or (decimal_rounds fuel n ++ rest) 0 0 < 58
unfolding decimal_rounds
decimal_rounds-digit zero n rest enough = absurd (omega arith)
decimal_rounds-digit (suc fuel) n rest enough = elim (Bool-cases (ltb n 10)) [
  | inl p ↦ rw p (ground arith)
  | inr p ↦
      let large : 9 < n = ground arith in
      rw (p, append_assoc)
        (decimal_rounds-digit fuel (n / 10) ((b'0' + n % 10) ∷ rest) (omega arith))
]

show_age-digit : (secs : ℕ) → get_or (show_age secs) 0 0 < 58
unfolding show_age decimal
show_age-digit secs = elim (Bool-cases (ltb secs 60)) [
  | inl p ↦ rw p (decimal_rounds-digit (suc secs) secs (str "s") (omega arith))
  | inr p ↦ rw p (
      decimal_rounds-digit (suc (secs / 60)) (secs / 60)
        (str "m" ++ (decimal (secs % 60) ++ str "s")) (omega arith))
]

state_read : (s : NodeState) → read_state (get_or (debug_state s) 0 0) ≡ s
state_read alive = refl
state_read suspect = refl
state_read dead = refl

star_read : (b : Bool) → ltb 0 (length (master_cell b).text) ≡ b
star_read true = refl
star_read false = refl

last_seen_read : (d : Option Duration) → read_last_seen (last_seen d) ≡ secs_of d
last_seen_read none = refl
last_seen_read (some d) =
    let digit : get_or (show_age (as_secs d)) 0 0 ≢ b'?' =
      omega (arith, show_age-digit (as_secs d)) in
    rw (beq_ne (get_or (show_age (as_secs d)) 0 0) b'?' digit)
      (ap some (read_age-show_age (as_secs d)))

read_row-node_row :
    (wall : SystemTime) (n : NodeInfo) → read_row (node_row wall n) ≡ some (told wall n)
unfolding node_row
read_row-node_row wall n =
    rw
      (
        read_age-decimal n.node_id,
        state_read n.state,
        star_read n.is_master,
        last_seen_read (duration_since wall n.last_seen),
      )
      refl

-- A line without its styles.
abbrev pub line : List Styled → Str
line [] = []
line (s ∷ ss) = s.text ++ line ss

-- Whether the last query failed.
abbrev sign : Option Str → Str
sign none = str "✔"
sign (some e) = str "✗"

sign-connection_sign : (error : Option Str) → (connection_sign error).text ≡ sign error
sign-connection_sign none = refl
sign-connection_sign (some e) = refl

-- The line at the top.
abbrev pub headline : Option Str → Str → Str → ℕ → ℕ → ℕ → Str
headline error path master up all secs =
    sign error
    ++ (str "  socket: "
        ++ (path
            ++ (str "   master: "
                ++ (master
                    ++ (str "   nodes: "
                        ++ (decimal up
                            ++ (str "/"
                                ++ (decimal all
                                    ++ (str " alive   updated "
                                        ++ (show_age secs ++ str " ago"))))))))))

joined :
    (sign path master up all age : Str)
    → sign
        ++ ((str "  socket: " ++ (path ++ str "   "))
            ++ (str "master: "
                ++ (master
                    ++ ((str "   nodes: " ++ (up ++ (str "/" ++ (all ++ str " alive"))))
                        ++ ((str "   updated " ++ (age ++ str " ago")) ++ [])))))
      ≡ sign
        ++ (str "  socket: "
            ++ (path
                ++ (str "   master: "
                    ++ (master
                        ++ (str "   nodes: "
                            ++ (up
                                ++ (str "/"
                                    ++ (all
                                        ++ (str " alive   updated " ++ (age ++ str " ago"))))))))))
joined sign path master up all age = simp (append_assoc, append-nil)

line-draw_header :
    (now : Instant) (app : App)
    → line (draw_header now app)
      ≡ headline app.cluster.error app.socket_path
          (master_label app.cluster.master_id app.cluster.nodes)
          (alive_count app.cluster.nodes)
          (length app.cluster.nodes)
          (as_secs (elapsed now app.cluster.queried_at))
unfolding draw_header
line-draw_header now app = rw (sign-connection_sign app.cluster.error) (
    joined (sign app.cluster.error) app.socket_path
      (master_label app.cluster.master_id app.cluster.nodes)
      (decimal (alive_count app.cluster.nodes)) (decimal (length app.cluster.nodes))
      (show_age (as_secs (elapsed now app.cluster.queried_at))))

-- What stands on a screen, as a reader takes it: a line at the top, a table with a row for each
-- node, the key hints and, exactly if there is an error, a popup with it over them.
pub record Displays (screen : List Placed) (top : Str) (nodes : List Seen) (selected : Option ℕ)
    (error : Option Str) : Type 0 where
  pub spans : List Styled
  pub rows : List (List Styled)
  pub widgets :
      map (λ p. p.widget) screen
      ≡ header spans
        ∷ table header_row widths rows selected
        ∷ footer key_hints
        ∷ (elim error [ none ↦ [] | some e ↦ popup (str "\n " ++ e) ∷ [] ])
  pub at_top : line spans ≡ top
  pub in_rows : map read_row rows ≡ map some nodes

rows_read :
    (wall : SystemTime) (nodes : List NodeInfo)
    → map read_row (map (node_row wall) nodes) ≡ map some (map (told wall) nodes)
rows_read wall [] = refl
rows_read wall (n ∷ nodes) =
    rw (read_row-node_row wall n) (ap (◌∷◌ (some (told wall n))) (rows_read wall nodes))

pub ui_shows :
    {ratatui : Ratatui} (behaves : Behaves ratatui) (now : Instant) (wall : SystemTime)
    (area : Rect) (app : App)
    → (screen : List Placed) × (ui ratatui now wall area app
        ≡ some (
          screen,
          record app { selected = ratatui.render (length app.cluster.nodes) app.selected },
        ))
      × Displays screen
          (headline app.cluster.error app.socket_path
            (master_label app.cluster.master_id app.cluster.nodes)
            (alive_count app.cluster.nodes)
            (length app.cluster.nodes)
            (as_secs (elapsed now app.cluster.queried_at)))
          (map (told wall) app.cluster.nodes)
          app.selected
          app.cluster.error
unfolding draw_table
ui_shows behaves now wall area app =
    let (screen, drawn, widgets) = ui_lem behaves now wall area app in
    (
      screen,
      drawn,
      record {
        spans = draw_header now app;
        rows = draw_table wall app;
        widgets = widgets;
        at_top = line-draw_header now app;
        in_rows = rows_read wall app.cluster.nodes;
      },
    )
