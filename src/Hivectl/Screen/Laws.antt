-- ===== src/Hivectl/Screen/Laws.antt =====
-- The screen of crates/hivectl/src/main.rs is drawn without a panic.
use hivebus.Prelude.{
  ℕ, ◌≡◌, ◌<◌, refl, none, some, Option, List, [], ◌∷◌, ◌++◌, map, arith, get_elem?, length-map,
  get_elem?_of_lt,
}
use hivebus.Prelude
use hivebus.Std.Text.{Str, str}
use hivebus.Std.Time.{SystemTime}
use hivebus.Hivectl.{App, Instant}
use hivebus.Hivectl.View.{draw_header, header_row, draw_table}
use hivebus.Hivectl.Screen.{
  Direction, vertical, horizontal, Constraint, length, min, Rect, Ratatui, Behaves, header, table,
  footer, popup, Placed, widths, key_hints, centered, centered_rect, draw_error, ui,
}

module _ {ratatui : Ratatui} (behaves : Behaves ratatui) where
  -- A layout has an area for each of its constraints.
  chunk :
      (d : Direction) (cs : List Constraint) (area : Rect) (i : ℕ)
      → i < Prelude.length cs
      → (r : Rect) × (get_elem? (ratatui.split d cs area) i ≡ some r)
  chunk d cs area i lt =
      get_elem?_of_lt (ratatui.split d cs area) i (rw (behaves.splits d cs area) lt)

  centered_rect_total :
      (w h : ℕ) (area : Rect) → (r : Rect) × (centered_rect ratatui w h area ≡ some r)
  unfolding centered_rect
  centered_rect_total w h area =
      let (middle, at) = chunk vertical (centered h) area 1 (omega arith) in
      let (r, at') = chunk horizontal (centered w) middle 1 (omega arith) in
      (r, rw (centered_rect, at, at'))

  draw_error_lem :
      (area : Rect) (error : Option Str)
      → (l : List Placed) × (draw_error ratatui area error ≡ some l)
        × (map (λ p. p.widget) l
            ≡ (elim error [ none ↦ [] | some e ↦ popup (str "\n " ++ e) ∷ [] ]))
  unfolding draw_error
  draw_error_lem area none = ([], refl, refl)
  draw_error_lem area (some e) =
      let (r, at) = centered_rect_total 70 30 area in
      (record { widget = popup (str "\n " ++ e); area = r } ∷ [], rw (draw_error, at), refl)

  -- Drawing never panics. It draws the header, the table with a row for each node, the key hints,
  -- and, exactly if there is an error, a popup with it over them. Of the state only the selection
  -- can change, to what drawing that many rows makes of it. The layout gives an area for each
  -- constraint.
  pub ui_lem :
      (now : Instant) (wall : SystemTime) (area : Rect) (app : App)
      → (screen : List Placed) × (ui ratatui now wall area app
          ≡ some (
            screen,
            record app {
              selected = ratatui.render (Prelude.length app.cluster.nodes) app.selected;
            },
          ))
        × (map (λ p. p.widget) screen
            ≡ header (draw_header now app)
              ∷ table header_row widths (draw_table wall app) app.selected
              ∷ footer key_hints
              ∷ (elim app.cluster.error [ none ↦ [] | some e ↦ popup (str "\n " ++ e) ∷ [] ]))
  unfolding ui draw_table
  ui_lem now wall area app =
      let cs = length 3 ∷ min 5 ∷ length 1 ∷ [] in
      let (top, at) = chunk vertical cs area 0 (omega arith) in
      let (middle, at') = chunk vertical cs area 1 (omega arith) in
      let (bottom, at'') = chunk vertical cs area 2 (omega arith) in
      let (overlay, drawn, shown) = draw_error_lem middle app.cluster.error in
      (
        record { widget = header (draw_header now app); area = top }
            ∷ record {
              widget = table header_row widths (draw_table wall app) app.selected;
              area = middle;
            }
            ∷ record { widget = footer key_hints; area = bottom }
            ∷ overlay,
        rw (ui, at, at', at'', drawn, draw_table, length-map),
        rw shown,
      )
