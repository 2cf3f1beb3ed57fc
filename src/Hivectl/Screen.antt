-- ===== src/Hivectl/Screen.antt =====
-- `ui` and `centered_rect` of crates/hivectl/src/main.rs: where the parts of the screen go. The
-- layout of the ratatui crate is a parameter, and so is what drawing a table does to the selection.
pub mod Laws
pub mod Reader
use hivebus.Prelude.{
  ℕ, ◌+◌, ◌-◌, ◌/◌, ◌%◌, ◌^◌, ◌<◌, ◌≡◌, Option, none, some, List, [], ◌∷◌, ◌++◌, ◌>>=◌, get_elem?,
}
use hivebus.Prelude
use hivebus.Std.Text.{Str, str}
use hivebus.Std.Time.{SystemTime}
use hivebus.Hivectl.{App, Instant}
use hivebus.Hivectl.View.{Styled, draw_header, header_row, draw_table}

pub data Direction : Type 0 where
  vertical horizontal : Direction

pub data Constraint : Type 0 where
  length : ℕ → Constraint
  min : ℕ → Constraint
  percentage : ℕ → Constraint

pub record Rect : Type 0 where
  pub x : ℕ
  pub y : ℕ
  pub width : ℕ
  pub height : ℕ

pub record Ratatui : Type 0 where
  -- `Layout::default().direction(d).constraints(cs).split(area)`
  pub split : Direction → List Constraint → Rect → List Rect
  -- The selected row after a table of so many rows was drawn.
  pub render : ℕ → Option ℕ → Option ℕ

-- What the crate documents of them: a layout has one area for each constraint, and drawing keeps
-- the selection of a row that is there.
pub record Behaves (ratatui : Ratatui) : Type 0 where
  pub splits :
      (d : Direction) (cs : List Constraint) (area : Rect)
      → Prelude.length (ratatui.split d cs area) ≡ Prelude.length cs
  pub keeps : (rows sel : ℕ) → sel < rows → ratatui.render rows (some sel) ≡ some sel

-- A widget with what it is given: a table gets its titles, its widths, its rows and the selected row.
-- Borders and their titles belong to the widget.
pub data Widget : Type 0 where
  header : List Styled → Widget
  table : List Styled → List Constraint → List (List Styled) → Option ℕ → Widget
  footer : Str → Widget
  popup : Str → Widget

pub record Placed : Type 0 where
  pub widget : Widget
  pub area : Rect

-- The widths of `draw_table`.
abbrev pub widths : List Constraint
widths = length 9 ∷ length 16 ∷ length 22 ∷ length 10 ∷ length 3 ∷ min 9 ∷ []

-- The text of `draw_footer`.
abbrev pub key_hints : Str
key_hints = str " [q] quit   [r] refresh   [↑ ↓] select   [ctrl-c] quit"

-- The margins on both sides, in the arithmetic of `u16`.
abbrev pub margin : ℕ → ℕ
margin pct = (100 + 2 ^ 16 - pct) % 2 ^ 16 / 2

abbrev pub centered : ℕ → List Constraint
centered pct = percentage (margin pct) ∷ percentage pct ∷ percentage (margin pct) ∷ []

module _ (ratatui : Ratatui) where
  -- `none` is the panic of an index out of range.
  unfoldable pub centered_rect : ℕ → ℕ → Rect → Option Rect
  centered_rect pct_w pct_h r = do
    middle ← get_elem? (ratatui.split vertical (centered pct_h) r) 1
    get_elem? (ratatui.split horizontal (centered pct_w) middle) 1

  unfoldable pub draw_error : Rect → Option Str → Option (List Placed)
  unfolding centered_rect
  draw_error area none = some []
  draw_error area (some msg) = do
    r ← centered_rect 70 30 area
    some (record { widget = popup (10 ∷ 32 ∷ msg); area = r } ∷ [])

  -- What is drawn, in this order, and the state after it.
  unfoldable pub ui : Instant → SystemTime → Rect → App → Option (List Placed × App)
  unfolding draw_header draw_table draw_error
  ui now wall area app = do
    let chunks = ratatui.split vertical (length 3 ∷ min 5 ∷ length 1 ∷ []) area
    top ← get_elem? chunks 0
    middle ← get_elem? chunks 1
    bottom ← get_elem? chunks 2
    let rows = draw_table wall app
    let app' = record app { selected = ratatui.render (Prelude.length rows) app.selected }
    overlay ← draw_error middle app.cluster.error
    some (
      record { widget = header (draw_header now app); area = top }
          ∷ record { widget = table header_row widths rows app.selected; area = middle }
          ∷ record { widget = footer key_hints; area = bottom }
          ∷ overlay,
      app',
    )
