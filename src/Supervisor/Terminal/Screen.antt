-- ===== src/Supervisor/Terminal/Screen.antt =====
-- internal/supervisor/vterm.go: a screen with its cursor, and what moves and prints on it. The size
-- of the terminal and the width of a rune are arguments.
pub mod Bounds
pub mod Printing
use codex_runner.Prelude.{
  ℕ, zero, suc, ◌+◌, ◌-◌, ◌*◌, ◌/◌, min, Bool, true, false, not, ◌&&◌, ◌||◌, List, [], ◌∷◌, ◌++◌,
  Option, none, some, length, ltb, leb, ◌==◌, if◌then◌else◌,
}
use codex_runner.Supervisor.Terminal.Grid.{
  TerminalCell, Grid, cell_of, new_grid, touch, write_cell, erase_wide_at, erase_range, clear_rows,
  scroll_up_at, scroll_down_at, shift_chars,
}

pub record TerminalScreen : Type 0 where
  pub grid : Grid
  pub row : ℕ
  pub col : ℕ
  pub saved_row : ℕ
  pub saved_col : ℕ
  pub scroll_top : ℕ
  pub scroll_bottom : ℕ
  pub saved_faint : Bool
  pub join_next : Bool
  pub pending_wrap : Bool
  pub faint : Bool

unfoldable pub new_screen : ℕ → ℕ → TerminalScreen
new_screen cols rows = record {
  grid = new_grid cols rows;
  row = 0;
  col = 0;
  saved_row = 0;
  saved_col = 0;
  scroll_top = 0;
  scroll_bottom = rows - 1;
  saved_faint = false;
  join_next = false;
  pending_wrap = false;
  faint = false;
}

abbrev pub on_grid : (Grid → Grid) → TerminalScreen → TerminalScreen
on_grid f s = record s { grid = f s.grid }

unfoldable pub scroll_up : ℕ → ℕ → TerminalScreen → TerminalScreen
scroll_up cols n s = on_grid (scroll_up_at cols s.scroll_top s.scroll_bottom s.scroll_top n) s

unfoldable pub scroll_down : ℕ → ℕ → TerminalScreen → TerminalScreen
scroll_down cols n s = on_grid (scroll_down_at cols s.scroll_top s.scroll_bottom s.scroll_top n) s

unfoldable pub line_feed : ℕ → ℕ → TerminalScreen → TerminalScreen
unfolding scroll_up
line_feed cols rows s =
    if s.row == s.scroll_bottom
    then scroll_up cols 1 s
    else if ltb s.row (rows - 1)
    then record s { row = s.row + 1 }
    else s

unfoldable pub reverse_index : ℕ → TerminalScreen → TerminalScreen
unfolding scroll_down
reverse_index cols s =
    if s.row == s.scroll_top
    then scroll_down cols 1 s
    else if ltb 0 s.row
    then record s { row = s.row - 1 }
    else s

-- A column that may be -1, which is `none`.
abbrev pub before : ℕ → Option ℕ
before zero = none
before (suc c) = some c

-- `previousCell` without the read that it makes.
abbrev pub behind : TerminalScreen → Option ℕ
behind s = if s.pending_wrap then some s.col else before s.col

abbrev pub step_back : TerminalScreen → Option ℕ → Option ℕ
step_back s none = none
step_back s (some c) = if (cell_of s.row c s.grid).continuation then before c else some c

abbrev pub previous_cell : TerminalScreen → Option ℕ
previous_cell s = step_back s (behind s)

abbrev pub touch_at : ℕ → Option ℕ → Grid → Grid
touch_at r none g = g
touch_at r (some c) g = touch r c g

abbrev pub append_at : ℕ → ℕ → Option ℕ → Grid → Grid
append_at ch r none g = g
append_at ch r (some c) g =
    write_cell r c (record (cell_of r c g) { text = (cell_of r c g).text ++ ch ∷ [] }) g

-- A rune without a width of its own joins the cell in front of the cursor.
unfoldable pub join : ℕ → TerminalScreen → TerminalScreen
join ch s = record s {
  grid = append_at ch s.row (previous_cell s) (touch_at s.row (behind s) s.grid);
  join_next = ch == 0x200d;
}

abbrev pub wrap_pending : ℕ → ℕ → TerminalScreen → TerminalScreen
wrap_pending cols rows s =
    if s.pending_wrap then line_feed cols rows (record s { col = 0; pending_wrap = false }) else s

-- A wide rune does not start in the last column.
abbrev pub wrap_wide : ℕ → ℕ → ℕ → TerminalScreen → TerminalScreen
wrap_wide cols rows w s =
    if w == 2 && s.col == cols - 1 then line_feed cols rows (record s { col = 0 }) else s

-- The cells of a rune of width w.
unfoldable pub place : ℕ → ℕ → ℕ → TerminalScreen → TerminalScreen
place cols w ch s =
    let first = erase_wide_at cols s.row s.col s.grid in
    let both = if w == 2 then erase_wide_at cols s.row (s.col + 1) first else first in
    let written =
      write_cell s.row s.col (record { text = ch ∷ []; continuation = false; faint = s.faint })
        both in
    record s {
      grid =
          if w == 2
          then write_cell s.row (s.col + 1)
              (record { text = []; continuation = true; faint = s.faint }) written
          else written;
    }

abbrev pub advance_cursor : ℕ → ℕ → TerminalScreen → TerminalScreen
advance_cursor cols w s =
    if leb cols (s.col + w)
    then record s { col = cols - 1; pending_wrap = true }
    else record s { col = s.col + w }

-- `put` for a rune of width w, after the one that joins.
unfoldable pub put_wide : ℕ → ℕ → ℕ → ℕ → TerminalScreen → TerminalScreen
unfolding line_feed place
put_wide cols rows w ch s =
    advance_cursor cols w (place cols w ch (wrap_wide cols rows w (wrap_pending cols rows s)))

unfoldable pub put_rune : (ℕ → ℕ) → ℕ → ℕ → ℕ → TerminalScreen → TerminalScreen
unfolding join put_wide
put_rune width cols rows ch s =
    if width ch == 0 || s.join_next
    then join ch s
    else put_wide cols rows (if ltb cols 2 && width ch == 2 then 1 else width ch) ch s

unfoldable pub erase_line : ℕ → ℕ → TerminalScreen → TerminalScreen
erase_line cols mode s =
    if mode == 0
    then on_grid (erase_range cols s.row s.col (cols - s.col)) s
    else if mode == 1
    then on_grid (erase_range cols s.row 0 (s.col + 1)) s
    else if mode == 2
    then on_grid (erase_range cols s.row 0 cols) s
    else s

unfoldable pub erase_display : ℕ → ℕ → ℕ → TerminalScreen → TerminalScreen
unfolding erase_line
erase_display cols rows mode s =
    if mode == 0
    then on_grid (clear_rows (s.row + 1) (rows - (s.row + 1))) (erase_line cols 0 s)
    else if mode == 1
    then erase_line cols 1 (on_grid (clear_rows 0 s.row) s)
    else if mode == 2
    then on_grid (clear_rows 0 (length s.grid.cells)) s
    else s

-- `clamp(n, 0, high)`
abbrev pub clamp : ℕ → ℕ → ℕ
clamp n high = min n high

abbrev pub save_cursor : TerminalScreen → TerminalScreen
save_cursor s = record s { saved_row = s.row; saved_col = s.col; saved_faint = s.faint }

abbrev pub restore_cursor : ℕ → ℕ → TerminalScreen → TerminalScreen
restore_cursor cols rows s = record s {
  row = clamp s.saved_row (rows - 1);
  col = clamp s.saved_col (cols - 1);
  faint = s.saved_faint;
}

-- The switch of `consumeControlOrRune`.
unfoldable pub control_or_rune : (ℕ → ℕ) → ℕ → ℕ → ℕ → TerminalScreen → TerminalScreen
unfolding line_feed put_rune
control_or_rune width cols rows ch s =
    if ch == 13
    then record s { col = 0; pending_wrap = false }
    else if ch == 10 || ch == 11 || ch == 12
    then line_feed cols rows s
    else if ch == 8
    then record s { pending_wrap = false; col = s.col - 1 }
    else if ch == 9
    then record s { col = min (cols - 1) ((s.col / 8 + 1) * 8) }
    else if leb 0x20 ch && not (ch == 0x7f)
    then put_rune width cols rows ch s
    else s
