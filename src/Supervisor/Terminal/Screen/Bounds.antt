-- ===== src/Supervisor/Terminal/Screen/Bounds.antt =====
-- Every operation keeps the cursor and the scroll region on the screen.
use codex_runner.Prelude.{
  ℕ, ◌+◌, ◌-◌, ◌≤◌, ◌<◌, Bool, length, ltb, ◌==◌, arith, Bool-cases, branches, inl, inr,
}
use codex_runner.Supervisor.Terminal.Grid.{
  Grid, erase_range, clear_rows, scroll_up_at, scroll_down_at,
}
use codex_runner.Supervisor.Terminal.Grid.Shape.{IsGrid, erase_range-IsGrid, clear_rows-IsGrid}
use codex_runner.Supervisor.Terminal.Grid.Scrolling.{
  scroll_up_at-IsGrid, scroll_down_at-IsGrid, new_grid-IsGrid,
}
use codex_runner.Supervisor.Terminal.Screen.{
  TerminalScreen, new_screen, on_grid, scroll_up, scroll_down, line_feed, reverse_index, erase_line,
  erase_display, clamp, save_cursor, restore_cursor,
}

pub record IsScreen (cols rows : ℕ) (s : TerminalScreen) : Type 0 where
  pub grid : IsGrid cols rows s.grid
  pub row : s.row < rows
  pub col : s.col < cols
  pub saved_row : s.saved_row < rows
  pub saved_col : s.saved_col < cols
  pub region : s.scroll_top ≤ s.scroll_bottom
  pub bottom : s.scroll_bottom < rows

module _ (cols rows : ℕ) where
  pub on_grid-IsScreen :
      (f : Grid → Grid) (s : TerminalScreen)
      → IsScreen cols rows s
      → IsGrid cols rows (f s.grid)
      → IsScreen cols rows (on_grid f s)
  on_grid-IsScreen f s h g = record {
    grid = g;
    row = h.row;
    col = h.col;
    saved_row = h.saved_row;
    saved_col = h.saved_col;
    region = h.region;
    bottom = h.bottom;
  }

  pub new_screen-IsScreen : 0 < cols → 0 < rows → IsScreen cols rows (new_screen cols rows)
  unfolding new_screen
  new_screen-IsScreen c r = record {
    grid = new_grid-IsGrid cols rows;
    row = r;
    col = c;
    saved_row = r;
    saved_col = c;
    region = omega arith;
    bottom = omega arith;
  }

  pub scroll_up-IsScreen :
      (n : ℕ) (s : TerminalScreen) → IsScreen cols rows s → IsScreen cols rows (scroll_up cols n s)
  unfolding scroll_up
  scroll_up-IsScreen n s h =
      on_grid-IsScreen (scroll_up_at cols s.scroll_top s.scroll_bottom s.scroll_top n) s h (
        scroll_up_at-IsGrid cols rows s.scroll_top s.scroll_bottom s.scroll_top n s.grid h.grid
          h.bottom)

  pub scroll_down-IsScreen :
      (n : ℕ) (s : TerminalScreen)
      → IsScreen cols rows s
      → IsScreen cols rows (scroll_down cols n s)
  unfolding scroll_down
  scroll_down-IsScreen n s h =
      on_grid-IsScreen (scroll_down_at cols s.scroll_top s.scroll_bottom s.scroll_top n) s h (
        scroll_down_at-IsGrid cols rows s.scroll_top s.scroll_bottom s.scroll_top n s.grid h.grid
          h.bottom)

  -- A move of the cursor, with any flags.
  pub moved-IsScreen :
      (r c : ℕ) (j p f : Bool) (s : TerminalScreen)
      → IsScreen cols rows s
      → r < rows
      → c < cols
      → IsScreen cols rows
          (record s { row = r; col = c; join_next = j; pending_wrap = p; faint = f })
  moved-IsScreen r c j p f s h l k = record {
    grid = h.grid;
    row = l;
    col = k;
    saved_row = h.saved_row;
    saved_col = h.saved_col;
    region = h.region;
    bottom = h.bottom;
  }

  pub at-IsScreen :
      (r c : ℕ) (s : TerminalScreen)
      → IsScreen cols rows s
      → r < rows
      → c < cols
      → IsScreen cols rows (record s { row = r; col = c })
  at-IsScreen r c s = moved-IsScreen r c s.join_next s.pending_wrap s.faint s

  pub line_feed-IsScreen :
      (s : TerminalScreen) → IsScreen cols rows s → IsScreen cols rows (line_feed cols rows s)
  unfolding line_feed
  line_feed-IsScreen s h = elim (Bool-cases (s.row == s.scroll_bottom)) [
    | inl last ↦ rw last (scroll_up-IsScreen 1 s h)
    | inr above ↦ rw above (elim (Bool-cases (ltb s.row (rows - 1))) [
      | inl inside ↦ rw inside (at-IsScreen (s.row + 1) s.col s h (ground arith) h.col)
      | inr outside ↦ rw outside h
    ])
  ]

  pub reverse_index-IsScreen :
      (s : TerminalScreen) → IsScreen cols rows s → IsScreen cols rows (reverse_index cols s)
  unfolding reverse_index
  reverse_index-IsScreen s h = elim (Bool-cases (s.row == s.scroll_top)) [
    | inl first ↦ rw first (scroll_down-IsScreen 1 s h)
    | inr below ↦ rw below (elim (Bool-cases (ltb 0 s.row)) [
      | inl inside ↦ rw inside (at-IsScreen (s.row - 1) s.col s h (omega (arith, h.row)) h.col)
      | inr outside ↦ rw outside h
    ])
  ]

  row_erased :
      (start n : ℕ) (s : TerminalScreen)
      → IsScreen cols rows s
      → IsScreen cols rows (on_grid (erase_range cols s.row start n) s)
  row_erased start n s h =
      on_grid-IsScreen (erase_range cols s.row start n) s h
        (erase_range-IsGrid cols rows s.row start n s.grid h.grid h.row)

  rows_erased :
      (start n : ℕ) (s : TerminalScreen)
      → IsScreen cols rows s
      → start + n ≤ rows
      → IsScreen cols rows (on_grid (clear_rows start n) s)
  rows_erased start n s h l =
      on_grid-IsScreen (clear_rows start n) s h
        (clear_rows-IsGrid cols rows start n s.grid h.grid l)

  pub erase_line-IsScreen :
      (mode : ℕ) (s : TerminalScreen)
      → IsScreen cols rows s
      → IsScreen cols rows (erase_line cols mode s)
  unfolding erase_line
  erase_line-IsScreen mode s h =
      branches (IsScreen cols rows) (mode == 0) _ _ (λ e. row_erased s.col (cols - s.col) s h)
        (λ e.
          branches (IsScreen cols rows) (mode == 1) _ _ (λ e. row_erased 0 (s.col + 1) s h)
            (λ e.
              branches (IsScreen cols rows) (mode == 2) _ _ (λ e. row_erased 0 cols s h) (λ e. h)))

  pub erase_display-IsScreen :
      (mode : ℕ) (s : TerminalScreen)
      → IsScreen cols rows s
      → IsScreen cols rows (erase_display cols rows mode s)
  unfolding erase_display
  erase_display-IsScreen mode s h =
      branches (IsScreen cols rows) (mode == 0) _ _
        (λ e.
          rows_erased (s.row + 1) (rows - (s.row + 1)) (erase_line cols 0 s)
            (erase_line-IsScreen 0 s h) (omega (arith, h.row)))
        (λ e.
          branches (IsScreen cols rows) (mode == 1) _ _
            (λ e. erase_line-IsScreen 1 _ (rows_erased 0 s.row s h (omega (arith, h.row))))
            (λ e.
              branches (IsScreen cols rows) (mode == 2) _ _
                (λ e. rows_erased 0 (length s.grid.cells) s h (omega (arith, h.grid.height)))
                (λ e. h)))

  pub save_cursor-IsScreen :
      (s : TerminalScreen) → IsScreen cols rows s → IsScreen cols rows (save_cursor s)
  save_cursor-IsScreen s h = record {
    grid = h.grid;
    row = h.row;
    col = h.col;
    saved_row = h.row;
    saved_col = h.col;
    region = h.region;
    bottom = h.bottom;
  }

  pub restore_cursor-IsScreen :
      (s : TerminalScreen) → IsScreen cols rows s → IsScreen cols rows (restore_cursor cols rows s)
  restore_cursor-IsScreen s h =
      moved-IsScreen (clamp s.saved_row (rows - 1)) (clamp s.saved_col (cols - 1)) s.join_next
        s.pending_wrap s.saved_faint s h (omega (arith, h.row)) (omega (arith, h.col))
