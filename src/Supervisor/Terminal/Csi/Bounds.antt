-- ===== src/Supervisor/Terminal/Csi/Bounds.antt =====
-- No control sequence moves the cursor or the scroll region off the screen.
use codex_runner.Prelude.{
  contains_byte, split, ℕ, ◌+◌, ◌-◌, ◌<◌, min, true, false, ◌&&◌, ◌||◌, List, [], ◌∷◌, ltb, ◌==◌,
  Text, arith, branches,
}
use codex_runner.Supervisor.Terminal.Grid.{erase_range, scroll_up_at, scroll_down_at, shift_chars}
use codex_runner.Supervisor.Terminal.Grid.Shape.{erase_range-IsGrid}
use codex_runner.Supervisor.Terminal.Grid.Repair.{shift_chars-IsGrid}
use codex_runner.Supervisor.Terminal.Grid.Scrolling.{scroll_up_at-IsGrid, scroll_down_at-IsGrid}
use codex_runner.Supervisor.Terminal.Screen.{TerminalScreen, clamp}
use codex_runner.Supervisor.Terminal.Screen.Bounds.{
  IsScreen, on_grid-IsScreen, moved-IsScreen, at-IsScreen, scroll_up-IsScreen, scroll_down-IsScreen,
  erase_line-IsScreen, erase_display-IsScreen, save_cursor-IsScreen, restore_cursor-IsScreen,
}
use codex_runner.Supervisor.Terminal.Params.{parse_terminal_params, param, sgr}
use codex_runner.Supervisor.Terminal.Csi.{
  set_region, move_cursor, edit_cells, attribute, is_empty, unwrapped, execute_final,
}

module _ (cols rows : ℕ) where
  set_region-IsScreen :
      (top bottom : ℕ) (s : TerminalScreen)
      → IsScreen cols rows s
      → bottom < rows
      → IsScreen cols rows (set_region top bottom s)
  unfolding set_region
  set_region-IsScreen top bottom s h l =
      branches (IsScreen cols rows) (ltb top bottom) _ _
        (λ e. record {
          grid = h.grid;
          row = omega (arith, h.row);
          col = omega (arith, h.col);
          saved_row = h.saved_row;
          saved_col = h.saved_col;
          region = ground arith;
          bottom = l;
        })
        (λ e. h)

  -- Every position that a movement computes is one on the screen.
  move_cursor-IsScreen :
      (final : ℕ) (params : List ℕ) (other : TerminalScreen → TerminalScreen) (s : TerminalScreen)
      → IsScreen cols rows s
      → IsScreen cols rows (other s)
      → IsScreen cols rows (move_cursor cols rows final params other s)
  unfolding move_cursor
  move_cursor-IsScreen final params other s h o =
      let P = IsScreen cols rows in
      let n = param params 0 1 in
      branches P (final == b'H' || final == b'f') _ _
        (λ e.
          at-IsScreen cols rows (clamp (n - 1) (rows - 1)) (clamp (param params 1 1 - 1) (cols - 1))
            s h (omega (arith, h.row)) (omega (arith, h.col)))
        (λ e.
          branches P (final == b'A') _ _
            (λ e. at-IsScreen cols rows (s.row - n) s.col s h (omega (arith, h.row)) h.col)
            (λ e.
              branches P (final == b'B') _ _
                (λ e.
                  at-IsScreen cols rows (min (rows - 1) (s.row + n)) s.col s h
                    (omega (arith, h.row)) h.col)
                (λ e.
                  branches P (final == b'C') _ _
                    (λ e.
                      at-IsScreen cols rows s.row (min (cols - 1) (s.col + n)) s h h.row
                        (omega (arith, h.col)))
                    (λ e.
                      branches P (final == b'D') _ _
                        (λ e.
                          at-IsScreen cols rows s.row (s.col - n) s h h.row (omega (arith, h.col)))
                        (λ e.
                          branches P (final == b'G' || final == b'`') _ _
                            (λ e.
                              at-IsScreen cols rows s.row (clamp (n - 1) (cols - 1)) s h h.row
                                (omega (arith, h.col)))
                            (λ e.
                              branches P (final == b'd') _ _
                                (λ e.
                                  at-IsScreen cols rows (clamp (n - 1) (rows - 1)) s.col s h
                                    (omega (arith, h.row)) h.col)
                                (λ e.
                                  branches P (final == b'r') _ _
                                    (λ e.
                                      set_region-IsScreen (clamp (n - 1) (rows - 1))
                                        (clamp (param params 1 rows - 1) (rows - 1)) s h
                                        (omega (arith, h.row)))
                                    (λ e. o))))))))

  edit_cells-IsScreen :
      (width : ℕ → ℕ) (final : ℕ) (params : List ℕ) (other : TerminalScreen → TerminalScreen)
      (s : TerminalScreen)
      → IsScreen cols rows s
      → IsScreen cols rows (other s)
      → IsScreen cols rows (edit_cells width cols rows final params other s)
  unfolding edit_cells
  edit_cells-IsScreen width final params other s h o =
      let P = IsScreen cols rows in
      let n = param params 0 1 in
      branches P (final == b'J') _ _ (λ e. erase_display-IsScreen cols rows (param params 0 0) s h)
        (λ e.
          branches P (final == b'K') _ _ (λ e. erase_line-IsScreen cols rows (param params 0 0) s h)
            (λ e.
              branches P (final == b'S') _ _ (λ e. scroll_up-IsScreen cols rows n s h)
                (λ e.
                  branches P (final == b'T') _ _ (λ e. scroll_down-IsScreen cols rows n s h)
                    (λ e.
                      branches P (final == b'L') _ _
                        (λ e.
                          on_grid-IsScreen cols rows
                            (scroll_down_at cols s.scroll_top s.scroll_bottom s.row n) s h
                            (scroll_down_at-IsGrid cols rows s.scroll_top s.scroll_bottom s.row n
                              s.grid h.grid h.bottom))
                        (λ e.
                          branches P (final == b'M') _ _
                            (λ e.
                              on_grid-IsScreen cols rows
                                (scroll_up_at cols s.scroll_top s.scroll_bottom s.row n) s h
                                (scroll_up_at-IsGrid cols rows s.scroll_top s.scroll_bottom s.row n
                                  s.grid h.grid h.bottom))
                            (λ e.
                              branches P (final == b'@') _ _
                                (λ e.
                                  on_grid-IsScreen cols rows
                                    (shift_chars width cols s.row s.col n true) s h
                                    (shift_chars-IsGrid cols rows width s.row s.col n true s.grid
                                      h.grid h.row h.col))
                                (λ e.
                                  branches P (final == b'P') _ _
                                    (λ e.
                                      on_grid-IsScreen cols rows
                                        (shift_chars width cols s.row s.col n false) s h
                                        (shift_chars-IsGrid cols rows width s.row s.col n false
                                          s.grid h.grid h.row h.col))
                                    (λ e.
                                      branches P (final == b'X') _ _
                                        (λ e.
                                          on_grid-IsScreen cols rows
                                            (erase_range cols s.row s.col
                                              (min cols (s.col + n) - s.col))
                                            s h
                                            (erase_range-IsGrid cols rows s.row s.col
                                              (min cols (s.col + n) - s.col) s.grid h.grid h.row))
                                        (λ e. o)))))))))

  attribute-IsScreen :
      (final : ℕ) (raw : Text) (s : TerminalScreen)
      → IsScreen cols rows s
      → IsScreen cols rows (attribute cols rows final raw s)
  unfolding attribute
  attribute-IsScreen final raw s h =
      let P = IsScreen cols rows in
      branches P (final == b'm') _ _
        (λ e.
          moved-IsScreen cols rows s.row s.col s.join_next s.pending_wrap
            (sgr 0 (split b';' raw) s.faint) s h h.row h.col)
        (λ e.
          branches P (final == b's' && is_empty raw) _ _ (λ e. save_cursor-IsScreen cols rows s h)
            (λ e.
              branches P (final == b'u' && is_empty raw) _ _
                (λ e. restore_cursor-IsScreen cols rows s h) (λ e. h)))

  unwrapped-IsScreen :
      (final : ℕ) (s : TerminalScreen)
      → IsScreen cols rows s
      → IsScreen cols rows (unwrapped final s)
  unwrapped-IsScreen final s h =
      branches (IsScreen cols rows)
        (contains_byte final
          (b'H' ∷ b'f' ∷ b'A' ∷ b'B' ∷ b'C' ∷ b'D' ∷ b'G' ∷ b'`' ∷ b'd' ∷ b'u' ∷ b'r' ∷ []))
        _ _ (λ e. moved-IsScreen cols rows s.row s.col false false s.faint s h h.row h.col) (λ e. h)

  pub execute_final-IsScreen :
      (width : ℕ → ℕ) (final : ℕ) (raw : Text) (s : TerminalScreen)
      → IsScreen cols rows s
      → IsScreen cols rows (execute_final width cols rows final raw s)
  unfolding execute_final
  execute_final-IsScreen width final raw s h =
      let start = unwrapped-IsScreen final s h in
      let params = parse_terminal_params raw in
      move_cursor-IsScreen final params
        (edit_cells width cols rows final params (attribute cols rows final raw))
        (unwrapped final s) start
        (edit_cells-IsScreen width final params (attribute cols rows final raw) (unwrapped final s)
          start (attribute-IsScreen final raw (unwrapped final s) start))
