-- ===== src/Supervisor/Terminal/Csi.antt =====
-- internal/supervisor/vterm.go: what a control sequence does to the current screen, by its last byte.
pub mod Bounds
use codex_runner.Prelude.{
  contains_byte, split, ℕ, ◌+◌, ◌-◌, min, Bool, true, false, not, ◌&&◌, ◌||◌, List, [], ◌∷◌, ltb,
  leb, ◌==◌, if◌then◌else◌, Text,
}
use codex_runner.Supervisor.Terminal.Grid.{erase_range, scroll_up_at, scroll_down_at, shift_chars}
use codex_runner.Supervisor.Terminal.Screen.{
  TerminalScreen, on_grid, scroll_up, scroll_down, clamp, save_cursor, restore_cursor, erase_line,
  erase_display,
}
use codex_runner.Supervisor.Terminal.Params.{parse_terminal_params, param, sgr}

-- The scroll region is set only when it has two rows.
unfoldable pub set_region : ℕ → ℕ → TerminalScreen → TerminalScreen
set_region top bottom s =
    if ltb top bottom
    then record s { scroll_top = top; scroll_bottom = bottom; row = 0; col = 0 }
    else s

abbrev pub is_empty : Text → Bool
is_empty [] = true
is_empty (c ∷ cs) = false

-- The finals that move the cursor; another one is left to `other`.
unfoldable pub move_cursor :
    ℕ → ℕ → ℕ → List ℕ → (TerminalScreen → TerminalScreen) → TerminalScreen → TerminalScreen
unfolding set_region
move_cursor cols rows final params other s =
    if final == b'H' || final == b'f'
    then record s {
      row = clamp (param params 0 1 - 1) (rows - 1);
      col = clamp (param params 1 1 - 1) (cols - 1);
    }
    else if final == b'A'
    then record s { row = s.row - param params 0 1 }
    else if final == b'B'
    then record s { row = min (rows - 1) (s.row + param params 0 1) }
    else if final == b'C'
    then record s { col = min (cols - 1) (s.col + param params 0 1) }
    else if final == b'D'
    then record s { col = s.col - param params 0 1 }
    else if final == b'G' || final == b'`'
    then record s { col = clamp (param params 0 1 - 1) (cols - 1) }
    else if final == b'd'
    then record s { row = clamp (param params 0 1 - 1) (rows - 1) }
    else if final == b'r'
    then set_region (clamp (param params 0 1 - 1) (rows - 1))
        (clamp (param params 1 rows - 1) (rows - 1)) s
    else other s

-- The finals that change cells.
unfoldable pub edit_cells :
    (ℕ → ℕ)
    → ℕ
    → ℕ
    → ℕ
    → List ℕ
    → (TerminalScreen → TerminalScreen)
    → TerminalScreen
    → TerminalScreen
unfolding erase_display erase_line scroll_up scroll_down
edit_cells width cols rows final params other s =
    if final == b'J'
    then erase_display cols rows (param params 0 0) s
    else if final == b'K'
    then erase_line cols (param params 0 0) s
    else if final == b'S'
    then scroll_up cols (param params 0 1) s
    else if final == b'T'
    then scroll_down cols (param params 0 1) s
    else if final == b'L'
    then on_grid (scroll_down_at cols s.scroll_top s.scroll_bottom s.row (param params 0 1)) s
    else if final == b'M'
    then on_grid (scroll_up_at cols s.scroll_top s.scroll_bottom s.row (param params 0 1)) s
    else if final == b'@'
    then on_grid (shift_chars width cols s.row s.col (param params 0 1) true) s
    else if final == b'P'
    then on_grid (shift_chars width cols s.row s.col (param params 0 1) false) s
    else if final == b'X'
    then on_grid (erase_range cols s.row s.col (min cols (s.col + param params 0 1) - s.col)) s
    else other s

-- The finals for the attributes and for the saved cursor.
unfoldable pub attribute : ℕ → ℕ → ℕ → Text → TerminalScreen → TerminalScreen
unfolding split sgr
attribute cols rows final raw s =
    if final == b'm'
    then record s { faint = sgr 0 (split b';' raw) s.faint }
    else if final == b's' && is_empty raw
    then save_cursor s
    else if final == b'u' && is_empty raw
    then restore_cursor cols rows s
    else s

abbrev pub unwrapped : ℕ → TerminalScreen → TerminalScreen
unwrapped final s =
    if contains_byte final
      (b'H' ∷ b'f' ∷ b'A' ∷ b'B' ∷ b'C' ∷ b'D' ∷ b'G' ∷ b'`' ∷ b'd' ∷ b'u' ∷ b'r' ∷ [])
    then record s { pending_wrap = false; join_next = false }
    else s

unfoldable pub execute_final : (ℕ → ℕ) → ℕ → ℕ → ℕ → Text → TerminalScreen → TerminalScreen
unfolding move_cursor edit_cells attribute contains_byte parse_terminal_params
execute_final width cols rows final raw s =
    move_cursor cols rows final (parse_terminal_params raw)
      (edit_cells width cols rows final (parse_terminal_params raw) (attribute cols rows final raw))
      (unwrapped final s)
