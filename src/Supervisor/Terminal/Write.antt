-- ===== src/Supervisor/Terminal/Write.antt =====
-- internal/supervisor/vterm.go: `VirtualTerminal` with its pending bytes, and what it exports. The
-- mutex is left out: each operation holds it from its beginning to its end.
pub mod Chunks
pub mod Bounds
use codex_runner.Prelude.{
  ℕ, zero, suc, ◌+◌, ◌-◌, ◌≡◌, min, Bool, true, false, not, ◌&&◌, ◌||◌, List, [], ◌∷◌, ◌++◌, Option,
  none, some, length, map, ltb, leb, ◌==◌, if◌then◌else◌, Text, ℤ, pos, negsuc,
}
use codex_runner.Supervisor.Terminal.Grid.{
  TerminalCell, Row, Grid, resized, repair_rows, row_of, starts_wide,
}
use codex_runner.Supervisor.Terminal.Screen.{TerminalScreen, new_screen, put_rune, clamp}
use codex_runner.Supervisor.Terminal.Emulator.{
  TerminalState, terminal_ground, Emulator, current_screen, on_current,
}
use codex_runner.Supervisor.Terminal.Escape.{consume_escape, consume_control_or_rune}
use codex_runner.Supervisor.Terminal.Utf8.{Decoded, incomplete, invalid, rune, decode}

pub record VirtualTerminal : Type 0 where
  pub emulator : Emulator
  pub utf8_pending : List ℕ

-- A round of the loop in `Write`: it stops, or goes on after so many bytes more than the first.
pub data Round : Type 0 where
  stop : Round
  go : Emulator → ℕ → Round

abbrev pub put_decoded : (ℕ → ℕ) → Emulator → Decoded → Round
put_decoded width u incomplete = stop
put_decoded width u invalid = go u 0
put_decoded width u (rune ch k) =
    go (if leb 0x80 ch && leb ch 0x9f then u else on_current (put_rune width u.cols u.rows ch) u) k

abbrev pub is_ground : TerminalState → Bool
is_ground terminal_ground = true
is_ground _ = false

unfoldable pub round : (ℕ → ℕ) → Emulator → ℕ → List ℕ → Round
unfolding put_rune consume_escape consume_control_or_rune decode
round width u b bs =
    if not (is_ground u.state)
    then go (consume_escape width b u) 0
    else if ltb b 0x80
    then go (consume_control_or_rune width b u) 0
    else put_decoded width u (decode b bs)

-- The loop in `Write`, which passes by `skip` bytes first; it leaves the pending bytes.
unfoldable pub consume : (ℕ → ℕ) → Emulator → ℕ → List ℕ → Emulator × List ℕ
unfolding round
consume width u skip [] = (u, [])
consume width u (suc skip) (b ∷ bs) = consume width u skip bs
consume width u zero (b ∷ bs) = elim (round width u b bs) [
  | stop ↦ (u, b ∷ bs)
  | go t skip ↦ consume width t skip bs
]

unfoldable pub write : (ℕ → ℕ) → List ℕ → VirtualTerminal → VirtualTerminal
unfolding consume
write width bytes t =
    let left = consume width t.emulator 0 (t.utf8_pending ++ bytes) in
    record { emulator = left.0; utf8_pending = left.1 }

-- A size below 1 is 1.
abbrev pub at_least_one : ℤ → ℕ
at_least_one (pos n) = if ltb n 1 then 1 else n
at_least_one (negsuc n) = 1

unfoldable pub new_virtual_terminal : ℤ → ℤ → VirtualTerminal
unfolding new_screen
new_virtual_terminal cols rows = record {
  emulator = record {
    cols = at_least_one cols;
    rows = at_least_one rows;
    primary = new_screen (at_least_one cols) (at_least_one rows);
    alternate = new_screen (at_least_one cols) (at_least_one rows);
    use_alternate = false;
    state = terminal_ground;
    sequence = [];
    sequence_bytes = 0;
  };
  utf8_pending = [];
}

unfoldable pub resize_screen : (ℕ → ℕ) → ℕ → ℕ → TerminalScreen → TerminalScreen
unfolding resized repair_rows
resize_screen width cols rows s = record s {
  grid = repair_rows width cols 0 rows (resized cols rows s.grid);
  row = clamp s.row (rows - 1);
  col = clamp s.col (cols - 1);
  saved_row = clamp s.saved_row (rows - 1);
  saved_col = clamp s.saved_col (cols - 1);
  scroll_top = 0;
  scroll_bottom = rows - 1;
  pending_wrap = false;
}

unfoldable pub resize : (ℕ → ℕ) → ℤ → ℤ → VirtualTerminal → VirtualTerminal
unfolding resize_screen
resize width cols rows t = record t {
  emulator = record t.emulator {
    cols = at_least_one cols;
    rows = at_least_one rows;
    primary = resize_screen width (at_least_one cols) (at_least_one rows) t.emulator.primary;
    alternate = resize_screen width (at_least_one cols) (at_least_one rows) t.emulator.alternate;
  };
}

abbrev pub cursor_pos : VirtualTerminal → ℕ × ℕ
cursor_pos t = ((current_screen t.emulator).row, (current_screen t.emulator).col)

pub record Cell : Type 0 where
  pub text : List ℕ
  pub faint : Bool
  pub wide : Bool

abbrev pub cell_view : (ℕ → ℕ) → TerminalCell → Cell
cell_view width c = record {
  text = c.text;
  faint = c.faint;
  wide = c.continuation || starts_wide width c.text;
}

-- `Cells`, with `none` for the nil slice of a row outside.
unfoldable pub row_cells : (ℕ → ℕ) → ℤ → VirtualTerminal → Option (List Cell)
row_cells width (negsuc r) t = none
row_cells width (pos r) t =
    if leb t.emulator.rows r
    then none
    else some (map (cell_view width) (row_of r (current_screen t.emulator).grid))

abbrev pub blank_text : Text → Bool
blank_text [] = true
blank_text (ch ∷ []) = ch == b' '
blank_text (ch ∷ (d ∷ text)) = false

-- A cell that the end of a row may lose: empty, or one space.
abbrev pub is_blank : TerminalCell → Bool
is_blank c = not c.continuation && blank_text c.text

abbrev pub keep_cell : TerminalCell → Row → Row
keep_cell c [] = if is_blank c then [] else c ∷ []
keep_cell c (d ∷ row) = c ∷ (d ∷ row)

-- A row without its blank end.
unfoldable pub trimmed : Row → Row
trimmed [] = []
trimmed (c ∷ row) = keep_cell c (trimmed row)

abbrev pub or_space : Text → Text
or_space [] = b' ' ∷ []
or_space (ch ∷ text) = ch ∷ text

abbrev pub cell_text : Bool → TerminalCell → Text
cell_text omit c = if c.continuation then (if omit then [] else b' ' ∷ []) else or_space c.text

unfoldable pub row_text : Bool → Row → Text
row_text omit [] = []
row_text omit (c ∷ row) = cell_text omit c ++ row_text omit row

unfoldable pub screen_rows : Bool → VirtualTerminal → List Text
unfolding trimmed row_text
screen_rows omit t = map (λ row. row_text omit (trimmed row)) (current_screen t.emulator).grid.cells
