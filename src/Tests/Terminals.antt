-- ===== src/Tests/Terminals.antt =====
-- The supervisor's terminal at concrete outputs, and the search in its table of wide runes.
use codex_runner.Prelude.{ℕ, ◌≡◌, refl, Bool, true, false, List, [], ◌∷◌, ◌++◌, pos, negsuc, arith}
use codex_runner.Supervisor.Terminal.Grid.{
  write_cell, erase_wide_at, new_grid, Grid, blank, row_of, shift_chars,
}
use codex_runner.Supervisor.Terminal.Grid.Shape.{IsGrid}
use codex_runner.Supervisor.Terminal.Screen.{TerminalScreen, new_screen}
use codex_runner.Supervisor.Terminal.Emulator.{Emulator}
use codex_runner.Supervisor.Terminal.Emulator.Bounds.{IsEmulator}
use codex_runner.Supervisor.Terminal.Screen.Bounds.{new_screen-IsScreen, moved-IsScreen}
use codex_runner.Supervisor.Terminal.Write.{
  VirtualTerminal, new_virtual_terminal, write, screen_rows,
}
use codex_runner.Supervisor.Terminal.Write.Chunks.{write-append}
use codex_runner.Supervisor.Terminal.Write.Bounds.{
  IsTerminal, TerminalCall, writes, resizes, calls, calls-IsTerminal,
}
use codex_runner.Supervisor.Text.Width.{rune_width}

abbrev no_marks : ℕ → Bool
no_marks r = false

abbrev columns : ℕ → ℕ
columns = rune_width no_marks

abbrev blank_terminal : VirtualTerminal
blank_terminal = new_virtual_terminal (pos 6) (pos 3)

-- A letter, a wide rune and a sequence for the second row, with a cut in each of the last two.
abbrev first_chunk : List ℕ
first_chunk = b'a' ∷ 0xe6 ∷ 0xbc ∷ []

abbrev second_chunk : List ℕ
second_chunk = 0xa2 ∷ 0x1b ∷ b'[' ∷ b'2' ∷ []

abbrev third_chunk : List ℕ
third_chunk = b'd' ∷ b'b' ∷ []

shown :
    screen_rows false (write columns (first_chunk ++ (second_chunk ++ third_chunk)) blank_terminal)
    ≡ (b'a' ∷ 0x6f22 ∷ b' ' ∷ []) ∷ (b' ' ∷ b' ' ∷ b' ' ∷ b'b' ∷ []) ∷ [] ∷ []
unfolding write screen_rows new_virtual_terminal rune_width write_cell erase_wide_at new_grid
shown = refl

write-append_example :
    write columns (first_chunk ++ second_chunk) blank_terminal
    ≡ write columns second_chunk (write columns first_chunk blank_terminal)
write-append_example = write-append columns first_chunk second_chunk blank_terminal

abbrev mixed_calls : List TerminalCall
mixed_calls =
    writes (first_chunk ++ second_chunk)
    ∷ resizes (negsuc 0) (pos 9)
    ∷ writes (0x1b ∷ b'[' ∷ b'9' ∷ b'L' ∷ [])
    ∷ resizes (pos 80) (pos 2)
    ∷ []

calls-IsTerminal_example :
    IsTerminal (calls columns mixed_calls (new_virtual_terminal (pos 6) (pos 0)))
calls-IsTerminal_example = calls-IsTerminal columns (pos 6) (pos 0) mixed_calls

abbrev a_screen : TerminalScreen
a_screen = record (new_screen 6 3) { row = 2; col = 5; faint = true }

abbrev an_emulator : Emulator
an_emulator = record blank_terminal.emulator { primary = a_screen }

an_emulator-IsEmulator : IsEmulator an_emulator
unfolding new_virtual_terminal
an_emulator-IsEmulator =
    let fresh = new_screen-IsScreen 6 3 (omega arith) (omega arith) in
    record {
      primary =
          moved-IsScreen 6 3 2 5 false false true (new_screen 6 3) fresh (omega arith)
            (omega arith);
      alternate = fresh;
      sequence = omega arith;
    }

primary_used : an_emulator.use_alternate ≡ false
unfolding new_virtual_terminal
primary_used = refl

-- A wide rune between two letters, which the deletion of one cell cuts in half.
abbrev wide_grid : Grid
wide_grid = record {
  cells =
      (record { text = b'a' ∷ []; continuation = false; faint = false }
        ∷ record { text = 0x6f22 ∷ []; continuation = false; faint = false }
        ∷ record { text = []; continuation = true; faint = false }
        ∷ record { text = b'b' ∷ []; continuation = false; faint = false }
        ∷ [])
      ∷ [];
  panicked = false;
}

wide_grid-IsGrid : IsGrid 4 1 wide_grid
wide_grid-IsGrid = record { height = refl; width = (refl, tt); sound = refl }

cut_rune :
    row_of 0 (shift_chars columns 4 0 1 1 false wide_grid)
    ≡ record { text = b'a' ∷ []; continuation = false; faint = false }
      ∷ blank
      ∷ record { text = b'b' ∷ []; continuation = false; faint = false }
      ∷ blank
      ∷ []
unfolding shift_chars rune_width
cut_rune = refl
