-- ===== src/Supervisor/Terminal/Emulator.antt =====
-- internal/supervisor/vterm.go: the two screens and the state machine of the escape sequences.
pub mod Bounds
pub mod Alternate
use codex_runner.Prelude.{
  ℕ, zero, suc, ◌+◌, ◌-◌, Bool, true, false, not, ◌&&◌, ◌||◌, List, [], ◌∷◌, ◌++◌, length, ltb, leb,
  ◌==◌, if◌then◌else◌, Text,
}
use codex_runner.Supervisor.Terminal.Screen.{
  TerminalScreen, new_screen, line_feed, reverse_index, put_rune, save_cursor, restore_cursor,
  control_or_rune, erase_line, erase_display,
}
use codex_runner.Supervisor.Terminal.Params.{parse_terminal_params, private_erase_mode, malformed}
use codex_runner.Supervisor.Terminal.Csi.{execute_final}

pub data TerminalState : Type 0 where
  terminal_ground : TerminalState
  terminal_escape : TerminalState
  terminal_csi : TerminalState
  terminal_osc : TerminalState
  terminal_dcs : TerminalState
  terminal_string_escape : TerminalState
  terminal_escape_intermediate : TerminalState
  terminal_discard_csi : TerminalState
  terminal_discard_osc : TerminalState
  terminal_discard_dcs : TerminalState

-- `VirtualTerminal` without its pending bytes. `sequence` is what the builder holds.
pub record Emulator : Type 0 where
  pub cols : ℕ
  pub rows : ℕ
  pub primary : TerminalScreen
  pub alternate : TerminalScreen
  pub use_alternate : Bool
  pub state : TerminalState
  pub sequence : Text
  pub sequence_bytes : ℕ

abbrev pub current_screen : Emulator → TerminalScreen
current_screen u = if u.use_alternate then u.alternate else u.primary

abbrev pub on_current : (TerminalScreen → TerminalScreen) → Emulator → Emulator
on_current f u =
    if u.use_alternate
    then record u { alternate = f u.alternate }
    else record u { primary = f u.primary }

abbrev pub set_state : TerminalState → Emulator → Emulator
set_state st u = record u { state = st }

-- One parameter of `privateMode`.
unfoldable pub set_private_mode : Bool → ℕ → Emulator → Emulator
unfolding new_screen
set_private_mode enable p u =
    if not (p == 47 || p == 1047 || p == 1049)
    then u
    else if enable && not u.use_alternate
    then (let primary = if p == 1049 then save_cursor u.primary else u.primary in
        let alternate = if p == 1049 || p == 1047 then new_screen u.cols u.rows else u.alternate in
        record u {
          primary = primary;
          alternate = record alternate { faint = primary.faint };
          use_alternate = true;
        })
    else if not enable && u.use_alternate
    then (let primary = record u.primary { faint = u.alternate.faint } in
        record u {
          primary = if p == 1049 then restore_cursor u.cols u.rows primary else primary;
          use_alternate = false;
        })
    else u

unfoldable pub set_private_modes : Bool → List ℕ → Emulator → Emulator
unfolding set_private_mode
set_private_modes enable [] u = u
set_private_modes enable (p ∷ ps) u = set_private_modes enable ps (set_private_mode enable p u)

unfoldable pub private_mode : ℕ → Text → Emulator → Emulator
unfolding set_private_modes parse_terminal_params
private_mode final raw u =
    if not (final == b'h') && not (final == b'l')
    then u
    else set_private_modes (final == b'h') (parse_terminal_params raw) u

-- The sequences that begin with a question mark.
unfoldable pub execute_private : ℕ → Text → Emulator → Emulator
unfolding erase_display erase_line private_erase_mode private_mode
execute_private final raw u =
    if final == b'J'
    then on_current (erase_display u.cols u.rows (private_erase_mode raw)) u
    else if final == b'K'
    then on_current (erase_line u.cols (private_erase_mode raw)) u
    else private_mode final raw u

abbrev pub execute_public : (ℕ → ℕ) → ℕ → Text → Emulator → Emulator
execute_public width final raw u =
    if malformed raw then u else on_current (execute_final width u.cols u.rows final raw) u

unfoldable pub execute_csi : (ℕ → ℕ) → ℕ → Text → Emulator → Emulator
unfolding execute_private execute_final malformed
execute_csi width final [] u = execute_public width final [] u
execute_csi width final (c ∷ raw) u =
    if c == b'?'
    then execute_private final raw u
    else if c == b'>' || c == b'<' || c == b'=' || c == b'!'
    then u
    else execute_public width final (c ∷ raw) u
