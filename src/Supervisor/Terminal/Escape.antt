-- ===== src/Supervisor/Terminal/Escape.antt =====
-- internal/supervisor/vterm.go: the state machine of the escape sequences, byte by byte.
pub mod Bounds
use codex_runner.Prelude.{
  contains_byte, split, ℕ, ◌+◌, Bool, true, false, not, ◌&&◌, ◌||◌, [], ◌∷◌, ◌++◌, length, ltb, leb,
  ◌==◌, if◌then◌else◌,
}
use codex_runner.Supervisor.Terminal.Screen.{
  TerminalScreen, new_screen, line_feed, reverse_index, save_cursor, restore_cursor,
  control_or_rune,
}
use codex_runner.Supervisor.Terminal.Emulator.{
  TerminalState, terminal_ground, terminal_escape, terminal_csi, terminal_osc, terminal_dcs,
  terminal_string_escape, terminal_escape_intermediate, terminal_discard_csi, terminal_discard_osc,
  terminal_discard_dcs, Emulator, current_screen, on_current, set_state, execute_csi,
}

-- The byte after an escape.
unfoldable pub escape_byte : ℕ → Emulator → Emulator
unfolding line_feed reverse_index new_screen
escape_byte b u =
    if b == b'['
    then record u { state = terminal_csi; sequence = []; sequence_bytes = 0 }
    else if b == b']'
    then record u { state = terminal_osc; sequence_bytes = 0 }
    else if b == b'P' || b == b'^' || b == b'_'
    then record u { state = terminal_dcs; sequence_bytes = 0 }
    else if b == b'7'
    then set_state terminal_ground (on_current save_cursor u)
    else if b == b'8'
    then set_state terminal_ground
        (on_current (λ s. record (restore_cursor u.cols u.rows s) { pending_wrap = false }) u)
    else if b == b'D'
    then set_state terminal_ground (on_current (line_feed u.cols u.rows) u)
    else if b == b'E'
    then set_state terminal_ground
        (on_current (λ s. line_feed u.cols u.rows (record s { col = 0 })) u)
    else if b == b'M'
    then set_state terminal_ground (on_current (reverse_index u.cols) u)
    else if b == b'c'
    then record u {
      primary = new_screen u.cols u.rows;
      alternate = new_screen u.cols u.rows;
      use_alternate = false;
      state = terminal_ground;
    }
    else if contains_byte b (b' ' ∷ b'(' ∷ b')' ∷ b'*' ∷ b'+' ∷ b'-' ∷ b'.' ∷ b'/' ∷ b'#' ∷ [])
    then set_state terminal_escape_intermediate u
    else set_state terminal_ground u

unfoldable pub csi_byte : (ℕ → ℕ) → ℕ → Emulator → Emulator
unfolding execute_csi
csi_byte width b u =
    if b == 0x1b
    then record u { state = terminal_escape; sequence = [] }
    else if b == 0x18 || b == 0x1a
    then record u { state = terminal_ground; sequence = [] }
    else if leb 0x40 b && leb b 0x7e
    then set_state terminal_ground (execute_csi width b u.sequence u)
    else if leb 0x20 b && leb b 0x3f && ltb (length u.sequence) 4096
    then record u { sequence = u.sequence ++ b ∷ [] }
    else if leb 4096 (length u.sequence)
    then record u { state = terminal_discard_csi; sequence = [] }
    else u

-- A string sequence ends with a cancel, and with a bell where one is `bell`.
abbrev pub string_byte : Bool → ℕ → Emulator → Emulator
string_byte bell b u =
    if b == 0x18 || b == 0x1a || bell && b == 0x07
    then set_state terminal_ground u
    else if b == 0x1b
    then set_state terminal_string_escape u
    else u

-- The switch of `consumeEscape`, without the state `terminal_string_escape`.
unfoldable pub dispatch : (ℕ → ℕ) → TerminalState → ℕ → Emulator → Emulator
unfolding escape_byte csi_byte
dispatch width terminal_ground b u = u
dispatch width terminal_escape b u = escape_byte b u
dispatch width terminal_csi b u = csi_byte width b u
dispatch width terminal_osc b u = string_byte true b u
dispatch width terminal_dcs b u = string_byte false b u
dispatch width terminal_string_escape b u = u
dispatch width terminal_escape_intermediate b u =
    if leb 0x30 b && leb b 0x7e then set_state terminal_ground u else u
dispatch width terminal_discard_csi b u =
    if leb 0x40 b && leb b 0x7e || b == 0x18 || b == 0x1a then set_state terminal_ground u else u
dispatch width terminal_discard_osc b u = string_byte true b u
dispatch width terminal_discard_dcs b u = string_byte false b u

abbrev pub counts : TerminalState → Bool
counts terminal_discard_csi = false
counts terminal_discard_osc = false
counts terminal_discard_dcs = false
counts terminal_string_escape = false
counts terminal_ground = true
counts terminal_escape = true
counts terminal_csi = true
counts terminal_osc = true
counts terminal_dcs = true
counts terminal_escape_intermediate = true

-- The state of a sequence that is too long.
abbrev pub discarded : TerminalState → TerminalState
discarded terminal_csi = terminal_discard_csi
discarded terminal_osc = terminal_discard_osc
discarded terminal_string_escape = terminal_discard_osc
discarded terminal_dcs = terminal_discard_dcs
discarded terminal_ground = terminal_ground
discarded terminal_escape = terminal_ground
discarded terminal_escape_intermediate = terminal_ground
discarded terminal_discard_csi = terminal_ground
discarded terminal_discard_osc = terminal_ground
discarded terminal_discard_dcs = terminal_ground

-- A sequence that is too long is discarded, and its last byte looked at with that state.
abbrev pub overflow : (ℕ → ℕ) → TerminalState → ℕ → Emulator → Emulator
overflow width terminal_ground b u = record u { state = terminal_ground; sequence = [] }
overflow width st b u = dispatch width st b (record u { state = st; sequence = [] })

-- `consumeEscape` outside `terminalStringEscape`.
unfoldable pub counted_escape : (ℕ → ℕ) → ℕ → Emulator → Emulator
unfolding dispatch
counted_escape width b u =
    if not (counts u.state)
    then dispatch width u.state b u
    else (let counted = record u { sequence_bytes = u.sequence_bytes + 1 } in
        if ltb 4096 counted.sequence_bytes
        then overflow width (discarded u.state) b counted
        else dispatch width u.state b counted)

-- After the end of a string an escape starts over, and another byte is one after an escape.
unfoldable pub string_escape_byte : (ℕ → ℕ) → ℕ → Emulator → Emulator
unfolding counted_escape
string_escape_byte width b u =
    if b == b'\\'
    then set_state terminal_ground u
    else if b == 0x1b
    then record u { state = terminal_escape; sequence_bytes = 0 }
    else counted_escape width b (set_state terminal_escape u)

unfoldable pub consume_escape_in : (ℕ → ℕ) → TerminalState → ℕ → Emulator → Emulator
unfolding counted_escape string_escape_byte
consume_escape_in width terminal_string_escape b u = string_escape_byte width b u
consume_escape_in width _ b u = counted_escape width b u

unfoldable pub consume_escape : (ℕ → ℕ) → ℕ → Emulator → Emulator
unfolding consume_escape_in
consume_escape width b u = consume_escape_in width u.state b u

unfoldable pub consume_control_or_rune : (ℕ → ℕ) → ℕ → Emulator → Emulator
unfolding control_or_rune
consume_control_or_rune width ch u =
    let plain = on_current (λ s. record s { join_next = false }) u in
    if ch == 0x1b
    then record plain { state = terminal_escape; sequence_bytes = 0 }
    else on_current (control_or_rune width plain.cols plain.rows ch) plain
