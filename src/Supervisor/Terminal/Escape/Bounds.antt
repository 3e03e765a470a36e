-- ===== src/Supervisor/Terminal/Escape/Bounds.antt =====
-- No byte of an escape sequence leads out of the bounds, and the text of a sequence stays short.
use codex_runner.Prelude.{
  contains_byte, ℕ, ◌+◌, Bool, true, false, not, ◌&&◌, ◌||◌, [], ◌∷◌, ◌++◌, length, ltb, leb, ◌==◌,
  arith, branches, length-append,
}
use codex_runner.Supervisor.Terminal.Screen.{
  TerminalScreen, line_feed, reverse_index, save_cursor, restore_cursor, control_or_rune,
}
use codex_runner.Supervisor.Terminal.Screen.Bounds.{
  IsScreen, moved-IsScreen, line_feed-IsScreen, reverse_index-IsScreen, save_cursor-IsScreen,
  restore_cursor-IsScreen,
}
use codex_runner.Supervisor.Terminal.Screen.Printing.{control_or_rune-IsScreen}
use codex_runner.Supervisor.Terminal.Emulator.{
  TerminalState, terminal_ground, terminal_escape, terminal_csi, terminal_osc, terminal_dcs,
  terminal_string_escape, terminal_escape_intermediate, terminal_discard_csi, terminal_discard_osc,
  terminal_discard_dcs, Emulator, on_current, set_state, execute_csi,
}
use codex_runner.Supervisor.Terminal.Emulator.Bounds.{
  IsEmulator, on_current-IsEmulator, entered-IsEmulator, fresh-IsScreen, execute_csi-IsEmulator,
}
use codex_runner.Supervisor.Terminal.Escape.{
  escape_byte, csi_byte, string_byte, dispatch, counts, discarded, overflow, counted_escape,
  string_escape_byte, consume_escape_in, consume_escape, consume_control_or_rune,
}

set_state-IsEmulator :
    (st : TerminalState) (u : Emulator) → IsEmulator u → IsEmulator (set_state st u)
set_state-IsEmulator st u h = entered-IsEmulator st u.sequence u.sequence_bytes u h h.sequence

reset-IsEmulator :
    (st : TerminalState) (n : ℕ) (u : Emulator)
    → IsEmulator u
    → IsEmulator (record u { state = st; sequence_bytes = n })
reset-IsEmulator st n u h = entered-IsEmulator st u.sequence n u h h.sequence

emptied-IsEmulator :
    (st : TerminalState) (n : ℕ) (u : Emulator)
    → IsEmulator u
    → IsEmulator (record u { state = st; sequence = []; sequence_bytes = n })
emptied-IsEmulator st n u h = entered-IsEmulator st [] n u h (omega arith)

done-IsEmulator :
    (f : TerminalScreen → TerminalScreen) (u : Emulator)
    → IsEmulator u
    → ((s : TerminalScreen) → IsScreen u.cols u.rows s → IsScreen u.cols u.rows (f s))
    → IsEmulator (set_state terminal_ground (on_current f u))
done-IsEmulator f u h k =
    set_state-IsEmulator terminal_ground (on_current f u) (on_current-IsEmulator f u h k)

escape_byte-IsEmulator : (b : ℕ) (u : Emulator) → IsEmulator u → IsEmulator (escape_byte b u)
unfolding escape_byte
escape_byte-IsEmulator b u h =
    let P = IsEmulator in
    let c = u.cols in
    let r = u.rows in
    branches P (b == b'[') _ _ (λ e. emptied-IsEmulator terminal_csi 0 u h)
      (λ e.
        branches P (b == b']') _ _ (λ e. reset-IsEmulator terminal_osc 0 u h)
          (λ e.
            branches P (b == b'P' || b == b'^' || b == b'_') _ _
              (λ e. reset-IsEmulator terminal_dcs 0 u h)
              (λ e.
                branches P (b == b'7') _ _
                  (λ e. done-IsEmulator save_cursor u h (save_cursor-IsScreen c r))
                  (λ e.
                    branches P (b == b'8') _ _
                      (λ e.
                        done-IsEmulator
                          (λ s. record (restore_cursor c r s) { pending_wrap = false }) u h
                          (λ s k.
                            let back = restore_cursor-IsScreen c r s k in
                            moved-IsScreen c r (restore_cursor c r s).row (restore_cursor c r s).col
                              s.join_next false s.saved_faint (restore_cursor c r s) back back.row
                              back.col))
                      (λ e.
                        branches P (b == b'D') _ _
                          (λ e. done-IsEmulator (line_feed c r) u h (line_feed-IsScreen c r))
                          (λ e.
                            branches P (b == b'E') _ _
                              (λ e.
                                done-IsEmulator (λ s. line_feed c r (record s { col = 0 })) u h
                                  (λ s k.
                                    line_feed-IsScreen c r (record s { col = 0 })
                                      (moved-IsScreen c r s.row 0 s.join_next s.pending_wrap s.faint
                                        s k k.row (omega (arith, k.col)))))
                              (λ e.
                                branches P (b == b'M') _ _
                                  (λ e.
                                    done-IsEmulator (reverse_index c) u h
                                      (reverse_index-IsScreen c r))
                                  (λ e.
                                    branches P (b == b'c') _ _
                                      (λ e. record {
                                        primary = fresh-IsScreen u h;
                                        alternate = fresh-IsScreen u h;
                                        sequence = h.sequence;
                                      })
                                      (λ e.
                                        branches P
                                          (contains_byte b (
                                            b' ' ∷ b'(' ∷ b')' ∷ b'*' ∷ b'+' ∷ b'-' ∷ b'.' ∷ b'/'
                                            ∷ b'#' ∷ []))
                                          _ _
                                          (λ e.
                                            set_state-IsEmulator terminal_escape_intermediate u h)
                                          (λ e. set_state-IsEmulator terminal_ground u h))))))))))

csi_byte-IsEmulator :
    (width : ℕ → ℕ) (b : ℕ) (u : Emulator) → IsEmulator u → IsEmulator (csi_byte width b u)
unfolding csi_byte
csi_byte-IsEmulator width b u h =
    let P = IsEmulator in
    branches P (b == 0x1b) _ _ (λ e. emptied-IsEmulator terminal_escape u.sequence_bytes u h)
      (λ e.
        branches P (b == 0x18 || b == 0x1a) _ _
          (λ e. emptied-IsEmulator terminal_ground u.sequence_bytes u h)
          (λ e.
            branches P (leb 0x40 b && leb b 0x7e) _ _
              (λ e.
                set_state-IsEmulator terminal_ground (execute_csi width b u.sequence u)
                  (execute_csi-IsEmulator width b u.sequence u h))
              (λ e.
                branches P (leb 0x20 b && leb b 0x3f && ltb (length u.sequence) 4096) _ _
                  (λ e.
                    entered-IsEmulator u.state (u.sequence ++ b ∷ []) u.sequence_bytes u h
                      (ground (arith, length-append u.sequence (b ∷ []))))
                  (λ e.
                    branches P (leb 4096 (length u.sequence)) _ _
                      (λ e. emptied-IsEmulator terminal_discard_csi u.sequence_bytes u h)
                      (λ e. h)))))

string_byte-IsEmulator :
    (bell : Bool) (b : ℕ) (u : Emulator) → IsEmulator u → IsEmulator (string_byte bell b u)
string_byte-IsEmulator bell b u h =
    branches IsEmulator (b == 0x18 || b == 0x1a || bell && b == 0x07) _ _
      (λ e. set_state-IsEmulator terminal_ground u h)
      (λ e.
        branches IsEmulator (b == 0x1b) _ _ (λ k. set_state-IsEmulator terminal_string_escape u h)
          (λ k. h))

dispatch-IsEmulator :
    (width : ℕ → ℕ) (st : TerminalState) (b : ℕ) (u : Emulator)
    → IsEmulator u
    → IsEmulator (dispatch width st b u)
unfolding dispatch
dispatch-IsEmulator width terminal_ground b u h = h
dispatch-IsEmulator width terminal_escape b u h = escape_byte-IsEmulator b u h
dispatch-IsEmulator width terminal_csi b u h = csi_byte-IsEmulator width b u h
dispatch-IsEmulator width terminal_osc b u h = string_byte-IsEmulator true b u h
dispatch-IsEmulator width terminal_dcs b u h = string_byte-IsEmulator false b u h
dispatch-IsEmulator width terminal_string_escape b u h = h
dispatch-IsEmulator width terminal_escape_intermediate b u h =
    branches IsEmulator (leb 0x30 b && leb b 0x7e) _ _
      (λ e. set_state-IsEmulator terminal_ground u h) (λ e. h)
dispatch-IsEmulator width terminal_discard_csi b u h =
    branches IsEmulator (leb 0x40 b && leb b 0x7e || b == 0x18 || b == 0x1a) _ _
      (λ e. set_state-IsEmulator terminal_ground u h) (λ e. h)
dispatch-IsEmulator width terminal_discard_osc b u h = string_byte-IsEmulator true b u h
dispatch-IsEmulator width terminal_discard_dcs b u h = string_byte-IsEmulator false b u h

overflow-IsEmulator :
    (width : ℕ → ℕ) (st : TerminalState) (b : ℕ) (u : Emulator)
    → IsEmulator u
    → IsEmulator (overflow width (discarded st) b u)
overflow-IsEmulator width terminal_ground b u h =
    emptied-IsEmulator terminal_ground u.sequence_bytes u h
overflow-IsEmulator width terminal_escape b u h =
    emptied-IsEmulator terminal_ground u.sequence_bytes u h
overflow-IsEmulator width terminal_csi b u h =
    dispatch-IsEmulator width terminal_discard_csi b _
      (emptied-IsEmulator terminal_discard_csi u.sequence_bytes u h)
overflow-IsEmulator width terminal_osc b u h =
    dispatch-IsEmulator width terminal_discard_osc b _
      (emptied-IsEmulator terminal_discard_osc u.sequence_bytes u h)
overflow-IsEmulator width terminal_dcs b u h =
    dispatch-IsEmulator width terminal_discard_dcs b _
      (emptied-IsEmulator terminal_discard_dcs u.sequence_bytes u h)
overflow-IsEmulator width terminal_string_escape b u h =
    dispatch-IsEmulator width terminal_discard_osc b _
      (emptied-IsEmulator terminal_discard_osc u.sequence_bytes u h)
overflow-IsEmulator width terminal_escape_intermediate b u h =
    emptied-IsEmulator terminal_ground u.sequence_bytes u h
overflow-IsEmulator width terminal_discard_csi b u h =
    emptied-IsEmulator terminal_ground u.sequence_bytes u h
overflow-IsEmulator width terminal_discard_osc b u h =
    emptied-IsEmulator terminal_ground u.sequence_bytes u h
overflow-IsEmulator width terminal_discard_dcs b u h =
    emptied-IsEmulator terminal_ground u.sequence_bytes u h

counted_escape-IsEmulator :
    (width : ℕ → ℕ) (b : ℕ) (u : Emulator) → IsEmulator u → IsEmulator (counted_escape width b u)
unfolding counted_escape
counted_escape-IsEmulator width b u h =
    let counted = record u { sequence_bytes = u.sequence_bytes + 1 } in
    let k = reset-IsEmulator u.state (u.sequence_bytes + 1) u h in
    branches IsEmulator (not (counts u.state)) _ _ (λ e. dispatch-IsEmulator width u.state b u h)
      (λ e.
        branches IsEmulator (ltb 4096 (u.sequence_bytes + 1)) _ _
          (λ m. overflow-IsEmulator width u.state b counted k)
          (λ m. dispatch-IsEmulator width u.state b counted k))

consume_escape_in-IsEmulator :
    (width : ℕ → ℕ) (st : TerminalState) (b : ℕ) (u : Emulator)
    → IsEmulator u
    → IsEmulator (consume_escape_in width st b u)
unfolding consume_escape_in string_escape_byte
consume_escape_in-IsEmulator width terminal_string_escape b u h =
    branches IsEmulator (b == b'\\') _ _ (λ e. set_state-IsEmulator terminal_ground u h)
      (λ e.
        branches IsEmulator (b == 0x1b) _ _ (λ k. reset-IsEmulator terminal_escape 0 u h)
          (λ k.
            counted_escape-IsEmulator width b (set_state terminal_escape u)
              (set_state-IsEmulator terminal_escape u h)))
consume_escape_in-IsEmulator width terminal_ground b u h = counted_escape-IsEmulator width b u h
consume_escape_in-IsEmulator width terminal_escape b u h = counted_escape-IsEmulator width b u h
consume_escape_in-IsEmulator width terminal_csi b u h = counted_escape-IsEmulator width b u h
consume_escape_in-IsEmulator width terminal_osc b u h = counted_escape-IsEmulator width b u h
consume_escape_in-IsEmulator width terminal_dcs b u h = counted_escape-IsEmulator width b u h
consume_escape_in-IsEmulator width terminal_escape_intermediate b u h =
    counted_escape-IsEmulator width b u h
consume_escape_in-IsEmulator width terminal_discard_csi b u h =
    counted_escape-IsEmulator width b u h
consume_escape_in-IsEmulator width terminal_discard_osc b u h =
    counted_escape-IsEmulator width b u h
consume_escape_in-IsEmulator width terminal_discard_dcs b u h =
    counted_escape-IsEmulator width b u h

pub consume_escape-IsEmulator :
    (width : ℕ → ℕ) (b : ℕ) (u : Emulator) → IsEmulator u → IsEmulator (consume_escape width b u)
unfolding consume_escape
consume_escape-IsEmulator width b u h = consume_escape_in-IsEmulator width u.state b u h

pub consume_control_or_rune-IsEmulator :
    (width : ℕ → ℕ) (ch : ℕ) (u : Emulator)
    → IsEmulator u
    → IsEmulator (consume_control_or_rune width ch u)
unfolding consume_control_or_rune
consume_control_or_rune-IsEmulator width ch u h =
    let plain = on_current (λ s. record s { join_next = false }) u in
    let k =
      on_current-IsEmulator (λ s. record s { join_next = false }) u h
        (λ s m.
          moved-IsScreen u.cols u.rows s.row s.col false s.pending_wrap s.faint s m m.row m.col) in
    branches IsEmulator (ch == 0x1b) _ _ (λ e. reset-IsEmulator terminal_escape 0 plain k)
      (λ e.
        on_current-IsEmulator (control_or_rune width plain.cols plain.rows ch) plain k
          (control_or_rune-IsScreen plain.cols plain.rows width ch))
