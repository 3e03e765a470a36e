-- ===== src/Supervisor/Terminal/Emulator/Bounds.antt =====
-- Both screens stay in their bounds, also when the terminal switches between them.
use codex_runner.Prelude.{
  ℕ, ◌≤◌, Bool, not, ◌&&◌, ◌||◌, List, [], ◌∷◌, length, ◌==◌, Text, arith, branches,
}
use codex_runner.Supervisor.Terminal.Screen.{TerminalScreen, new_screen, erase_line, erase_display}
use codex_runner.Supervisor.Terminal.Screen.Bounds.{
  IsScreen, moved-IsScreen, new_screen-IsScreen, erase_line-IsScreen, erase_display-IsScreen,
  save_cursor-IsScreen, restore_cursor-IsScreen,
}
use codex_runner.Supervisor.Terminal.Params.{parse_terminal_params, private_erase_mode, malformed}
use codex_runner.Supervisor.Terminal.Csi.{execute_final}
use codex_runner.Supervisor.Terminal.Csi.Bounds.{execute_final-IsScreen}
use codex_runner.Supervisor.Terminal.Emulator.{
  TerminalState, Emulator, current_screen, on_current, set_private_mode, set_private_modes,
  private_mode, execute_private, execute_public, execute_csi,
}

pub record IsEmulator (u : Emulator) : Type 0 where
  pub primary : IsScreen u.cols u.rows u.primary
  pub alternate : IsScreen u.cols u.rows u.alternate
  pub sequence : length u.sequence ≤ 4096

pub current_screen-IsScreen :
    (u : Emulator) → IsEmulator u → IsScreen u.cols u.rows (current_screen u)
current_screen-IsScreen u h =
    branches (IsScreen u.cols u.rows) u.use_alternate _ _ (λ e. h.alternate) (λ e. h.primary)

pub on_current-IsEmulator :
    (f : TerminalScreen → TerminalScreen) (u : Emulator)
    → IsEmulator u
    → ((s : TerminalScreen) → IsScreen u.cols u.rows s → IsScreen u.cols u.rows (f s))
    → IsEmulator (on_current f u)
on_current-IsEmulator f u h k =
    branches IsEmulator u.use_alternate _ _
      (λ e. record {
        primary = h.primary;
        alternate = k u.alternate h.alternate;
        sequence = h.sequence;
      })
      (λ e. record {
        primary = k u.primary h.primary;
        alternate = h.alternate;
        sequence = h.sequence;
      })

-- A change of the state alone, with or without the text.
pub entered-IsEmulator :
    (st : TerminalState) (text : Text) (n : ℕ) (u : Emulator)
    → IsEmulator u
    → length text ≤ 4096
    → IsEmulator (record u { state = st; sequence = text; sequence_bytes = n })
entered-IsEmulator st text n u h l = record {
  primary = h.primary;
  alternate = h.alternate;
  sequence = l;
}

pub fresh-IsScreen :
    (u : Emulator) → IsEmulator u → IsScreen u.cols u.rows (new_screen u.cols u.rows)
fresh-IsScreen u h =
    new_screen-IsScreen u.cols u.rows (omega (arith, h.primary.col)) (omega (arith, h.primary.row))

faint-IsScreen :
    (cols rows : ℕ) (f : Bool) (s : TerminalScreen)
    → IsScreen cols rows s
    → IsScreen cols rows (record s { faint = f })
faint-IsScreen cols rows f s h =
    moved-IsScreen cols rows s.row s.col s.join_next s.pending_wrap f s h h.row h.col

set_private_mode-IsEmulator :
    (enable : Bool) (p : ℕ) (u : Emulator) → IsEmulator u → IsEmulator (set_private_mode enable p u)
unfolding set_private_mode
set_private_mode-IsEmulator enable p u h =
    let Q = IsScreen u.cols u.rows in
    let left = faint-IsScreen u.cols u.rows u.alternate.faint u.primary h.primary in
    branches IsEmulator (not (p == 47 || p == 1047 || p == 1049)) _ _ (λ e. h)
      (λ e.
        branches IsEmulator (enable && not u.use_alternate) _ _
          (λ k. record {
            primary =
                branches Q (p == 1049) _ _
                  (λ m. save_cursor-IsScreen u.cols u.rows u.primary h.primary) (λ m. h.primary);
            alternate = faint-IsScreen u.cols u.rows _ _ (
                branches Q (p == 1049 || p == 1047) _ _ (λ m. fresh-IsScreen u h)
                  (λ m. h.alternate));
            sequence = h.sequence;
          })
          (λ k.
            branches IsEmulator (not enable && u.use_alternate) _ _
              (λ m. record {
                primary =
                    branches Q (p == 1049) _ _ (λ i. restore_cursor-IsScreen u.cols u.rows _ left)
                      (λ i. left);
                alternate = h.alternate;
                sequence = h.sequence;
              })
              (λ m. h)))

set_private_modes-IsEmulator :
    (enable : Bool) (ps : List ℕ) (u : Emulator)
    → IsEmulator u
    → IsEmulator (set_private_modes enable ps u)
unfolding set_private_modes
set_private_modes-IsEmulator enable [] u h = h
set_private_modes-IsEmulator enable (p ∷ ps) u h =
    set_private_modes-IsEmulator enable ps (set_private_mode enable p u)
      (set_private_mode-IsEmulator enable p u h)

private_mode-IsEmulator :
    (final : ℕ) (raw : Text) (u : Emulator) → IsEmulator u → IsEmulator (private_mode final raw u)
unfolding private_mode
private_mode-IsEmulator final raw u h =
    branches IsEmulator (not (final == b'h') && not (final == b'l')) _ _ (λ e. h)
      (λ e. set_private_modes-IsEmulator (final == b'h') (parse_terminal_params raw) u h)

execute_private-IsEmulator :
    (final : ℕ) (raw : Text) (u : Emulator)
    → IsEmulator u
    → IsEmulator (execute_private final raw u)
unfolding execute_private
execute_private-IsEmulator final raw u h =
    branches IsEmulator (final == b'J') _ _
      (λ e.
        on_current-IsEmulator (erase_display u.cols u.rows (private_erase_mode raw)) u h
          (erase_display-IsScreen u.cols u.rows (private_erase_mode raw)))
      (λ e.
        branches IsEmulator (final == b'K') _ _
          (λ k.
            on_current-IsEmulator (erase_line u.cols (private_erase_mode raw)) u h
              (erase_line-IsScreen u.cols u.rows (private_erase_mode raw)))
          (λ k. private_mode-IsEmulator final raw u h))

execute_public-IsEmulator :
    (width : ℕ → ℕ) (final : ℕ) (raw : Text) (u : Emulator)
    → IsEmulator u
    → IsEmulator (execute_public width final raw u)
execute_public-IsEmulator width final raw u h =
    branches IsEmulator (malformed raw) _ _ (λ e. h)
      (λ e.
        on_current-IsEmulator (execute_final width u.cols u.rows final raw) u h
          (execute_final-IsScreen u.cols u.rows width final raw))

pub execute_csi-IsEmulator :
    (width : ℕ → ℕ) (final : ℕ) (raw : Text) (u : Emulator)
    → IsEmulator u
    → IsEmulator (execute_csi width final raw u)
unfolding execute_csi
execute_csi-IsEmulator width final [] u h = execute_public-IsEmulator width final [] u h
execute_csi-IsEmulator width final (c ∷ raw) u h =
    branches IsEmulator (c == b'?') _ _ (λ e. execute_private-IsEmulator final raw u h)
      (λ e.
        branches IsEmulator (c == b'>' || c == b'<' || c == b'=' || c == b'!') _ _ (λ k. h)
          (λ k. execute_public-IsEmulator width final (c ∷ raw) u h))
