-- ===== src/Supervisor/Terminal/Emulator/Alternate.antt =====
-- The alternate screen of mode 1049 leaves the primary one as it was.
use codex_runner.Prelude.{ℕ, ◌-◌, ◌<◌, ◌≡◌, min, true, false, arith}
use codex_runner.Supervisor.Terminal.Screen.{TerminalScreen, save_cursor}
use codex_runner.Supervisor.Terminal.Emulator.{Emulator, set_private_mode}
use codex_runner.Supervisor.Terminal.Emulator.Bounds.{IsEmulator}

clamped : (n high : ℕ) → n < high → min n (high - 1) ≡ n
clamped n high l = omega arith

-- Mode 1049 set on the primary screen, and reset after whatever happened to the alternate screen:
-- the primary screen is back with its cells, its cursor, its scroll region and its faint attribute,
-- and the only change to it is that its cursor is now the saved one.
pub alternate-restores :
    (u : Emulator) (other : TerminalScreen)
    → IsEmulator u
    → u.use_alternate ≡ false
    → set_private_mode false 1049 (record (set_private_mode true 1049 u) { alternate = other })
      ≡ record u { primary = save_cursor u.primary; alternate = other }
unfolding set_private_mode
alternate-restores u other h primary = simp (
  primary,
  clamped u.primary.row u.rows h.primary.row,
  clamped u.primary.col u.cols h.primary.col,
)
