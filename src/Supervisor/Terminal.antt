-- ===== src/Supervisor/Terminal.antt =====
-- internal/supervisor/vterm.go: the virtual terminal.
pub mod Grid
pub mod Screen
pub mod Params
pub mod Csi
pub mod Emulator
pub mod Escape
pub mod Utf8
pub mod Write
