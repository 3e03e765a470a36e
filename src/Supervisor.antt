-- ===== src/Supervisor.antt =====
-- internal/supervisor: the managed sessions of the development CLI.
pub mod Restart
pub mod SendGate
pub mod Transition
pub mod Session
pub mod Terminal
pub mod Text
pub mod Gitops
pub mod Detect
