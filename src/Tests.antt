-- ===== src/Tests.antt =====
-- Concrete tasks, snapshots, queues and sessions, and the theorems at them.
mod Tasks
mod Snapshots
mod Locks
mod Terminals
mod Texts
mod Pushes
mod Queues
mod Sessions
mod Timeouts
mod Screens
mod Enforcements
