-- ===== src/Supervisor/Gitops.antt =====
-- internal/supervisor/gitops: what the supervisor may push, and how it reads the state of a work tree.
pub mod Names
pub mod Push
pub mod Argv
pub mod Porcelain
