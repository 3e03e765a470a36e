-- ===== src/Domain.antt =====
-- internal/domain: the task aggregate, its value objects and its persisted snapshot.
pub mod Enums
pub mod Values
pub mod Identifiers
pub mod NormalizedPath
pub mod Task
pub mod Snapshot
