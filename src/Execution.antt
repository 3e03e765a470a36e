-- ===== src/Execution.antt =====
-- internal/execution: the waiting queue, the execution slots, the path locks, the stalled tasks, who owns a
-- life cycle, and the timeouts with what enforces them.
pub mod Ownership
pub mod PathLocks
pub mod Queue
pub mod Slots
pub mod StallCheck
pub mod Timeout
pub mod Signalling
pub mod Enforcement
