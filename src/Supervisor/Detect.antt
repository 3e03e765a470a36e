-- ===== src/Supervisor/Detect.antt =====
-- internal/supervisor/detect and internal/supervisor/classifier.go: what the state of a managed session
-- is, read off its screen. A row is the list of its runes.
pub mod Patterns
pub mod Input
pub mod Recommendation
pub mod Composite
