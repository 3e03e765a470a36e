-- ===== src/Supervisor/Text.antt =====
-- internal/supervisor/textpolicy: the width of a rune, and the words that a proposal must not hold.
pub mod WideRanges
pub mod Width
pub mod Words
pub mod Policy
pub mod Vocabulary
