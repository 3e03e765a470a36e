-- ===== src/Prelude/Int.antt =====
-- Go's `int` where negative values matter: exit codes, process ids, requested timeouts.
use Prim.Native.Nat.{ℕ}
use mathlib.Core.Bool.{Bool, true, false}
use codex_runner.Prelude.Tests.{ltb, ◌==◌}

-- `negsuc n` is -(n + 1).
pub data ℤ : Type 0 where
  pos : ℕ → ℤ
  negsuc : ℕ → ℤ

-- `a < n` for a bound n that is not negative.
abbrev pub below : ℤ → ℕ → Bool
below (pos a) n = ltb a n
below (negsuc a) n = true

-- `a == n` for a numeral n that is not negative.
abbrev pub is_nat : ℤ → ℕ → Bool
is_nat (pos a) n = a == n
is_nat (negsuc a) n = false
