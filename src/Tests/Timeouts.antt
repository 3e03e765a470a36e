-- ===== src/Tests/Timeouts.antt =====
-- The timeout watcher at concrete moves.
use codex_runner.Prelude.{◌+◌, ◌≤◌, ◌≡◌, refl, true, List, [], ◌∷◌, Text, text, arith}
use codex_runner.Execution.Timeout.{
  WatcherMove, arms, closes, fires, begins, finishes, enforced, enforcement_failed,
  new_timeout_watcher, make_moves, retry_max_attempts,
}
use codex_runner.Execution.Timeout.Counting.{live, attempts_of}
use codex_runner.Execution.Timeout.Invariant.{live-make_moves}
use codex_runner.Execution.Timeout.Attempts.{attempts_of-make_moves}
use codex_runner.Execution.Timeout.Closing.{NoneWaits}
use codex_runner.Execution.Timeout.Draining.{settle, attempts-make_moves, settle-make_moves}

abbrev task : Text
task = text "t"

-- The second attempt follows a failure that allows it.
abbrev retried : List WatcherMove
retried =
    arms task 9 60 1
    ∷ fires 0
    ∷ begins 0
    ∷ finishes 0 (enforcement_failed true)
    ∷ fires 0
    ∷ begins 0
    ∷ []

abbrev closed_early : List WatcherMove
closed_early = arms task 9 60 1 ∷ fires 0 ∷ closes ∷ []

two_attempts : attempts_of task 1 (make_moves retried new_timeout_watcher).attempts ≡ 2
unfolding make_moves new_timeout_watcher attempts_of
two_attempts = refl

attempts_of-make_moves_example :
    attempts_of task 1 (make_moves retried new_timeout_watcher).attempts ≤ retry_max_attempts + 1
attempts_of-make_moves_example = attempts_of-make_moves retried task 1 (omega arith)

live-make_moves_example : live 1 (make_moves retried new_timeout_watcher).callbacks ≤ 1
live-make_moves_example = live-make_moves retried 1 (omega arith)

attempts-make_moves_example :
    (make_moves (begins 0 ∷ []) (make_moves closed_early new_timeout_watcher)).attempts
    ≡ (make_moves closed_early new_timeout_watcher).attempts
unfolding make_moves new_timeout_watcher
attempts-make_moves_example = attempts-make_moves closed_early (begins 0 ∷ []) (omega arith) refl

settle-make_moves_example :
    NoneWaits (make_moves closed_early new_timeout_watcher).callbacks
    × ((settle (enforced ∷ []) (make_moves closed_early new_timeout_watcher)).callbacks ≡ [])
unfolding make_moves new_timeout_watcher
settle-make_moves_example = settle-make_moves closed_early (enforced ∷ []) (omega arith) refl refl
