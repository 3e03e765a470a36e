-- ===== src/Domain/Task/History.antt =====
-- The events that a history of operations emits.
use codex_runner.Prelude.{
  ◌≡◌, ◌+◌, Bool, true, false, List, [], ◌∷◌, ◌++◌, ℕ, Result, ok, err, arith, if◌then◌else◌,
}
use codex_runner.Domain.Enums.{terminal}
use codex_runner.Domain.Values.{Err}
use codex_runner.Domain.Task.{Task}
use codex_runner.Domain.Task.Events.{Event}
use codex_runner.Domain.Task.Operations.{Op, perform, run}

-- The events that report the end of a task to its observers.
abbrev pub is_final : Event → Bool
is_final (Event.completed id code at) = true
is_final (Event.failed id code reason at) = true
is_final (Event.recovery_succeeded id code at) = true
is_final (Event.recovery_failed id origin partial at) = true
is_final (Event.killed id code estimated at) = true
is_final _ = false

abbrev pub emitted : Result Err (List Event) → List Event
emitted (ok events) = events
emitted (err e) = []

abbrev bit : Bool → ℕ
bit b = if b then 1 else 0

abbrev pub count_final : List Event → ℕ
count_final [] = 0
count_final (e ∷ es) = bit (is_final e) + count_final es

unfoldable pub history : Task → List Op → List Event
history t [] = []
history t (op ∷ ops) = emitted (perform op t).0 ++ history (perform op t).1 ops

count_final-append : (xs ys : List Event) → count_final (xs ++ ys) ≡ count_final xs + count_final ys
count_final-append [] ys = omega arith
count_final-append (x ∷ xs) ys = omega (arith, count_final-append xs ys)

perform-final :
    (op : Op) (t : Task)
    → count_final (emitted (perform op t).0) + bit (terminal t.state)
      ≡ bit (terminal (perform op t).1.state)
unfolding perform
perform-final (Op.adopt true at) t = ground arith
perform-final (Op.adopt false at) t = ground arith
perform-final _ t = ground arith

-- Over any history, the number of final events that were emitted says exactly whether the task has
-- become terminal. A task that is not terminal at first emits none while it lives, and one, never
-- two, once it has ended; a terminal one emits none.
pub history-final :
    (t : Task) (ops : List Op)
    → count_final (history t ops) + bit (terminal t.state) ≡ bit (terminal (run t ops).state)
unfolding history run
history-final t [] = omega arith
history-final t (op ∷ ops) = omega (
  arith,
  count_final-append (emitted (perform op t).0) (history (perform op t).1 ops),
  perform-final op t,
  history-final (perform op t).1 ops,
)
