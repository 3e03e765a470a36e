-- ===== src/Lib.antt =====
-- codex-runner: a daemon that runs command-line tasks from a queue, and a supervisor of interactive
-- sessions. This library models the decisions of both: what a task, a snapshot, the queue, the
-- execution slots and a session become at every operation, and what is done when a task runs too long. Files, processes, goroutines and sockets
-- are left out; what a call to them returns is an argument where the modelled code reads it.
--
-- The parts, and how they meet:
--
--   Domain (internal/domain) has the task aggregate and its value objects. Domain/Task.antt is
--   task.go: one action for each method of `*Task`, over the record of its fields; the events that a
--   method returns are the action's result. Domain/Task/Operations.antt makes one type of the methods,
--   so that a history is a list. Domain/Snapshot.antt is tasksnapshot.go: `Validate` as the list of
--   its tests, `Restore`, `WithTask` and the snapshot of an admission. Domain/Enums, Domain/Values,
--   Domain/Identifiers and Domain/NormalizedPath are the files with the enumerations, the numbers
--   and the strings that these check.
--
--   Execution (internal/execution) decides who runs. Execution/Queue.antt is queue.go, over tasks of
--   the domain. Execution/Slots.antt is registry.go, launching.go, promotion.go and the use case admit.go
--   of internal/execution/usecase, and Execution/Slots/Promotion.antt the use case advance.go: the queue
--   and the three registries are one record, because both use cases hold the same mutex for their whole
--   run.
--
--   Execution/PathLocks.antt is internal/domain/pathlock.go and internal/execution/pathlock.go: the
--   paths that tasks own. The answers of the mutex, the liveness locks, the task store and the
--   failures of the lock store are the record `World`, an argument of every acquisition. `Release`
--   takes no mutex, so a world also names the tasks that release theirs meanwhile.
--
--   Execution/Ownership.antt is lifecycle_ownership.go: who may act on the life cycle of a task.
--   Execution/StallCheck.antt is the check of one task of usecase/stallcheck.go, over the task and its
--   snapshot of the domain; an instant there is a number of nanoseconds. Execution/Timeout.antt is the
--   `TimeoutWatcher` of timeout.go: `Arm`, the callbacks of its timers, `finishExecution`, `Disarm` and
--   `Close` are moves, each of them what one goroutine does under the lock, so that a list of moves is
--   an interleaving. Execution/Enforcement.antt is what a callback then executes, from the same file, and
--   Execution/Signalling.antt its signals, with internal/recovery/process_signal_authority.go: what the
--   stores, the processes and the other use cases answer is the record `TimeoutWorld`, and the result has
--   the list of what was done.
--
--   Supervisor (internal/supervisor) keeps interactive sessions. Supervisor/Transition.antt and
--   Supervisor/Session.antt are the state machine of session.go (`Transition` and
--   `TransitionWithError`, then `Apply`), Supervisor/Restart.antt is restart.go, and
--   Supervisor/SendGate.antt is sendgate.go.
--
--   Supervisor/Terminal is vterm.go, the terminal that the supervisor reads a session's screen from.
--   Grid is the cells, where an index out of range sets a flag instead of a panic; Screen is a screen
--   with its cursor; Params reads the numbers of a control sequence, and Csi does what its last byte
--   says; Emulator has both screens and the private modes, Escape is `consumeEscape` and
--   `consumeControlOrRune`, Utf8 the library's decoder, and Write the methods of `VirtualTerminal`.
--   The width of a rune is an argument. Supervisor/Text is textpolicy: Width has `RuneWidth` and the
--   search in the table of WideRanges, Words looks for a word in a text, Policy is `Classify` and
--   what is built on it, and Vocabulary its words. What Unicode says of a rune, NFKC and lower case
--   are the record `Unicode`, an argument. Supervisor/Gitops is what it may push: Push is `Evaluate`
--   and its stages over the answers that git gave, Names the tests of names, Argv the command line,
--   all from pushpolicy.go, and Porcelain is porcelain.go, where whether a path is owned is an argument.
--
--   Supervisor/Detect is the package detect with classifier.go. Patterns, Input and Recommendation read
--   the rows of a screen, which the terminal gives; Composite has the detectors and the rules in their
--   order, whose result is an event for a session. The loops over the rows keep their direction.
--
-- Conventions. A Go string is the list of its bytes (in the terminal's cells and in the text policy, of
-- its runes), and a string type with constants is a data type with a constructor `other` for every other
-- string. `int` is an integer of any size: the modelled code only compares it, and the terminal adds at
-- most 65535, the largest number of a control sequence, to a row or a column. Where no negative number
-- passes, as for the version of a snapshot, it is a natural number. The counters of lease and of timer
-- generations are `uint64` and wrap. An instant is a
-- number of ticks since Go's zero time, a duration a number of nanoseconds. Differences of instants
-- are compared with small durations only, and the doubling of the restart delay stops at a cap far
-- below the range. A pointer is an `Option`; a Go map is an association list; a panic is the
-- error `panicked`. A method that changes its receiver is an action `Exec E S A`, which gives the
-- state back beside an error too. Loops run over lists, or over the count that bounds them; the binary
-- search in the table of wide runes runs on fuel, one round for each range of the table, and that is
-- enough because the distance of its bounds shrinks in each round; so does the search for the working
-- row, one round for each row of the screen, since each of its rounds goes up by one row at least.
--
-- Standard library: regular expressions are the matchers that they stand for (those that a pattern set
-- may hold are an argument), `time.Parse` the ranges
-- that it checks in the two layouts used, `filepath.Clean` what it does to an absolute Unix path.
-- `context.Context` is a function that says at which of its readings it is done.
--
-- Not modelled: launching of processes, following of their output, worktrees, the stores and their files, the
-- transports, recovery at start-up, the supervisor's sends and its use cases,
-- configuration and metrics. Their decisions need models of files, time and processes that are not
-- here.
pub mod Prelude
pub mod Domain
pub mod Execution
pub mod Supervisor
mod Tests
