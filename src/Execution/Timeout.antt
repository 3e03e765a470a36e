-- ===== src/Execution/Timeout.antt =====
-- internal/execution/timeout.go: the timers that put an end to tasks which run too long. A timer's
-- callback runs in its own time, so the watcher is a state with its callbacks, which moves by steps:
-- each step is what one goroutine does while it holds the lock.
pub mod Counting
pub mod Invariant
pub mod Allowance
pub mod Attempts
pub mod Cancellable
pub mod Held
pub mod Closing
pub mod Draining
use codex_runner.Prelude.{
  ℕ, zero, suc, ◌+◌, ◌-◌, ◌≡◌, Bool, true, false, not, ◌&&◌, ◌||◌, List, [], ◌∷◌, Option, none,
  some, Text, text_eq, leb, ◌==◌, if◌then◌else◌,
}
use codex_runner.Prelude.Dict.{Dict, get, put}
use Prim.Native.Nat.{◌^◌, ◌%◌}

-- `timeoutEnforcementRetryMaxAttempts`
abbrev pub retry_max_attempts : ℕ
retry_max_attempts = 6

-- `timer` names the callback that `cancel` stops. A deadline is in nanoseconds.
pub record ArmedTimer : Type 0 where
  pub timer : ℕ
  pub deadline : ℕ
  pub resolved_timeout_seconds : ℕ
  pub generation : ℕ
  pub lifecycle_generation : ℕ
  pub retry_attempts : ℕ
  pub executing : Bool

-- What `AfterFunc` was given: it waits for its time, it has begun and waits for the lock, or it
-- enforces the timeout.
pub data Phase : Type 0 where
  scheduled : Phase
  fired : Phase
  enforcing : Phase

pub record TimerCallback : Type 0 where
  pub callback_timer : ℕ
  pub callback_task : Text
  pub callback_generation : ℕ
  pub phase : Phase

-- `EnforceTaskTimeoutInput`, with the generation of the timer that it comes from
pub record Attempt : Type 0 where
  pub attempt_task : Text
  pub attempt_timer : ℕ
  pub attempt_seconds : ℕ
  pub attempt_lifecycle : ℕ

-- `callbacks` are those that the wait group counts. `attempts` is the history of the calls of
-- `enforce.Execute`, the last one first.
pub record TimeoutWatcher : Type 0 where
  pub timers : Dict ArmedTimer
  pub next_generation : ℕ
  pub is_closed : Bool
  pub next_timer : ℕ
  pub callbacks : List TimerCallback
  pub attempts : List Attempt

-- `TimeoutEnforcementError`, any other error, and success
pub data Enforcement : Type 0 where
  enforced : Enforcement
  enforcement_failed : (retryable : Bool) → Enforcement
  other_failure : Enforcement

unfoldable pub new_timeout_watcher : TimeoutWatcher
new_timeout_watcher = record {
  timers = [];
  next_generation = 0;
  is_closed = false;
  next_timer = 0;
  callbacks = [];
  attempts = [];
}

-- `delete` on the Go map
unfoldable pub without_timer : Text → Dict ArmedTimer → Dict ArmedTimer
without_timer task [] = []
without_timer task ((t, a) ∷ timers) =
    let rest = without_timer task timers in if text_eq t task then rest else (t, a) ∷ rest

abbrev is_scheduled : Phase → Bool
is_scheduled scheduled = true
is_scheduled fired = false
is_scheduled enforcing = false

-- `cancel`: a callback that has not begun never will, and counts as finished.
unfoldable pub cancel_timer : ℕ → List TimerCallback → List TimerCallback
cancel_timer timer [] = []
cancel_timer timer (c ∷ callbacks) =
    let rest = cancel_timer timer callbacks in
    if c.callback_timer == timer && is_scheduled c.phase then rest else c ∷ rest

abbrev cancel_armed : Option ArmedTimer → List TimerCallback → List TimerCallback
cancel_armed none callbacks = callbacks
cancel_armed (some a) callbacks = cancel_timer a.timer callbacks

-- `w.nextGeneration++`, on a `uint64`
abbrev pub following : ℕ → ℕ
following g = (g + 1) % 2 ^ 64

unfoldable pub arm : Text → ℕ → ℕ → ℕ → TimeoutWatcher → TimeoutWatcher
unfolding get put cancel_timer
arm task deadline seconds lifecycle w = if w.is_closed then w else record w {
  timers =
      put task
        (record {
          timer = w.next_timer;
          deadline = deadline;
          resolved_timeout_seconds = seconds;
          generation = following w.next_generation;
          lifecycle_generation = lifecycle;
          retry_attempts = 0;
          executing = false;
        })
        w.timers;
  next_generation = following w.next_generation;
  next_timer = w.next_timer + 1;
  callbacks =
      record {
        callback_timer = w.next_timer;
        callback_task = task;
        callback_generation = following w.next_generation;
        phase = scheduled;
      }
      ∷ cancel_armed (get task w.timers) w.callbacks;
}

unfoldable pub disarm : Text → TimeoutWatcher → TimeoutWatcher
unfolding get cancel_timer without_timer
disarm task w = record w {
  callbacks = cancel_armed (get task w.timers) w.callbacks;
  timers = without_timer task w.timers;
}

unfoldable pub cancel_all : Dict ArmedTimer → List TimerCallback → List TimerCallback
unfolding cancel_timer
cancel_all [] callbacks = callbacks
cancel_all ((t, a) ∷ timers) callbacks = cancel_all timers (cancel_timer a.timer callbacks)

-- `Close` up to the wait for the callbacks
unfoldable pub close_watcher : TimeoutWatcher → TimeoutWatcher
unfolding cancel_all
close_watcher w =
    if w.is_closed
    then w
    else record w { is_closed = true; callbacks = cancel_all w.timers w.callbacks; timers = [] }

-- The callback at a place, and the others.
unfoldable pub pick : ℕ → List TimerCallback → Option (TimerCallback × List TimerCallback)
pick i [] = none
pick zero (c ∷ callbacks) = some (c, callbacks)
pick (suc i) (c ∷ callbacks) = elim (pick i callbacks) [
  | none ↦ none
  | some (d, rest) ↦ some (d, c ∷ rest)
]

-- The time of a callback has come.
abbrev fire_one : TimerCallback → List TimerCallback → Phase → TimeoutWatcher → TimeoutWatcher
fire_one c rest scheduled w = record w { callbacks = record c { phase = fired } ∷ rest }
fire_one c rest fired w = w
fire_one c rest enforcing w = w

abbrev fire_picked : Option (TimerCallback × List TimerCallback) → TimeoutWatcher → TimeoutWatcher
fire_picked none w = w
fire_picked (some (c, rest)) w = fire_one c rest c.phase w

unfoldable pub fire : ℕ → TimeoutWatcher → TimeoutWatcher
unfolding pick
fire i w = fire_picked (pick i w.callbacks) w

-- A callback under the lock: it gives up, or it marks its timer and goes on to enforce the timeout.
unfoldable pub begin_with : TimerCallback → Option ArmedTimer → TimeoutWatcher → TimeoutWatcher
unfolding put
begin_with c none w = w
begin_with c (some a) w =
    if not (a.generation == c.callback_generation)
    then w
    else if a.executing || w.is_closed
    then w
    else record w {
      timers = put c.callback_task (record a { executing = true }) w.timers;
      callbacks = record c { phase = enforcing } ∷ w.callbacks;
      attempts =
          record {
            attempt_task = c.callback_task;
            attempt_timer = c.callback_generation;
            attempt_seconds = a.resolved_timeout_seconds;
            attempt_lifecycle = a.lifecycle_generation;
          }
          ∷ w.attempts;
    }

abbrev begin_one : TimerCallback → List TimerCallback → Phase → TimeoutWatcher → TimeoutWatcher
begin_one c rest scheduled w = w
begin_one c rest fired w =
    begin_with c (get c.callback_task w.timers) (record w { callbacks = rest })
begin_one c rest enforcing w = w

abbrev begin_picked : Option (TimerCallback × List TimerCallback) → TimeoutWatcher → TimeoutWatcher
begin_picked none w = w
begin_picked (some (c, rest)) w = begin_one c rest c.phase w

unfoldable pub begin : ℕ → TimeoutWatcher → TimeoutWatcher
unfolding pick begin_with get
begin i w = begin_picked (pick i w.callbacks) w

abbrev may_retry : Enforcement → Bool
may_retry enforced = false
may_retry (enforcement_failed retryable) = retryable
may_retry other_failure = false

-- `finishExecution`, on the entry of the task
unfoldable pub finish_with :
    Text → ℕ → Enforcement → Option ArmedTimer → TimeoutWatcher → TimeoutWatcher
unfolding put without_timer
finish_with task generation result none w = w
finish_with task generation result (some a) w =
    if not (a.generation == generation)
    then w
    else if w.is_closed || not (may_retry result)
    then record w { timers = without_timer task w.timers }
    else if leb retry_max_attempts a.retry_attempts
    then record w { timers = without_timer task w.timers }
    else record w {
      timers =
          put task
            (record a {
              retry_attempts = a.retry_attempts + 1;
              executing = false;
              timer = w.next_timer;
            })
            w.timers;
      next_timer = w.next_timer + 1;
      callbacks =
          record {
            callback_timer = w.next_timer;
            callback_task = task;
            callback_generation = generation;
            phase = scheduled;
          }
          ∷ w.callbacks;
    }

unfoldable pub finish_execution : Text → ℕ → Enforcement → TimeoutWatcher → TimeoutWatcher
unfolding get finish_with
finish_execution task generation result w = finish_with task generation result (get task w.timers) w

abbrev finish_one :
    TimerCallback → List TimerCallback → Enforcement → Phase → TimeoutWatcher → TimeoutWatcher
finish_one c rest result scheduled w = w
finish_one c rest result fired w = w
finish_one c rest result enforcing w =
    finish_execution c.callback_task c.callback_generation result (record w { callbacks = rest })

abbrev finish_picked :
    Option (TimerCallback × List TimerCallback) → Enforcement → TimeoutWatcher → TimeoutWatcher
finish_picked none result w = w
finish_picked (some (c, rest)) result w = finish_one c rest result c.phase w

-- The enforcement has come back with a result.
unfoldable pub finish : ℕ → Enforcement → TimeoutWatcher → TimeoutWatcher
unfolding pick finish_execution
finish i result w = finish_picked (pick i w.callbacks) result w

-- What callers, the clock and the callbacks do, in the order in which they hold the lock.
pub data WatcherMove : Type 0 where
  arms : (task : Text) → (deadline seconds lifecycle : ℕ) → WatcherMove
  disarms : Text → WatcherMove
  closes : WatcherMove
  fires : ℕ → WatcherMove
  begins : ℕ → WatcherMove
  finishes : ℕ → Enforcement → WatcherMove

unfoldable pub make_move : WatcherMove → TimeoutWatcher → TimeoutWatcher
unfolding arm disarm close_watcher fire begin finish
make_move (arms task deadline seconds lifecycle) w = arm task deadline seconds lifecycle w
make_move (disarms task) w = disarm task w
make_move closes w = close_watcher w
make_move (fires i) w = fire i w
make_move (begins i) w = begin i w
make_move (finishes i result) w = finish i result w

unfoldable pub make_moves : List WatcherMove → TimeoutWatcher → TimeoutWatcher
unfolding make_move
make_moves [] w = w
make_moves (m ∷ moves) w = make_moves moves (make_move m w)
