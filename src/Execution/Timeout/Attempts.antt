-- ===== src/Execution/Timeout/Attempts.antt =====
-- How often one arming of a timer leads to an enforcement of the timeout.
use codex_runner.Prelude.{
  ℕ, ◌+◌, ◌≤◌, ◌<◌, ◌≡◌, refl, not, ◌||◌, List, Option, none, some, Text, length, leb, ◌==◌, arith,
  branches,
}
use Prim.Native.Nat.{◌^◌}
use codex_runner.Prelude.Dict.{get}
use codex_runner.Execution.Timeout.{
  ArmedTimer, TimerCallback, TimeoutWatcher, Enforcement, WatcherMove, arms, disarms, closes, fires,
  begins, finishes, Phase, scheduled, fired, enforcing, new_timeout_watcher, pick, disarm,
  close_watcher, fire_one, fire_picked, begin_with, begin_one, begin_picked, finish_with,
  finish_execution, finish_one, finish_picked, make_move, make_moves, may_retry, retry_max_attempts,
}
use codex_runner.Execution.Timeout.Counting.{attempts_of}
use codex_runner.Execution.Timeout.Invariant.{make_moves-inv, new_bound}
use codex_runner.Execution.Timeout.Allowance.{
  Entries-put, Entries-without, IsCounted, Same-IsCounted, arm-IsCounted, Allowed-again,
  begun-IsCounted,
}

module _ (c : TimerCallback) (rest : List TimerCallback) (w : TimeoutWatcher) where
  fewer_callbacks : IsCounted w → IsCounted (record w { callbacks = rest })
  fewer_callbacks s = Same-IsCounted w (record w { callbacks = rest }) refl refl s.entries s

  begin_with-IsCounted :
      (o : Option ArmedTimer)
      → get c.callback_task w.timers ≡ o
      → IsCounted w
      → IsCounted (begin_with c o (record w { callbacks = rest }))
  unfolding begin_with
  begin_with-IsCounted none e s = fewer_callbacks s
  begin_with-IsCounted (some a) e s =
      branches IsCounted (not (a.generation == c.callback_generation)) _ _ (λ h. fewer_callbacks s)
        (λ h.
          branches IsCounted (a.executing || w.is_closed) _ _ (λ k. fewer_callbacks s)
            (λ k. begun-IsCounted w _ a _ (ground arith) (ground arith) e s))

  finish_with-IsCounted :
      (result : Enforcement) (o : Option ArmedTimer)
      → get c.callback_task w.timers ≡ o
      → IsCounted w
      → IsCounted (
          finish_with c.callback_task c.callback_generation result o
            (record w { callbacks = rest }))
  unfolding finish_with
  finish_with-IsCounted result none e s = fewer_callbacks s
  finish_with-IsCounted result (some a) e s =
      let gone = Entries-without w.next_generation w.attempts w.timers c.callback_task s.entries in
      branches IsCounted (not (a.generation == c.callback_generation)) _ _ (λ h. fewer_callbacks s)
        (λ h.
          branches IsCounted (w.is_closed || not (may_retry result)) _ _
            (λ k. Same-IsCounted w _ refl refl gone s)
            (λ k.
              branches IsCounted (leb retry_max_attempts a.retry_attempts) _ _
                (λ l. Same-IsCounted w _ refl refl gone s)
                (λ l.
                  Same-IsCounted w _ refl refl
                    (Entries-put w.next_generation w.attempts w.timers c.callback_task _ s.entries (
                      Allowed-again w.next_generation w.attempts c.callback_task a w.next_timer l
                        (s.entries c.callback_task a e)))
                    s)))

  begin_one-IsCounted : (p : Phase) → IsCounted w → IsCounted (begin_one c rest p w)
  begin_one-IsCounted scheduled s = s
  begin_one-IsCounted fired s = begin_with-IsCounted (get c.callback_task w.timers) refl s
  begin_one-IsCounted enforcing s = s

  fire_one-IsCounted : (p : Phase) → IsCounted w → IsCounted (fire_one c rest p w)
  fire_one-IsCounted scheduled s = Same-IsCounted w _ refl refl s.entries s
  fire_one-IsCounted fired s = s
  fire_one-IsCounted enforcing s = s

  finish_one-IsCounted :
      (result : Enforcement) (p : Phase) → IsCounted w → IsCounted (finish_one c rest result p w)
  unfolding finish_execution
  finish_one-IsCounted result scheduled s = s
  finish_one-IsCounted result fired s = s
  finish_one-IsCounted result enforcing s =
      finish_with-IsCounted result (get c.callback_task w.timers) refl s

module _ (w : TimeoutWatcher) where
  begin_picked-IsCounted :
      (o : Option (TimerCallback × List TimerCallback)) → IsCounted w → IsCounted (begin_picked o w)
  begin_picked-IsCounted none s = s
  begin_picked-IsCounted (some (c, rest)) s = begin_one-IsCounted c rest w c.phase s

  fire_picked-IsCounted :
      (o : Option (TimerCallback × List TimerCallback)) → IsCounted w → IsCounted (fire_picked o w)
  fire_picked-IsCounted none s = s
  fire_picked-IsCounted (some (c, rest)) s = fire_one-IsCounted c rest w c.phase s

  finish_picked-IsCounted :
      (o : Option (TimerCallback × List TimerCallback)) (result : Enforcement)
      → IsCounted w
      → IsCounted (finish_picked o result w)
  finish_picked-IsCounted none result s = s
  finish_picked-IsCounted (some (c, rest)) result s = finish_one-IsCounted c rest w result c.phase s

  close-IsCounted : IsCounted w → IsCounted (close_watcher w)
  unfolding close_watcher get
  close-IsCounted s =
      branches IsCounted w.is_closed _ _ (λ h. s)
        (λ h. Same-IsCounted w _ refl refl (λ t a e. cc) s)

pub make_move-IsCounted :
    (m : WatcherMove) (w : TimeoutWatcher)
    → w.next_generation + 1 < 2 ^ 64
    → IsCounted w
    → IsCounted (make_move m w)
unfolding make_move
make_move-IsCounted (arms task deadline seconds lifecycle) w bound s =
    arm-IsCounted task deadline seconds lifecycle w bound s
make_move-IsCounted (disarms task) w bound s =
    Same-IsCounted w (disarm task w) refl refl
      (Entries-without w.next_generation w.attempts w.timers task s.entries) s
make_move-IsCounted closes w bound s = close-IsCounted w s
make_move-IsCounted (fires i) w bound s = fire_picked-IsCounted w (pick i w.callbacks) s
make_move-IsCounted (begins i) w bound s = begin_picked-IsCounted w (pick i w.callbacks) s
make_move-IsCounted (finishes i result) w bound s =
    finish_picked-IsCounted w (pick i w.callbacks) result s

new-IsCounted : IsCounted new_timeout_watcher
unfolding new_timeout_watcher get attempts_of
new-IsCounted = record {
  entries = λ t a e. cc;
  unused = λ t g l. refl;
  bounded = λ t g. omega arith;
}

-- After any moves of a new watcher, fewer than 2^64, one arming of a task's timer has led to at most
-- seven enforcements of the timeout, whatever their results: the first and six retries.
pub attempts_of-make_moves :
    (moves : List WatcherMove) (task : Text) (g : ℕ)
    → length moves < 2 ^ 64
    → attempts_of task g (make_moves moves new_timeout_watcher).attempts ≤ retry_max_attempts + 1
attempts_of-make_moves moves task g bound =
    let counted =
      make_moves-inv IsCounted make_move-IsCounted moves new_timeout_watcher (new_bound moves bound)
        new-IsCounted in
    counted.bounded task g
