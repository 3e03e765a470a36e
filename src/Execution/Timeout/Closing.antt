-- ===== src/Execution/Timeout/Closing.antt =====
-- After `Close` no timeout is enforced any more, and the wait for the callbacks comes to an end.
use codex_runner.Prelude.{
  ℕ, ◌+◌, ◌<◌, ◌≡◌, refl, subst, Bool, true, false, ◌&&◌, ◌||◌, List, [], ◌∷◌, some, Text, ◌==◌,
  arith, Bool-cases, inl, inr, branches, All,
}
use Prim.Native.Nat.{◌^◌}
use codex_runner.Prelude.Dict.{Dict, get}
use codex_runner.Execution.Timeout.{
  ArmedTimer, TimerCallback, TimeoutWatcher, WatcherMove, arms, disarms, closes, fires, begins,
  finishes, is_scheduled, cancel_timer, cancel_all, pick, close_watcher, make_move,
}
use codex_runner.Execution.Timeout.Invariant.{IsSingle, make_move-IsSingle}
use codex_runner.Execution.Timeout.Cancellable.{Holds}
use codex_runner.Execution.Timeout.Held.{
  IsHeld, arm-IsHeld, disarm-IsHeld, begin_picked-IsHeld, fire_picked-IsHeld, finish_picked-IsHeld,
}

abbrev IsWaiting : TimerCallback → Type 0
IsWaiting c = is_scheduled c.phase ≡ true

-- Some entry of the map has this timer.
has_timer : ℕ → Dict ArmedTimer → Bool
has_timer timer [] = false
has_timer timer ((t, a) ∷ timers) = timer == a.timer || has_timer timer timers

get-has_timer :
    (t : Text) (a : ArmedTimer) (timers : Dict ArmedTimer)
    → get t timers ≡ some a
    → has_timer a.timer timers ≡ true
unfolding get has_timer
get-has_timer t a [] e = cc
get-has_timer t a ((u, b) ∷ timers) e = ground (arith, get-has_timer t a timers)

-- A callback that waits is one that the entries cancel.
abbrev Cancels : Dict ArmedTimer → TimerCallback → Type 0
Cancels timers c = IsWaiting c → has_timer c.callback_timer timers ≡ true

Holds-Cancels :
    (timers : Dict ArmedTimer) (callbacks : List TimerCallback)
    → All (Holds timers) callbacks
    → All (Cancels timers) callbacks
Holds-Cancels timers [] h = tt
Holds-Cancels timers (c ∷ callbacks) h = (
  λ waits.
      let a = h.0 waits in
      subst (λ t. has_timer t timers ≡ true) a.same_timer
        (get-has_timer c.callback_task a.entry timers a.found),
  Holds-Cancels timers callbacks h.1,
)

cancel_timer-Cancels :
    (t : Text) (a : ArmedTimer) (timers : Dict ArmedTimer) (callbacks : List TimerCallback)
    → All (Cancels ((t, a) ∷ timers)) callbacks
    → All (Cancels timers) (cancel_timer a.timer callbacks)
unfolding cancel_timer has_timer
cancel_timer-Cancels t a timers [] h = tt
cancel_timer-Cancels t a timers (c ∷ callbacks) h =
    let rest = cancel_timer-Cancels t a timers callbacks h.1 in
    branches (All (Cancels timers)) (c.callback_timer == a.timer && is_scheduled c.phase) _ _
      (λ dropped. rest) (λ stays. (λ waits. ground (arith, h.0 waits), rest))

-- No callback waits for its time.
abbrev pub NoneWaits : List TimerCallback → Type 0
NoneWaits callbacks = All (λ c. is_scheduled c.phase ≡ false) callbacks

none_waits : (callbacks : List TimerCallback) → All (Cancels []) callbacks → NoneWaits callbacks
unfolding has_timer
none_waits [] h = tt
none_waits (c ∷ callbacks) h = (
  elim (Bool-cases (is_scheduled c.phase)) [
    | inl waits ↦ absurd (cc (h.0 waits))
    | inr quiet ↦ quiet
  ],
  none_waits callbacks h.1,
)

cancel_all-NoneWaits :
    (timers : Dict ArmedTimer) (callbacks : List TimerCallback)
    → All (Cancels timers) callbacks
    → NoneWaits (cancel_all timers callbacks)
unfolding cancel_all
cancel_all-NoneWaits [] callbacks h = none_waits callbacks h
cancel_all-NoneWaits ((t, a) ∷ timers) callbacks h =
    cancel_all-NoneWaits timers (cancel_timer a.timer callbacks)
      (cancel_timer-Cancels t a timers callbacks h)

NoneWaits-Holds :
    (timers : Dict ArmedTimer) (callbacks : List TimerCallback)
    → NoneWaits callbacks
    → All (Holds timers) callbacks
NoneWaits-Holds timers [] h = tt
NoneWaits-Holds timers (c ∷ callbacks) h =
    (λ waits. absurd (cc (waits, h.0)), NoneWaits-Holds timers callbacks h.1)

close-IsHeld : (w : TimeoutWatcher) → IsHeld w → IsHeld (close_watcher w)
unfolding close_watcher
close-IsHeld w s =
    branches IsHeld w.is_closed _ _ (λ h. s)
      (λ h. record {
        held =
            NoneWaits-Holds [] (cancel_all w.timers w.callbacks) (
              cancel_all-NoneWaits w.timers w.callbacks
                (Holds-Cancels w.timers w.callbacks s.held));
        emptied = λ k. refl;
      })

abbrev pub Sound : TimeoutWatcher → Type 0
Sound w = IsSingle w × IsHeld w

make_move-IsHeld : (m : WatcherMove) (w : TimeoutWatcher) → Sound w → IsHeld (make_move m w)
unfolding make_move
make_move-IsHeld (arms task deadline seconds lifecycle) w s =
    arm-IsHeld task deadline seconds lifecycle w s.1
make_move-IsHeld (disarms task) w s = disarm-IsHeld task w s.1
make_move-IsHeld closes w s = close-IsHeld w s.1
make_move-IsHeld (fires i) w s = fire_picked-IsHeld w i (pick i w.callbacks) refl s.1
make_move-IsHeld (begins i) w s = begin_picked-IsHeld w i (pick i w.callbacks) refl s.1
make_move-IsHeld (finishes i result) w s =
    finish_picked-IsHeld w i (pick i w.callbacks) result refl s.0 s.1

pub make_move-Sound :
    (m : WatcherMove) (w : TimeoutWatcher)
    → w.next_generation + 1 < 2 ^ 64
    → Sound w
    → Sound (make_move m w)
make_move-Sound m w bound s = (make_move-IsSingle m w bound s.0, make_move-IsHeld m w s)
