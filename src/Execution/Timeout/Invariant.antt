-- ===== src/Execution/Timeout/Invariant.antt =====
-- How many callbacks of one generation there are at a time.
use codex_runner.Prelude.{
  ℕ, ◌+◌, ◌≤◌, ◌<◌, ◌≡◌, refl, List, [], ◌∷◌, Option, none, some, Text, length, ◌==◌, if◌then◌else◌,
  arith,
}
use Prim.Native.Nat.{◌^◌}
use codex_runner.Prelude.Dict.{Dict, get}
use codex_runner.Execution.Timeout.{
  ArmedTimer, TimerCallback, TimeoutWatcher, Enforcement, WatcherMove, arms, disarms, closes, fires,
  begins, finishes, Phase, scheduled, fired, enforcing, new_timeout_watcher, cancel_timer,
  cancel_armed, cancel_all, pick, arm, disarm, close_watcher, fire_one, fire_picked, fire,
  begin_with, begin_one, begin_picked, begin, finish_with, finish_execution, finish_one,
  finish_picked, finish, make_move, make_moves,
}
use codex_runner.Execution.Timeout.Counting.{live, live-cancel_timer, live-pick}

live-cancel_armed :
    (g : ℕ) (o : Option ArmedTimer) (callbacks : List TimerCallback)
    → live g (cancel_armed o callbacks) ≤ live g callbacks
live-cancel_armed g none callbacks = omega arith
live-cancel_armed g (some a) callbacks = live-cancel_timer g a.timer callbacks

live-cancel_all :
    (g : ℕ) (timers : Dict ArmedTimer) (callbacks : List TimerCallback)
    → live g (cancel_all timers callbacks) ≤ live g callbacks
unfolding cancel_all
live-cancel_all g [] callbacks = omega arith
live-cancel_all g ((t, a) ∷ timers) callbacks = omega (
  arith,
  live-cancel_all g timers (cancel_timer a.timer callbacks),
  live-cancel_timer g a.timer callbacks,
)

-- The callbacks that are left and the generation that was handed out last.
abbrev Keeps : ℕ → TimeoutWatcher → TimeoutWatcher → Type 0
Keeps g w v = (live g v.callbacks ≤ live g w.callbacks) × (v.next_generation ≡ w.next_generation)

module _ (g : ℕ) (w : TimeoutWatcher) (c : TimerCallback) (rest : List TimerCallback) where
  abbrev Picked : Type 0
  Picked = live g w.callbacks ≡ (if c.callback_generation == g then 1 else 0) + live g rest

  fire_one-Keeps : (p : Phase) → Picked → Keeps g w (fire_one c rest p w)
  unfolding live
  fire_one-Keeps scheduled e = (omega arith, refl)
  fire_one-Keeps fired e = (omega arith, refl)
  fire_one-Keeps enforcing e = (omega arith, refl)

  begin_with-Keeps :
      (o : Option ArmedTimer) → Picked → Keeps g w (begin_with c o (record w { callbacks = rest }))
  unfolding begin_with live
  begin_with-Keeps none e = (omega arith, refl)
  begin_with-Keeps (some a) e = ground arith

  begin_one-Keeps : (p : Phase) → Picked → Keeps g w (begin_one c rest p w)
  begin_one-Keeps scheduled e = (omega arith, refl)
  begin_one-Keeps fired e = begin_with-Keeps (get c.callback_task w.timers) e
  begin_one-Keeps enforcing e = (omega arith, refl)

  finish_with-Keeps :
      (result : Enforcement) (o : Option ArmedTimer)
      → Picked
      → Keeps g w (
          finish_with c.callback_task c.callback_generation result o
            (record w { callbacks = rest }))
  unfolding finish_with live
  finish_with-Keeps result none e = (omega arith, refl)
  finish_with-Keeps result (some a) e = ground arith

  finish_one-Keeps :
      (result : Enforcement) (p : Phase) → Picked → Keeps g w (finish_one c rest result p w)
  unfolding finish_execution
  finish_one-Keeps result scheduled e = (omega arith, refl)
  finish_one-Keeps result fired e = (omega arith, refl)
  finish_one-Keeps result enforcing e = finish_with-Keeps result (get c.callback_task w.timers) e

module _ (g : ℕ) (w : TimeoutWatcher) (i : ℕ) where
  fire_picked-Keeps :
      (o : Option (TimerCallback × List TimerCallback))
      → pick i w.callbacks ≡ o
      → Keeps g w (fire_picked o w)
  fire_picked-Keeps none e = (omega arith, refl)
  fire_picked-Keeps (some (c, rest)) e =
      fire_one-Keeps g w c rest c.phase (live-pick g i w.callbacks c rest e)

  begin_picked-Keeps :
      (o : Option (TimerCallback × List TimerCallback))
      → pick i w.callbacks ≡ o
      → Keeps g w (begin_picked o w)
  begin_picked-Keeps none e = (omega arith, refl)
  begin_picked-Keeps (some (c, rest)) e =
      begin_one-Keeps g w c rest c.phase (live-pick g i w.callbacks c rest e)

  finish_picked-Keeps :
      (o : Option (TimerCallback × List TimerCallback)) (result : Enforcement)
      → pick i w.callbacks ≡ o
      → Keeps g w (finish_picked o result w)
  finish_picked-Keeps none result e = (omega arith, refl)
  finish_picked-Keeps (some (c, rest)) result e =
      finish_one-Keeps g w c rest result c.phase (live-pick g i w.callbacks c rest e)

close-Keeps : (g : ℕ) (w : TimeoutWatcher) → Keeps g w (close_watcher w)
unfolding close_watcher
close-Keeps g w = ground (arith, live-cancel_all g w.timers w.callbacks)

disarm-Keeps : (g : ℕ) (task : Text) (w : TimeoutWatcher) → Keeps g w (disarm task w)
unfolding disarm
disarm-Keeps g task w = (live-cancel_armed g (get task w.timers) w.callbacks, refl)

-- Each generation has one callback at a time at most, and one that is not handed out yet has none.
pub record IsSingle (w : TimeoutWatcher) : Type 0 where
  pub single : (g : ℕ) → live g w.callbacks ≤ 1
  pub unborn : (g : ℕ) → w.next_generation < g → live g w.callbacks ≡ 0

Keeps-IsSingle : (w v : TimeoutWatcher) → ((g : ℕ) → Keeps g w v) → IsSingle w → IsSingle v
Keeps-IsSingle w v keeps s = record {
  single = λ g. omega (arith, (keeps g).0, s.single g);
  unborn = λ g l. omega (arith, (keeps g).0, (keeps g).1, s.unborn g);
}

arm-IsSingle :
    (task : Text) (deadline seconds lifecycle : ℕ) (w : TimeoutWatcher)
    → w.next_generation + 1 < 2 ^ 64
    → IsSingle w
    → IsSingle (arm task deadline seconds lifecycle w)
unfolding arm live
arm-IsSingle task deadline seconds lifecycle w bound s = record {
  single = λ g.
      ground (arith, live-cancel_armed g (get task w.timers) w.callbacks, s.single g, s.unborn g);
  unborn = λ g l. ground (arith, live-cancel_armed g (get task w.timers) w.callbacks, s.unborn g);
}

-- Arming is the move that takes a new generation.
arm-next :
    (task : Text) (deadline seconds lifecycle : ℕ) (w : TimeoutWatcher)
    → w.next_generation + 1 < 2 ^ 64
    → (arm task deadline seconds lifecycle w).next_generation ≤ w.next_generation + 1
unfolding arm
arm-next task deadline seconds lifecycle w bound = ground arith

pub make_move-next :
    (m : WatcherMove) (w : TimeoutWatcher)
    → w.next_generation + 1 < 2 ^ 64
    → (make_move m w).next_generation ≤ w.next_generation + 1
unfolding make_move
make_move-next (arms task deadline seconds lifecycle) w bound =
    arm-next task deadline seconds lifecycle w bound
make_move-next (disarms task) w bound = omega (arith, (disarm-Keeps 0 task w).1)
make_move-next closes w bound = omega (arith, (close-Keeps 0 w).1)
make_move-next (fires i) w bound =
    omega (arith, (fire_picked-Keeps 0 w i (pick i w.callbacks) refl).1)
make_move-next (begins i) w bound =
    omega (arith, (begin_picked-Keeps 0 w i (pick i w.callbacks) refl).1)
make_move-next (finishes i result) w bound =
    omega (arith, (finish_picked-Keeps 0 w i (pick i w.callbacks) result refl).1)

pub make_move-IsSingle :
    (m : WatcherMove) (w : TimeoutWatcher)
    → w.next_generation + 1 < 2 ^ 64
    → IsSingle w
    → IsSingle (make_move m w)
unfolding make_move
make_move-IsSingle (arms task deadline seconds lifecycle) w bound s =
    arm-IsSingle task deadline seconds lifecycle w bound s
make_move-IsSingle (disarms task) w bound s =
    Keeps-IsSingle w (disarm task w) (λ g. disarm-Keeps g task w) s
make_move-IsSingle closes w bound s = Keeps-IsSingle w (close_watcher w) (λ g. close-Keeps g w) s
make_move-IsSingle (fires i) w bound s =
    Keeps-IsSingle w (fire i w) (λ g. fire_picked-Keeps g w i (pick i w.callbacks) refl) s
make_move-IsSingle (begins i) w bound s =
    Keeps-IsSingle w (begin i w) (λ g. begin_picked-Keeps g w i (pick i w.callbacks) refl) s
make_move-IsSingle (finishes i result) w bound s =
    Keeps-IsSingle w (finish i result w)
      (λ g. finish_picked-Keeps g w i (pick i w.callbacks) result refl) s

-- An invariant that every move keeps holds after any moves, as long as the generations last.
pub make_moves-inv :
    (P : TimeoutWatcher → Type 0)
    → ((m : WatcherMove) (w : TimeoutWatcher)
        → w.next_generation + 1 < 2 ^ 64
        → P w
        → P (make_move m w))
    → (moves : List WatcherMove) (w : TimeoutWatcher) → w.next_generation + length moves < 2 ^ 64
    → P w
    → P (make_moves moves w)
unfolding make_moves
make_moves-inv P step [] w bound h = h
make_moves-inv P step (m ∷ moves) w bound h =
    make_moves-inv P step moves (make_move m w) (omega (arith, make_move-next m w (omega arith)))
      (step m w (omega arith) h)

pub new-IsSingle : IsSingle new_timeout_watcher
unfolding new_timeout_watcher live
new-IsSingle = record { single = λ g. omega arith; unborn = λ g l. refl }

pub new_bound :
    (moves : List WatcherMove)
    → length moves < 2 ^ 64
    → new_timeout_watcher.next_generation + length moves < 2 ^ 64
unfolding new_timeout_watcher
new_bound moves bound = omega arith

-- After any moves of a new watcher, fewer than 2^64, each timer generation has at most one callback
-- that waits for its time or for the lock or enforces the timeout: two enforcements of one generation
-- never overlap, also not by way of the retries.
pub live-make_moves :
    (moves : List WatcherMove) (g : ℕ)
    → length moves < 2 ^ 64
    → live g (make_moves moves new_timeout_watcher).callbacks ≤ 1
live-make_moves moves g bound =
    (make_moves-inv IsSingle make_move-IsSingle moves new_timeout_watcher (new_bound moves bound)
        new-IsSingle).single
      g
