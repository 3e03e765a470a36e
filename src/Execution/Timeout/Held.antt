-- ===== src/Execution/Timeout/Held.antt =====
-- The callbacks that wait for their time are those that the entries of the map can cancel.
use codex_runner.Prelude.{
  ℕ, ◌≡◌, refl, ap, true, not, ◌||◌, List, [], Option, none, some, Text, leb, ◌==◌, arith, branches,
  All,
}
use codex_runner.Prelude.Dict.{get}
use codex_runner.Execution.Timeout.{
  ArmedTimer, TimerCallback, TimeoutWatcher, Enforcement, Phase, scheduled, fired, enforcing,
  without_timer, pick, arm, disarm, fire_one, fire_picked, begin_with, begin_one, begin_picked,
  finish_with, finish_execution, finish_one, finish_picked, may_retry, retry_max_attempts,
}
use codex_runner.Execution.Timeout.Counting.{live, live-pick, All-pick}
use codex_runner.Execution.Timeout.Invariant.{IsSingle}
use codex_runner.Execution.Timeout.Cancellable.{
  Holds, Holds-cancel_armed, unlive, Holds-ended, All-Holds-marked, Elsewhere-put,
  Elsewhere-without, IsArmed-new,
}

-- A watcher that is closed has no entries.
pub record IsHeld (w : TimeoutWatcher) : Type 0 where
  pub held : All (Holds w.timers) w.callbacks
  pub emptied : w.is_closed ≡ true → w.timers ≡ []

pub arm-IsHeld :
    (task : Text) (deadline seconds lifecycle : ℕ) (w : TimeoutWatcher)
    → IsHeld w
    → IsHeld (arm task deadline seconds lifecycle w)
unfolding arm
arm-IsHeld task deadline seconds lifecycle w s =
    branches IsHeld w.is_closed _ _ (λ h. s)
      (λ h. record {
        held = (
          λ waits. IsArmed-new w.timers _ _ refl refl,
          Holds-cancel_armed task w.timers _ (get task w.timers) w.callbacks
              (Elsewhere-put task w.timers _) refl s.held,
        );
        emptied = λ k. cc;
      })

pub disarm-IsHeld : (task : Text) (w : TimeoutWatcher) → IsHeld w → IsHeld (disarm task w)
unfolding disarm without_timer
disarm-IsHeld task w s = record {
  held =
      Holds-cancel_armed task w.timers (without_timer task w.timers) (get task w.timers) w.callbacks
        (Elsewhere-without task w.timers) refl s.held;
  emptied = λ k. ap (without_timer task) (s.emptied k);
}

-- What a callback does that was picked from the others.
module _ (w : TimeoutWatcher) (c : TimerCallback) (rest : List TimerCallback) where
  fewer-IsHeld : IsHeld w → All (Holds w.timers) rest → IsHeld (record w { callbacks = rest })
  fewer-IsHeld s h = record { held = h; emptied = s.emptied }

  begin_with-IsHeld :
      (o : Option ArmedTimer)
      → get c.callback_task w.timers ≡ o
      → IsHeld w
      → All (Holds w.timers) rest
      → IsHeld (begin_with c o (record w { callbacks = rest }))
  unfolding begin_with
  begin_with-IsHeld none e s h = fewer-IsHeld s h
  begin_with-IsHeld (some a) e s h =
      branches IsHeld (not (a.generation == c.callback_generation)) _ _ (λ k. fewer-IsHeld s h)
        (λ k.
          branches IsHeld (a.executing || w.is_closed) _ _ (λ l. fewer-IsHeld s h)
            (λ l. record {
              held = (
                λ waits. cc,
                All-Holds-marked c.callback_task w.timers a (record a { executing = true }) rest e
                    refl refl h,
              );
              emptied = λ closed. ground arith;
            }))

  ended-IsHeld :
      (a : ArmedTimer)
      → get c.callback_task w.timers ≡ some a
      → a.generation ≡ c.callback_generation
      → live c.callback_generation rest ≡ 0
      → IsHeld w
      → All (Holds w.timers) rest
      → IsHeld (record w { timers = without_timer c.callback_task w.timers; callbacks = rest })
  unfolding without_timer
  ended-IsHeld a e g u s h = record {
    held =
        Holds-ended c.callback_generation c.callback_task w.timers
          (without_timer c.callback_task w.timers) a rest
          (Elsewhere-without c.callback_task w.timers) e g (unlive c.callback_generation rest u) h;
    emptied = λ closed. ap (without_timer c.callback_task) (s.emptied closed);
  }

  finish_with-IsHeld :
      (result : Enforcement) (o : Option ArmedTimer)
      → get c.callback_task w.timers ≡ o
      → live c.callback_generation rest ≡ 0
      → IsHeld w
      → All (Holds w.timers) rest
      → IsHeld (
          finish_with c.callback_task c.callback_generation result o
            (record w { callbacks = rest }))
  unfolding finish_with
  finish_with-IsHeld result none e u s h = fewer-IsHeld s h
  finish_with-IsHeld result (some a) e u s h =
      branches IsHeld (not (a.generation == c.callback_generation)) _ _ (λ k. fewer-IsHeld s h)
        (λ k.
          let g : a.generation ≡ c.callback_generation = ground arith in
          branches IsHeld (w.is_closed || not (may_retry result)) _ _
            (λ l. ended-IsHeld a e g u s h)
            (λ l.
              branches IsHeld (leb retry_max_attempts a.retry_attempts) _ _
                (λ m. ended-IsHeld a e g u s h)
                (λ m. record {
                  held = (
                    λ waits. IsArmed-new w.timers _ _ refl g,
                    Holds-ended c.callback_generation c.callback_task w.timers _ a rest
                        (Elsewhere-put c.callback_task w.timers _) e g
                        (unlive c.callback_generation rest u) h,
                  );
                  emptied = λ closed. ground arith;
                })))

  begin_one-IsHeld :
      (p : Phase) → IsHeld w → All (Holds w.timers) rest → IsHeld (begin_one c rest p w)
  begin_one-IsHeld scheduled s h = s
  begin_one-IsHeld fired s h = begin_with-IsHeld (get c.callback_task w.timers) refl s h
  begin_one-IsHeld enforcing s h = s

  fire_one-IsHeld :
      (p : Phase) → IsHeld w → All (Holds w.timers) rest → IsHeld (fire_one c rest p w)
  fire_one-IsHeld scheduled s h = record { held = (λ waits. cc, h); emptied = s.emptied }
  fire_one-IsHeld fired s h = s
  fire_one-IsHeld enforcing s h = s

  finish_one-IsHeld :
      (result : Enforcement) (p : Phase)
      → live c.callback_generation rest ≡ 0
      → IsHeld w
      → All (Holds w.timers) rest
      → IsHeld (finish_one c rest result p w)
  unfolding finish_execution
  finish_one-IsHeld result scheduled u s h = s
  finish_one-IsHeld result fired u s h = s
  finish_one-IsHeld result enforcing u s h =
      finish_with-IsHeld result (get c.callback_task w.timers) refl u s h

module _ (w : TimeoutWatcher) (i : ℕ) where
  pub begin_picked-IsHeld :
      (o : Option (TimerCallback × List TimerCallback))
      → pick i w.callbacks ≡ o
      → IsHeld w
      → IsHeld (begin_picked o w)
  begin_picked-IsHeld none e s = s
  begin_picked-IsHeld (some (c, rest)) e s =
      begin_one-IsHeld w c rest c.phase s
        (All-pick (Holds w.timers) i w.callbacks c rest e s.held).1

  pub fire_picked-IsHeld :
      (o : Option (TimerCallback × List TimerCallback))
      → pick i w.callbacks ≡ o
      → IsHeld w
      → IsHeld (fire_picked o w)
  fire_picked-IsHeld none e s = s
  fire_picked-IsHeld (some (c, rest)) e s =
      fire_one-IsHeld w c rest c.phase s (All-pick (Holds w.timers) i w.callbacks c rest e s.held).1

  -- The callback that was picked is the only one of its generation.
  alone :
      (c : TimerCallback) (rest : List TimerCallback)
      → pick i w.callbacks ≡ some (c, rest)
      → IsSingle w
      → live c.callback_generation rest ≡ 0
  alone c rest e single = ground (
    arith,
    live-pick c.callback_generation i w.callbacks c rest e,
    single.single c.callback_generation,
  )

  pub finish_picked-IsHeld :
      (o : Option (TimerCallback × List TimerCallback)) (result : Enforcement)
      → pick i w.callbacks ≡ o
      → IsSingle w
      → IsHeld w
      → IsHeld (finish_picked o result w)
  finish_picked-IsHeld none result e single s = s
  finish_picked-IsHeld (some (c, rest)) result e single s =
      finish_one-IsHeld w c rest result c.phase (alone c rest e single) s
        (All-pick (Holds w.timers) i w.callbacks c rest e s.held).1
