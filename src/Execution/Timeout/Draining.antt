-- ===== src/Execution/Timeout/Draining.antt =====
-- What is left to do for a watcher that is closed.
use codex_runner.Prelude.{
  ℕ, ◌<◌, ◌≡◌, refl, sym, ap, subst, ◌∙◌, true, false, List, [], ◌∷◌, Option, none, some, Text,
  length, arith, Bool-cases, inl, inr, branches, All,
}
use Prim.Native.Nat.{◌^◌}
use codex_runner.Prelude.Dict.{get}
use codex_runner.Execution.Timeout.{
  TimerCallback, TimeoutWatcher, Enforcement, WatcherMove, arms, disarms, closes, fires, begins,
  finishes, Phase, scheduled, fired, enforcing, new_timeout_watcher, is_scheduled, without_timer,
  pick, arm, disarm, close_watcher, fire_one, fire_picked, begin_one, begin_with, begin_picked,
  finish_one, finish_with, finish_execution, finish_picked, make_move, make_moves,
}
use codex_runner.Execution.Timeout.Invariant.{make_moves-inv, new_bound, new-IsSingle}
use codex_runner.Execution.Timeout.Cancellable.{Holds}
use codex_runner.Execution.Timeout.Closing.{NoneWaits, Sound, make_move-Sound}

-- Closed, and with no entries.
pub record IsShut (w : TimeoutWatcher) : Type 0 where
  pub shut : w.is_closed ≡ true
  pub no_entries : w.timers ≡ []

-- A move that enforces nothing and leaves the watcher shut.
pub record Rests (w v : TimeoutWatcher) : Type 0 where
  pub same_attempts : v.attempts ≡ w.attempts
  pub still_shut : IsShut v

no_entry : (w : TimeoutWatcher) (t : Text) → IsShut w → get t w.timers ≡ none
unfolding get
no_entry w t s = ap (get t) s.no_entries

module _ (w : TimeoutWatcher) (c : TimerCallback) (rest : List TimerCallback) (s : IsShut w) where
  begin_with-shut :
      begin_with c (get c.callback_task w.timers) (record w { callbacks = rest })
      ≡ record w { callbacks = rest }
  unfolding begin_with
  begin_with-shut = rw (no_entry w c.callback_task s) refl

  finish_execution-shut :
      (result : Enforcement)
      → finish_execution c.callback_task c.callback_generation result
          (record w { callbacks = rest })
        ≡ record w { callbacks = rest }
  unfolding finish_execution finish_with
  finish_execution-shut result = rw (no_entry w c.callback_task s) refl

  without-Rests : Rests w (record w { callbacks = rest })
  without-Rests = record {
    same_attempts = refl;
    still_shut = record { shut = s.shut; no_entries = s.no_entries };
  }

  begin_one-Rests : (p : Phase) → Rests w (begin_one c rest p w)
  begin_one-Rests scheduled = record { same_attempts = refl; still_shut = s }
  begin_one-Rests fired = subst (Rests w) (sym begin_with-shut) without-Rests
  begin_one-Rests enforcing = record { same_attempts = refl; still_shut = s }

  finish_one-Rests : (result : Enforcement) (p : Phase) → Rests w (finish_one c rest result p w)
  finish_one-Rests result scheduled = record { same_attempts = refl; still_shut = s }
  finish_one-Rests result fired = record { same_attempts = refl; still_shut = s }
  finish_one-Rests result enforcing =
      subst (Rests w) (sym (finish_execution-shut result)) without-Rests

  fire_one-Rests : (p : Phase) → Rests w (fire_one c rest p w)
  fire_one-Rests scheduled = record {
    same_attempts = refl;
    still_shut = record { shut = s.shut; no_entries = s.no_entries };
  }
  fire_one-Rests fired = record { same_attempts = refl; still_shut = s }
  fire_one-Rests enforcing = record { same_attempts = refl; still_shut = s }

module _ (w : TimeoutWatcher) (s : IsShut w) where
  unmoved : Rests w w
  unmoved = record { same_attempts = refl; still_shut = s }

  begin_picked-Rests :
      (o : Option (TimerCallback × List TimerCallback)) → Rests w (begin_picked o w)
  begin_picked-Rests none = unmoved
  begin_picked-Rests (some (c, rest)) = begin_one-Rests w c rest s c.phase

  fire_picked-Rests : (o : Option (TimerCallback × List TimerCallback)) → Rests w (fire_picked o w)
  fire_picked-Rests none = unmoved
  fire_picked-Rests (some (c, rest)) = fire_one-Rests w c rest s c.phase

  finish_picked-Rests :
      (o : Option (TimerCallback × List TimerCallback)) (result : Enforcement)
      → Rests w (finish_picked o result w)
  finish_picked-Rests none result = unmoved
  finish_picked-Rests (some (c, rest)) result = finish_one-Rests w c rest s result c.phase

  arm-Rests :
      (task : Text) (deadline seconds lifecycle : ℕ)
      → Rests w (arm task deadline seconds lifecycle w)
  unfolding arm
  arm-Rests task deadline seconds lifecycle =
      branches (Rests w) w.is_closed _ _ (λ h. unmoved) (λ h. absurd (cc (s.shut, h)))

  close-Rests : Rests w (close_watcher w)
  unfolding close_watcher
  close-Rests = branches (Rests w) w.is_closed _ _ (λ h. unmoved) (λ h. absurd (cc (s.shut, h)))

  disarm-Rests : (task : Text) → Rests w (disarm task w)
  unfolding disarm without_timer
  disarm-Rests task = record {
    same_attempts = refl;
    still_shut = record { shut = s.shut; no_entries = ap (without_timer task) s.no_entries };
  }

make_move-Rests : (m : WatcherMove) (w : TimeoutWatcher) → IsShut w → Rests w (make_move m w)
unfolding make_move
make_move-Rests (arms task deadline seconds lifecycle) w s =
    arm-Rests w s task deadline seconds lifecycle
make_move-Rests (disarms task) w s = disarm-Rests w s task
make_move-Rests closes w s = close-Rests w s
make_move-Rests (fires i) w s = fire_picked-Rests w s (pick i w.callbacks)
make_move-Rests (begins i) w s = begin_picked-Rests w s (pick i w.callbacks)
make_move-Rests (finishes i result) w s = finish_picked-Rests w s (pick i w.callbacks) result

make_moves-Rests :
    (moves : List WatcherMove) (w : TimeoutWatcher) → IsShut w → Rests w (make_moves moves w)
unfolding make_moves
make_moves-Rests [] w s = unmoved w s
make_moves-Rests (m ∷ moves) w s =
    let one = make_move-Rests m w s in
    let more = make_moves-Rests moves (make_move m w) one.still_shut in
    record { same_attempts = more.same_attempts ∙ one.same_attempts; still_shut = more.still_shut }

new-Sound : Sound new_timeout_watcher
unfolding new_timeout_watcher
new-Sound = (new-IsSingle, record { held = tt; emptied = λ h. refl })

make_moves-Sound :
    (moves : List WatcherMove)
    → length moves < 2 ^ 64
    → Sound (make_moves moves new_timeout_watcher)
make_moves-Sound moves bound =
    make_moves-inv Sound make_move-Sound moves new_timeout_watcher (new_bound moves bound) new-Sound

-- Once `Close` has been called, none of the moves after it enforces a timeout, also not by a callback
-- that had begun before: the history of the enforcements stays what it was.
pub attempts-make_moves :
    (moves later : List WatcherMove)
    → length moves < 2 ^ 64
    → (make_moves moves new_timeout_watcher).is_closed ≡ true
    → (make_moves later (make_moves moves new_timeout_watcher)).attempts
      ≡ (make_moves moves new_timeout_watcher).attempts
attempts-make_moves moves later bound closed =
    let w = make_moves moves new_timeout_watcher in
    let sound = make_moves-Sound moves bound in
    (make_moves-Rests later w
      (record { shut = closed; no_entries = sound.1.emptied closed })).same_attempts

-- A callback takes its turn: it gets the lock, or its enforcement comes back.
abbrev pub turn_of : Enforcement → Phase → WatcherMove
turn_of result scheduled = fires 0
turn_of result fired = begins 0
turn_of result enforcing = finishes 0 result

abbrev take_turn : Enforcement → List TimerCallback → TimeoutWatcher → TimeoutWatcher
take_turn result [] w = w
take_turn result (c ∷ rest) w = make_move (turn_of result c.phase) w

-- The callbacks that are left take their turns, with these results.
pub settle : List Enforcement → TimeoutWatcher → TimeoutWatcher
settle [] w = w
settle (result ∷ results) w = settle results (take_turn result w.callbacks w)

Holds-NoneWaits : (callbacks : List TimerCallback) → All (Holds []) callbacks → NoneWaits callbacks
unfolding get
Holds-NoneWaits [] h = tt
Holds-NoneWaits (c ∷ callbacks) h = (
  elim (Bool-cases (is_scheduled c.phase)) [
    | inl waits ↦ absurd (cc (h.0 waits).found)
    | inr quiet ↦ quiet
  ],
  Holds-NoneWaits callbacks h.1,
)

module _ (w : TimeoutWatcher) (c : TimerCallback) (rest : List TimerCallback) (s : IsShut w) where
  picked : w.callbacks ≡ c ∷ rest → pick 0 w.callbacks ≡ some (c, rest)
  unfolding pick
  picked e = ap (pick 0) e

  turn-ends :
      (result : Enforcement) (p : Phase)
      → w.callbacks ≡ c ∷ rest
      → c.phase ≡ p
      → is_scheduled p ≡ false
      → make_move (turn_of result p) w ≡ record w { callbacks = rest }
  unfolding make_move
  turn-ends result scheduled e k h = cc
  turn-ends result fired e k h =
      ap (λ o. begin_picked o w) (picked e)
      ∙ (ap (λ p. begin_one c rest p w) k ∙ begin_with-shut w c rest s)
  turn-ends result enforcing e k h =
      ap (λ o. finish_picked o result w) (picked e)
      ∙ (ap (λ p. finish_one c rest result p w) k ∙ finish_execution-shut w c rest s result)

settle-ends :
    (callbacks : List TimerCallback) (results : List Enforcement) (w : TimeoutWatcher)
    → IsShut w
    → w.callbacks ≡ callbacks
    → NoneWaits callbacks
    → length results ≡ length callbacks
    → (settle results w).callbacks ≡ []
unfolding settle
settle-ends [] [] w s e n l = e
settle-ends [] (result ∷ results) w s e n l = absurd (omega arith)
settle-ends (c ∷ callbacks) [] w s e n l = absurd (omega arith)
settle-ends (c ∷ callbacks) (result ∷ results) w s e n l =
    let turned : take_turn result w.callbacks w ≡ record w { callbacks = callbacks } =
      ap (λ cs. take_turn result cs w) e ∙ turn-ends w c callbacks s result c.phase e refl n.0 in
    ap (λ v. (settle results v).callbacks) turned
    ∙ settle-ends callbacks results (record w { callbacks = callbacks })
        (record { shut = s.shut; no_entries = s.no_entries }) refl n.1 (omega arith)

-- The wait at the end of `Close` ends: in a watcher that is closed no callback waits for its time any
-- more, and when each of those that are left has taken one turn, with whatever result, none is left.
pub settle-make_moves :
    (moves : List WatcherMove) (results : List Enforcement)
    → length moves < 2 ^ 64
    → (make_moves moves new_timeout_watcher).is_closed ≡ true
    → length results ≡ length (make_moves moves new_timeout_watcher).callbacks
    → NoneWaits (make_moves moves new_timeout_watcher).callbacks
      × ((settle results (make_moves moves new_timeout_watcher)).callbacks ≡ [])
settle-make_moves moves results bound closed l =
    let w = make_moves moves new_timeout_watcher in
    let sound = make_moves-Sound moves bound in
    let shut : IsShut w = record { shut = closed; no_entries = sound.1.emptied closed } in
    let quiet : NoneWaits w.callbacks =
      Holds-NoneWaits w.callbacks
        (subst (λ timers. All (Holds timers) w.callbacks) shut.no_entries sound.1.held) in
    (quiet, settle-ends w.callbacks results w shut refl quiet l)
