-- ===== src/Execution/Timeout/Cancellable.antt =====
-- internal/execution/timeout.go: the entry of the map that can cancel a callback, and what keeps it.
use codex_runner.Prelude.{
  ℕ, ◌≡◌, refl, sym, ap, subst, ◌∙◌, true, false, ◌&&◌, List, [], ◌∷◌, Option, none, some, Text,
  text_eq, text_eq_iff, ◌==◌, if◌then◌else◌, arith, Bool-cases, inl, inr, branches, All,
}
use codex_runner.Prelude.Dict.{Dict, get, put}
use codex_runner.Execution.Timeout.{
  ArmedTimer, TimerCallback, is_scheduled, cancel_timer, cancel_armed, without_timer,
}
use codex_runner.Execution.Timeout.Counting.{live, get-put_if, get-without_timer}

-- A callback that waits for its time is the one that the entry of its task cancels.
pub record IsArmed (timers : Dict ArmedTimer) (c : TimerCallback) : Type 0 where
  pub entry : ArmedTimer
  pub found : get c.callback_task timers ≡ some entry
  pub same_timer : entry.timer ≡ c.callback_timer
  pub same_generation : entry.generation ≡ c.callback_generation

abbrev pub Holds : Dict ArmedTimer → TimerCallback → Type 0
Holds timers c = is_scheduled c.phase ≡ true → IsArmed timers c

module _ (task : Text) (timers after : Dict ArmedTimer) where
  -- Only the entry of the task may have changed.
  abbrev Elsewhere : Type 0
  Elsewhere = (t : Text) → text_eq task t ≡ false → get t after ≡ get t timers

  Holds-other :
      (c : TimerCallback)
      → Elsewhere
      → text_eq task c.callback_task ≡ false
      → Holds timers c
      → Holds after c
  Holds-other c same other h = λ waits.
      let a = h waits in
      record {
        entry = a.entry;
        found = same c.callback_task other ∙ a.found;
        same_timer = a.same_timer;
        same_generation = a.same_generation;
      }

  -- Where the callback is of the task, the entry is that of the task.
  its_entry :
      (c : TimerCallback) (a : IsArmed timers c)
      → text_eq task c.callback_task ≡ true
      → get task timers ≡ some a.entry
  its_entry c a same = ap (λ t. get t timers) ((text_eq_iff task c.callback_task).0 same) ∙ a.found

  Holds-cancelled :
      (c : TimerCallback) (a : ArmedTimer)
      → Elsewhere
      → get task timers ≡ some a
      → (c.callback_timer == a.timer && is_scheduled c.phase) ≡ false
      → Holds timers c
      → Holds after c
  Holds-cancelled c a same e stays h = λ waits. elim (Bool-cases (text_eq task c.callback_task)) [
    | inl mine ↦
        let b = h waits in
        let equal : ◌≡◌ {A = Option ArmedTimer} (some b.entry) (some a) =
          sym (its_entry c b mine) ∙ e in
        let entry : b.entry ≡ a = cc in
        let timer : a.timer ≡ c.callback_timer =
          subst (λ x. x.timer ≡ c.callback_timer) entry b.same_timer in
        absurd (ground arith)
    | inr other ↦ Holds-other c same other h waits
  ]

  Holds-free :
      (c : TimerCallback) → Elsewhere → get task timers ≡ none → Holds timers c → Holds after c
  Holds-free c same e h = λ waits. elim (Bool-cases (text_eq task c.callback_task)) [
    | inl mine ↦
        let b = h waits in
        let equal : ◌≡◌ {A = Option ArmedTimer} (some b.entry) none =
          sym (its_entry c b mine) ∙ e in
        absurd (cc)
    | inr other ↦ Holds-other c same other h waits
  ]

  Holds-cancel_timer :
      (a : ArmedTimer) (callbacks : List TimerCallback)
      → Elsewhere
      → get task timers ≡ some a
      → All (Holds timers) callbacks
      → All (Holds after) (cancel_timer a.timer callbacks)
  unfolding cancel_timer
  Holds-cancel_timer a [] same e h = tt
  Holds-cancel_timer a (c ∷ callbacks) same e h =
      let rest = Holds-cancel_timer a callbacks same e h.1 in
      branches (All (Holds after)) (c.callback_timer == a.timer && is_scheduled c.phase) _ _
        (λ dropped. rest) (λ stays. (Holds-cancelled c a same e stays h.0, rest))

  pub Holds-cancel_armed :
      (o : Option ArmedTimer) (callbacks : List TimerCallback)
      → Elsewhere
      → get task timers ≡ o
      → All (Holds timers) callbacks
      → All (Holds after) (cancel_armed o callbacks)
  Holds-cancel_armed none [] same e h = tt
  Holds-cancel_armed none (c ∷ callbacks) same e h =
      (Holds-free c same e h.0, Holds-cancel_armed none callbacks same e h.1)
  Holds-cancel_armed (some a) callbacks same e h = Holds-cancel_timer a callbacks same e h

-- A generation without a callback under way.
module _ (g : ℕ) where
  pub unlive :
      (callbacks : List TimerCallback)
      → live g callbacks ≡ 0
      → All (λ c. (c.callback_generation == g) ≡ false) callbacks
  unfolding live
  unlive [] h = tt
  unlive (c ∷ callbacks) h = (ground arith, unlive callbacks (ground arith))

module _ (g : ℕ) (task : Text) (timers after : Dict ArmedTimer) (a : ArmedTimer) where
  Holds-apart :
      (c : TimerCallback)
      → Elsewhere task timers after
      → get task timers ≡ some a
      → a.generation ≡ g
      → (c.callback_generation == g) ≡ false
      → Holds timers c
      → Holds after c
  Holds-apart c same e k apart h = λ waits. elim (Bool-cases (text_eq task c.callback_task)) [
    | inl mine ↦
        let b = h waits in
        let equal : ◌≡◌ {A = Option ArmedTimer} (some b.entry) (some a) =
          sym (its_entry task timers after c b mine) ∙ e in
        let entry : b.entry ≡ a = cc in
        let generation : a.generation ≡ c.callback_generation =
          subst (λ x. x.generation ≡ c.callback_generation) entry b.same_generation in
        absurd (ground arith)
    | inr other ↦ Holds-other task timers after c same other h waits
  ]

  -- The callbacks of another generation than the entry of the task keep their entries.
  pub Holds-ended :
      (callbacks : List TimerCallback)
      → Elsewhere task timers after
      → get task timers ≡ some a
      → a.generation ≡ g
      → All (λ c. (c.callback_generation == g) ≡ false) callbacks
      → All (Holds timers) callbacks
      → All (Holds after) callbacks
  Holds-ended [] same e k u h = tt
  Holds-ended (c ∷ callbacks) same e k u h =
      (Holds-apart c same e k u.0 h.0, Holds-ended callbacks same e k u.1 h.1)

-- The entry of the task is replaced by one with the same timer and generation.
module _ (task : Text) (timers : Dict ArmedTimer) (a b : ArmedTimer) where
  Holds-marked :
      (c : TimerCallback)
      → get task timers ≡ some a
      → b.timer ≡ a.timer
      → b.generation ≡ a.generation
      → Holds timers c
      → Holds (put task b timers) c
  Holds-marked c e t g h = λ waits.
      let old = h waits in
      elim (Bool-cases (text_eq task c.callback_task)) [
        | inl mine ↦
            let equal : ◌≡◌ {A = Option ArmedTimer} (some old.entry) (some a) =
              sym (its_entry task timers timers c old mine) ∙ e in
            let entry : old.entry ≡ a = cc in
            record {
              entry = b;
              found =
                  get-put_if c.callback_task task b timers
                  ∙ ap (λ x. if x then some b else get c.callback_task timers) mine;
              same_timer = t ∙ (ap (λ (x : ArmedTimer). x.timer) (sym entry) ∙ old.same_timer);
              same_generation =
                  g ∙ (ap (λ (x : ArmedTimer). x.generation) (sym entry) ∙ old.same_generation);
            }
        | inr other ↦ record {
          entry = old.entry;
          found =
              get-put_if c.callback_task task b timers
              ∙ (ap (λ x. if x then some b else get c.callback_task timers) other ∙ old.found);
          same_timer = old.same_timer;
          same_generation = old.same_generation;
        }
      ]

  pub All-Holds-marked :
      (callbacks : List TimerCallback)
      → get task timers ≡ some a
      → b.timer ≡ a.timer
      → b.generation ≡ a.generation
      → All (Holds timers) callbacks
      → All (Holds (put task b timers)) callbacks
  All-Holds-marked [] e t g h = tt
  All-Holds-marked (c ∷ callbacks) e t g h =
      (Holds-marked c e t g h.0, All-Holds-marked callbacks e t g h.1)

pub Elsewhere-put :
    (task : Text) (timers : Dict ArmedTimer) (a : ArmedTimer)
    → Elsewhere task timers (put task a timers)
Elsewhere-put task timers a =
    λ t other. get-put_if t task a timers ∙ ap (λ x. if x then some a else get t timers) other

pub Elsewhere-without :
    (task : Text) (timers : Dict ArmedTimer) → Elsewhere task timers (without_timer task timers)
Elsewhere-without task timers =
    λ t other. get-without_timer t task timers ∙ ap (λ x. if x then none else get t timers) other

-- A new entry of a task and the callback that it cancels.
pub IsArmed-new :
    (timers : Dict ArmedTimer) (c : TimerCallback) (a : ArmedTimer)
    → a.timer ≡ c.callback_timer
    → a.generation ≡ c.callback_generation
    → IsArmed (put c.callback_task a timers) c
IsArmed-new timers c a t g = record {
  entry = a;
  found =
      get-put_if c.callback_task c.callback_task a timers
      ∙ ap (λ x. if x then some a else get c.callback_task timers)
          ((text_eq_iff c.callback_task c.callback_task).1 refl);
  same_timer = t;
  same_generation = g;
}
