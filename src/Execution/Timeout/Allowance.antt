-- ===== src/Execution/Timeout/Allowance.antt =====
-- internal/execution/timeout.go: how many attempts a timer that is armed has used, and has left.
use codex_runner.Prelude.{
  ℕ, ◌+◌, ◌≤◌, ◌<◌, ◌≡◌, refl, sym, ap, subst, ◌∙◌, true, false, List, ◌∷◌, some, Text, text_eq,
  text_eq_iff, leb, ◌==◌, if◌then◌else◌, arith, Bool-cases, inl, inr, branches,
}
use Prim.Native.Nat.{◌^◌}
use codex_runner.Prelude.Dict.{Dict, get, put}
use codex_runner.Execution.Timeout.{
  ArmedTimer, TimerCallback, Attempt, TimeoutWatcher, following, without_timer, arm,
  retry_max_attempts,
}
use codex_runner.Execution.Timeout.Counting.{attempts_of, get-put-some, get-without_timer-some}

-- The attempts of an armed timer: one for each retry, and the first.
pub record Allowed (next : ℕ) (attempts : List Attempt) (t : Text) (a : ArmedTimer) : Type 0 where
  pub handed_out : a.generation ≤ next
  pub retries : a.retry_attempts ≤ retry_max_attempts
  pub tried :
      attempts_of t a.generation attempts + (if a.executing then 0 else 1) ≤ a.retry_attempts + 1

abbrev Entries : ℕ → List Attempt → Dict ArmedTimer → Type 0
Entries next attempts timers =
    (t : Text) (a : ArmedTimer) → get t timers ≡ some a → Allowed next attempts t a

module _ (next : ℕ) (attempts : List Attempt) (timers : Dict ArmedTimer) where
  pub Entries-put :
      (task : Text) (v : ArmedTimer)
      → Entries next attempts timers
      → Allowed next attempts task v
      → Entries next attempts (put task v timers)
  Entries-put task v all ok = λ t a e. elim (get-put-some t task v a timers e) [
    | inl (same, value) ↦
        subst (λ x. Allowed next attempts t x) value
          (subst (λ x. Allowed next attempts x v) same ok)
    | inr (other, found) ↦ all t a found
  ]

  pub Entries-without :
      (task : Text)
      → Entries next attempts timers
      → Entries next attempts (without_timer task timers)
  Entries-without task all = λ t a e. all t a (get-without_timer-some t task a timers e).1

pub record IsCounted (w : TimeoutWatcher) : Type 0 where
  pub entries : Entries w.next_generation w.attempts w.timers
  pub unused : (t : Text) (g : ℕ) → w.next_generation < g → attempts_of t g w.attempts ≡ 0
  pub bounded : (t : Text) (g : ℕ) → attempts_of t g w.attempts ≤ retry_max_attempts + 1

-- Those moves that take entries away or leave them alone.
pub Same-IsCounted :
    (w v : TimeoutWatcher)
    → v.next_generation ≡ w.next_generation
    → v.attempts ≡ w.attempts
    → Entries w.next_generation w.attempts v.timers
    → IsCounted w
    → IsCounted v
Same-IsCounted w v n t e s = record {
  entries =
      subst (λ x. Entries x v.attempts v.timers) (sym n)
        (subst (λ x. Entries w.next_generation x v.timers) (sym t) e);
  unused = λ task g l. ap (attempts_of task g) t ∙ s.unused task g (omega arith);
  bounded = λ task g.
      subst (λ x. attempts_of task g x ≤ retry_max_attempts + 1) (sym t) (s.bounded task g);
}

Allowed-later :
    (n k : ℕ) (attempts : List Attempt) (t : Text) (a : ArmedTimer)
    → n ≤ k
    → Allowed n attempts t a
    → Allowed k attempts t a
Allowed-later n k attempts t a l h = record {
  handed_out = omega (arith, h.handed_out);
  retries = h.retries;
  tried = h.tried;
}

armed-IsCounted :
    (w v : TimeoutWatcher) (task : Text) (a : ArmedTimer)
    → v.next_generation ≡ w.next_generation + 1
    → v.attempts ≡ w.attempts
    → v.timers ≡ put task a w.timers
    → a.generation ≡ w.next_generation + 1
    → a.retry_attempts ≡ 0
    → a.executing ≡ false
    → IsCounted w
    → IsCounted v
armed-IsCounted w v task a n at timers g r x s =
    let next = w.next_generation + 1 in
    let old : Entries next w.attempts w.timers = λ t b e.
      Allowed-later w.next_generation next w.attempts t b (omega arith) (s.entries t b e) in
    let none_yet : attempts_of task a.generation w.attempts ≡ 0 =
      s.unused task a.generation (omega arith) in
    let new : Allowed next w.attempts task a = record {
      handed_out = omega arith;
      retries = omega arith;
      tried = ground (arith, none_yet);
    } in
    let all : Entries next w.attempts v.timers =
      subst (Entries next w.attempts) (sym timers)
        (Entries-put next w.attempts w.timers task a old new) in
    record {
      entries =
          subst (λ k. Entries k v.attempts v.timers) (sym n)
            (subst (λ k. Entries next k v.timers) (sym at) all);
      unused = λ t k l. ap (attempts_of t k) at ∙ s.unused t k (omega arith);
      bounded =
          λ t k. subst (λ y. attempts_of t k y ≤ retry_max_attempts + 1) (sym at) (s.bounded t k);
    }

pub arm-IsCounted :
    (task : Text) (deadline seconds lifecycle : ℕ) (w : TimeoutWatcher)
    → w.next_generation + 1 < 2 ^ 64
    → IsCounted w
    → IsCounted (arm task deadline seconds lifecycle w)
unfolding arm
arm-IsCounted task deadline seconds lifecycle w bound s =
    let next : following w.next_generation ≡ w.next_generation + 1 = omega arith in
    branches IsCounted w.is_closed _ _ (λ h. s)
      (λ h. armed-IsCounted w _ task _ next refl refl next refl refl s)

pub Allowed-again :
    (next : ℕ) (attempts : List Attempt) (t : Text) (a : ArmedTimer) (timer : ℕ)
    → leb retry_max_attempts a.retry_attempts ≡ false
    → Allowed next attempts t a
    → Allowed next attempts t
        (record a { timer = timer; retry_attempts = a.retry_attempts + 1; executing = false })
Allowed-again next attempts t a timer l h = record {
  handed_out = h.handed_out;
  retries = ground arith;
  tried = ground (arith, h.tried);
}

-- One more attempt, by the timer `a` of the task.
module _ (x : Attempt) (attempts : List Attempt) where
  attempts_of-one :
      (t : Text) (g : ℕ) → attempts_of t g (x ∷ attempts) ≤ attempts_of t g attempts + 1
  unfolding attempts_of
  attempts_of-one t g = ground arith

  attempts_of-other :
      (t : Text) (g : ℕ)
      → text_eq x.attempt_task t ≡ false
      → attempts_of t g (x ∷ attempts) ≡ attempts_of t g attempts
  unfolding attempts_of
  attempts_of-other t g h = ground arith

  attempts_of-another :
      (t : Text) (g : ℕ)
      → (x.attempt_timer == g) ≡ false
      → attempts_of t g (x ∷ attempts) ≡ attempts_of t g attempts
  unfolding attempts_of
  attempts_of-another t g h = ground arith

module _ (w : TimeoutWatcher) (x : Attempt) (a : ArmedTimer) where
  tried_before :
      a.executing ≡ false
      → Allowed w.next_generation w.attempts x.attempt_task a
      → attempts_of x.attempt_task a.generation w.attempts ≤ a.retry_attempts
  tried_before idle ok = ground (arith, ok.tried)

  begun-bounded :
      x.attempt_timer ≡ a.generation
      → a.executing ≡ false
      → Allowed w.next_generation w.attempts x.attempt_task a
      → IsCounted w
      → (t : Text) (g : ℕ) → attempts_of t g (x ∷ w.attempts) ≤ retry_max_attempts + 1
  begun-bounded timer idle ok s t k = elim (Bool-cases (text_eq x.attempt_task t)) [
    | inl same ↦ elim (Bool-cases (x.attempt_timer == k)) [
      | inl equal ↦
          let task : x.attempt_task ≡ t = (text_eq_iff x.attempt_task t).0 same in
          let generation : a.generation ≡ k = ground arith in
          let few : attempts_of t k w.attempts ≤ a.retry_attempts =
            subst (λ y. attempts_of t y w.attempts ≤ a.retry_attempts) generation
              (subst (λ y. attempts_of y a.generation w.attempts ≤ a.retry_attempts) task
                (tried_before idle ok)) in
          omega (arith, few, ok.retries, attempts_of-one x w.attempts t k)
      | inr unequal ↦ omega (arith, attempts_of-another x w.attempts t k unequal, s.bounded t k)
    ]
    | inr other ↦ omega (arith, attempts_of-other x w.attempts t k other, s.bounded t k)
  ]

  begun-Entries :
      x.attempt_timer ≡ a.generation
      → a.executing ≡ false
      → Allowed w.next_generation w.attempts x.attempt_task a
      → Entries w.next_generation w.attempts w.timers
      → Entries w.next_generation
          (x ∷ w.attempts)
          (put x.attempt_task (record a { executing = true }) w.timers)
  begun-Entries timer idle ok all = λ t b e.
      elim (get-put-some t x.attempt_task (record a { executing = true }) b w.timers e) [
        | inl (same, value) ↦
            let mine : Allowed w.next_generation (x ∷ w.attempts) x.attempt_task
                (record a { executing = true }) =
              record {
                handed_out = ok.handed_out;
                retries = ok.retries;
                tried = omega (
                  arith,
                  tried_before idle ok,
                  attempts_of-one x w.attempts x.attempt_task a.generation,
                );
              } in
            subst (λ y. Allowed w.next_generation (x ∷ w.attempts) t y) value
              (subst
                (λ y. Allowed w.next_generation (x ∷ w.attempts) y (record a { executing = true }))
                same mine)
        | inr (other, found) ↦
            let old = all t b found in
            record {
              handed_out = old.handed_out;
              retries = old.retries;
              tried = omega (arith, old.tried, attempts_of-other x w.attempts t b.generation other);
            }
      ]

  pub begun-IsCounted :
      (callbacks : List TimerCallback)
      → x.attempt_timer ≡ a.generation
      → a.executing ≡ false
      → get x.attempt_task w.timers ≡ some a
      → IsCounted w
      → IsCounted (record w {
        timers = put x.attempt_task (record a { executing = true }) w.timers;
        callbacks = callbacks;
        attempts = x ∷ w.attempts;
      })
  begun-IsCounted callbacks timer idle e s =
      let ok = s.entries x.attempt_task a e in
      record {
        entries = begun-Entries timer idle ok s.entries;
        unused = λ t k l.
            attempts_of-another x w.attempts t k (ground (arith, ok.handed_out)) ∙ s.unused t k l;
        bounded = begun-bounded timer idle ok s;
      }
