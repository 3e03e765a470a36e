-- ===== src/Execution/Timeout/Counting.antt =====
-- How often a generation is under way and how often it was enforced, and the entries of the map.
use codex_runner.Prelude.{
  ℕ, zero, suc, ◌+◌, ◌≤◌, ◌≡◌, refl, sym, ap, subst, ◌∙◌, false, ◌&&◌, List, [], ◌∷◌, Option, none,
  some, Text, text_eq, text_eq_iff, ◌==◌, if◌then◌else◌, arith, Option-cases, Bool-cases, ◌⊎◌, inl,
  inr, All,
}
use codex_runner.Prelude.Dict.{Dict, get, put}
use codex_runner.Execution.Timeout.{
  ArmedTimer, TimerCallback, Attempt, without_timer, cancel_timer, pick,
}

-- The callbacks of a generation that have not ended.
unfoldable pub live : ℕ → List TimerCallback → ℕ
live g [] = 0
live g (c ∷ callbacks) = (if c.callback_generation == g then 1 else 0) + live g callbacks

-- The attempts for a task by the timer of a generation.
unfoldable pub attempts_of : Text → ℕ → List Attempt → ℕ
unfolding text_eq
attempts_of task g [] = 0
attempts_of task g (a ∷ attempts) =
    (if text_eq a.attempt_task task && a.attempt_timer == g then 1 else 0)
    + attempts_of task g attempts

pub live-cancel_timer :
    (g timer : ℕ) (callbacks : List TimerCallback)
    → live g (cancel_timer timer callbacks) ≤ live g callbacks
unfolding live cancel_timer
live-cancel_timer g timer [] = omega arith
live-cancel_timer g timer (c ∷ callbacks) = ground (arith, live-cancel_timer g timer callbacks)

pub live-pick :
    (g i : ℕ) (callbacks : List TimerCallback) (c : TimerCallback) (rest : List TimerCallback)
    → pick i callbacks ≡ some (c, rest)
    → live g callbacks ≡ (if c.callback_generation == g then 1 else 0) + live g rest
unfolding live pick
live-pick g i [] c rest h = cc
live-pick g zero (d ∷ callbacks) c rest h = ground arith
live-pick g (suc i) (d ∷ callbacks) c rest h = elim (Option-cases (pick i callbacks)) [
  | inl e ↦ ground arith
  | inr ((x, others), e) ↦ ground (arith, live-pick g i callbacks x others e)
]

picked-holds :
    (P : TimerCallback → Type 0) (c d : TimerCallback) (rest others : List TimerCallback)
    → ◌≡◌ {A = Option (TimerCallback × List TimerCallback)} (some (c, rest)) (some (d, others))
    → P c × All P rest
    → P d × All P others
picked-holds P c d rest others h a =
    subst (λ (x : TimerCallback × List TimerCallback). P x.0 × All P x.1) (cc) a

pub All-pick :
    (P : TimerCallback → Type 0) (i : ℕ) (callbacks : List TimerCallback) (c : TimerCallback)
    (rest : List TimerCallback)
    → pick i callbacks ≡ some (c, rest)
    → All P callbacks
    → P c × All P rest
unfolding pick
All-pick P i [] c rest h a = cc
All-pick P zero (d ∷ callbacks) c rest h a = picked-holds P d c callbacks rest h (a.0, a.1)
All-pick P (suc i) (d ∷ callbacks) c rest h a = elim (Option-cases (pick i callbacks)) [
  | inl e ↦ absurd (cc (rw e at h))
  | inr ((x, others), e) ↦
      let r = All-pick P i callbacks x others e a.1 in
      picked-holds P x c (d ∷ others) rest (rw e at h) (r.0, (a.0, r.1))
]

pub get-put_if :
    (k j : Text) (v : ArmedTimer) (d : Dict ArmedTimer)
    → get k (put j v d) ≡ (if text_eq j k then some v else get k d)
unfolding get put
get-put_if k j v [] = refl
get-put_if k j v ((i, w) ∷ d) =
    ground (arith, get-put_if k j v d, text_eq_iff i j, text_eq_iff i k, text_eq_iff j k)

pub get-without_timer :
    (k j : Text) (d : Dict ArmedTimer)
    → get k (without_timer j d) ≡ (if text_eq j k then none else get k d)
unfolding get without_timer
get-without_timer k j [] = ground arith
get-without_timer k j ((i, w) ∷ d) =
    ground (arith, get-without_timer k j d, text_eq_iff i j, text_eq_iff i k, text_eq_iff j k)

pub get-put-some :
    (t task : Text) (v a : ArmedTimer) (timers : Dict ArmedTimer)
    → get t (put task v timers) ≡ some a
    → ((task ≡ t) × (v ≡ a)) ⊎ ((text_eq task t ≡ false) × (get t timers ≡ some a))
get-put-some t task v a timers e = elim (Bool-cases (text_eq task t)) [
  | inl same ↦
      let found : some v ≡ some a =
        ap (λ b. if b then some v else get t timers) (sym same)
        ∙ (sym (get-put_if t task v timers) ∙ e) in
      inl ((text_eq_iff task t).0 same, cc)
  | inr other ↦ inr (
    other,
    ap (λ b. if b then some v else get t timers) (sym other)
        ∙ (sym (get-put_if t task v timers) ∙ e),
  )
]

pub get-without_timer-some :
    (t task : Text) (a : ArmedTimer) (timers : Dict ArmedTimer)
    → get t (without_timer task timers) ≡ some a
    → (text_eq task t ≡ false) × (get t timers ≡ some a)
get-without_timer-some t task a timers e = elim (Bool-cases (text_eq task t)) [
  | inl same ↦
      let lost : none ≡ some a =
        ap (λ b. if b then none else get t timers) (sym same)
        ∙ (sym (get-without_timer t task timers) ∙ e) in
      absurd (cc)
  | inr other ↦ (
    other,
    ap (λ b. if b then none else get t timers) (sym other)
        ∙ (sym (get-without_timer t task timers) ∙ e),
  )
]
