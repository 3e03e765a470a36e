-- ===== src/Supervisor/Detect/Recommendation/Response.antt =====
-- The rows that are taken for the response, described without the loops that find them.
use codex_runner.Prelude.{
  ℕ, zero, suc, ◌+◌, ◌-◌, ◌≤◌, ◌<◌, ◌≡◌, ap, subst, ◌∙◌, ◌↔◌, Bool, true, false, List, [], ◌∷◌,
  Option, none, some, Text, text_eq, length, if◌then◌else◌, arith, Bool-cases, inl, inr, branches,
}
use codex_runner.Supervisor.Detect.Patterns.{Matching, trim}
use codex_runner.Supervisor.Detect.Input.{row_at}
use codex_runner.Supervisor.Detect.Input.Search.{IsLast, Finds, Finds-wider, Finds-here, Finds-eq}
use codex_runner.Supervisor.Detect.Recommendation.{
  last_up, down_to, is_box_at, is_echo_at, is_done_at, any_shown, slice, input_box, response_to,
  response_after, response_above, observed_recommendation_bounds,
}

last_up-Finds :
    (test : ℕ → Bool) (low i n : ℕ) (found : Option ℕ)
    → low ≤ i
    → Finds test low i found
    → Finds test low (i + n) (last_up test i n found)
unfolding last_up
last_up-Finds test low i zero found l f = subst (λ h. Finds test low h found) (omega arith) f
last_up-Finds test low i (suc n) found l f =
    let step : Finds test low (suc i) (if test i then some i else found) =
      branches (Finds test low (suc i)) (test i) _ _ (λ h. Finds-here test low i l h)
        (λ h. Finds-wider test low i found h f) in
    let same : suc i ≡ i + 1 = omega arith in
    let bound : i + 1 + n ≡ i + suc n = omega arith in
    subst (λ h. Finds test low h (last_up test (i + 1) n (if test i then some i else found))) bound
      (last_up-Finds test low (i + 1) n (if test i then some i else found) (omega arith)
        (subst (λ h. Finds test low h (if test i then some i else found)) same step))

pub last_up-start :
    (test : ℕ → Bool) (low n : ℕ) → Finds test low (low + n) (last_up test low n none)
last_up-start test low n =
    last_up-Finds test low low n none (omega arith) (λ j l bound. absurd (omega arith))

down_to-Finds :
    (test : ℕ → Bool) (low n : ℕ) → Finds test (low + 1) (low + suc n) (down_to test low n)
unfolding down_to
down_to-Finds test low zero = λ j l bound. absurd (omega arith)
down_to-Finds test low (suc n) =
    let next : suc (low + suc n) ≡ low + suc (suc n) = omega arith in
    subst (λ h. Finds test (low + 1) h (down_to test low (suc n))) next
      (branches (Finds test (low + 1) (suc (low + suc n))) (test (low + suc n)) _ _
        (λ h. Finds-here test (low + 1) (low + suc n) (omega arith) h)
        (λ h.
          Finds-wider test (low + 1) (low + suc n) (down_to test low n) h
            (down_to-Finds test low n)))

abbrev pub IsShown : Matching → List Text → ℕ → Type 0
IsShown m rows k = text_eq (trim m.is_blank (row_at rows k)) [] ≡ false

any_shown→IsShown :
    (m : Matching) (rows : List Text) (low high : ℕ)
    → any_shown m (slice rows low high) ≡ true
    → (k : ℕ) × (low ≤ k) × (k < high) × IsShown m rows k
unfolding any_shown
any_shown→IsShown m rows zero zero h = cc
any_shown→IsShown m rows (suc low) zero h = cc
any_shown→IsShown m [] zero (suc high) h = cc
any_shown→IsShown m [] (suc low) (suc high) h = cc
any_shown→IsShown m (row ∷ rows) zero (suc high) h =
    elim (Bool-cases (text_eq (trim m.is_blank row) [])) [
      | inl blank ↦
          let rest = any_shown→IsShown m rows zero high (ground arith) in
          (suc rest.0, omega arith, omega (arith, rest.2), rest.3)
      | inr shown ↦ (zero, omega arith, omega arith, shown)
    ]
any_shown→IsShown m (row ∷ rows) (suc low) (suc high) h =
    let rest = any_shown→IsShown m rows low high h in
    (suc rest.0, omega (arith, rest.1), omega (arith, rest.2), rest.3)

IsShown→any_shown :
    (m : Matching) (rows : List Text) (low high k : ℕ)
    → low ≤ k
    → k < high
    → IsShown m rows k
    → any_shown m (slice rows low high) ≡ true
unfolding any_shown trim
IsShown→any_shown m rows low zero k l bound h = absurd (omega arith)
IsShown→any_shown m [] low (suc high) k l bound h = cc
IsShown→any_shown m (row ∷ rows) zero (suc high) zero l bound h = ground arith
IsShown→any_shown m (row ∷ rows) zero (suc high) (suc k) l bound h =
    ground (arith, IsShown→any_shown m rows zero high k (omega arith) (omega arith) h)
IsShown→any_shown m (row ∷ rows) (suc low) (suc high) zero l bound h = absurd (omega arith)
IsShown→any_shown m (row ∷ rows) (suc low) (suc high) (suc k) l bound h =
    IsShown→any_shown m rows low high k (omega arith) (omega arith) h

-- `low` and `high` are the row after the last echoed input above the lowest input box and the last
-- completion row between the two; a row in between is not blank.
pub record IsResponse (m : Matching) (rows : List Text) (low high : ℕ) : Type 0 where
  pub box : ℕ
  pub echo : ℕ
  pub is_box : IsLast (is_box_at rows) 1 (length rows - 1) box
  pub is_echo : IsLast (is_echo_at rows) 0 box echo
  pub below_echo : echo + 1 ≡ low
  pub is_done : IsLast (is_done_at rows) (echo + 1) box high
  pub shown : (k : ℕ) × (echo + 1 ≤ k) × (k < high) × IsShown m rows k

last_up-length : (test : ℕ → Bool) (n : ℕ) → Finds test 1 (n - 1) (last_up test 1 (n - 2) none)
unfolding last_up
last_up-length test zero = λ j l bound. absurd (omega arith)
last_up-length test (suc zero) = λ j l bound. absurd (omega arith)
last_up-length test (suc (suc k)) =
    let same : 1 + (suc (suc k) - 2) ≡ suc (suc k) - 1 = omega arith in
    subst (λ h. Finds test 1 h (last_up test 1 (suc (suc k) - 2) none)) same
      (last_up-start test 1 (suc (suc k) - 2))

pub input_box-Finds :
    (rows : List Text) → Finds (is_box_at rows) 1 (length rows - 1) (input_box rows)
unfolding input_box
input_box-Finds rows = last_up-length (is_box_at rows) (length rows)

echo-Finds :
    (rows : List Text) (box : ℕ)
    → Finds (is_echo_at rows) 0 box (last_up (is_echo_at rows) 0 box none)
echo-Finds rows box =
    let same : 0 + box ≡ box = omega arith in
    subst (λ h. Finds (is_echo_at rows) 0 h (last_up (is_echo_at rows) 0 box none)) same
      (last_up-start (is_echo_at rows) 0 box)

done-Finds :
    (rows : List Text) (echo box : ℕ)
    → echo < box
    → Finds (is_done_at rows) (echo + 1) box (down_to (is_done_at rows) echo (box - 1 - echo))
done-Finds rows echo box l =
    let same : echo + suc (box - 1 - echo) ≡ box = omega arith in
    subst
      (λ h. Finds (is_done_at rows) (echo + 1) h (down_to (is_done_at rows) echo (box - 1 - echo)))
      same (down_to-Finds (is_done_at rows) echo (box - 1 - echo))

some-Finds :
    (test : ℕ → Bool) (low high i : ℕ) (o : Option ℕ)
    → Finds test low high o
    → o ≡ some i
    → IsLast test low high i
some-Finds test low high i o f e = subst (Finds test low high) e f

module _ (m : Matching) (rows : List Text) (low high : ℕ) where
  response_to-some :
      (echo : ℕ) (o : Option ℕ)
      → response_to m rows echo o ≡ some (low, high)
      → (o ≡ some high) × (echo + 1 ≡ low) × (any_shown m (slice rows (echo + 1) high) ≡ true)
  response_to-some echo none h = cc
  response_to-some echo (some end) h = elim (Bool-cases (any_shown m (slice rows (echo + 1) end))) [
    | inl shown ↦
        let e : ◌≡◌ {A = Option (ℕ × ℕ)} (some (echo + 1, end)) (some (low, high)) =
          rw shown at h in
        (cc, cc, cc)
    | inr hidden ↦ absurd (cc (rw hidden at h))
  ]

  response_after-some :
      (box : ℕ) (o : Option ℕ)
      → Finds (is_echo_at rows) 0 box o
      → IsLast (is_box_at rows) 1 (length rows - 1) box
      → response_after m rows box o ≡ some (low, high)
      → IsResponse m rows low high
  response_after-some box none f b h = cc
  response_after-some box (some echo) f b h =
      let t = response_to-some echo (down_to (is_done_at rows) echo (box - 1 - echo)) h in
      record {
        box = box;
        echo = echo;
        is_box = b;
        is_echo = f;
        below_echo = t.1;
        is_done =
            some-Finds (is_done_at rows) (echo + 1) box high
              (down_to (is_done_at rows) echo (box - 1 - echo)) (done-Finds rows echo box f.before)
              t.0;
        shown = any_shown→IsShown m rows (echo + 1) high t.2;
      }

  response_above-some :
      (o : Option ℕ)
      → Finds (is_box_at rows) 1 (length rows - 1) o
      → response_above m rows o ≡ some (low, high)
      → IsResponse m rows low high
  response_above-some none f h = cc
  response_above-some (some box) f h =
      response_after-some box (last_up (is_echo_at rows) 0 box none) (echo-Finds rows box) f h

  found_response :
      IsResponse m rows low high → observed_recommendation_bounds m rows ≡ some (low, high)
  unfolding observed_recommendation_bounds
  found_response r =
      let b : input_box rows ≡ some r.box =
        Finds-eq (is_box_at rows) 1 (length rows - 1) r.box _ (input_box-Finds rows) r.is_box in
      let e : last_up (is_echo_at rows) 0 r.box none ≡ some r.echo =
        Finds-eq (is_echo_at rows) 0 r.box r.echo _ (echo-Finds rows r.box) r.is_echo in
      let d : down_to (is_done_at rows) r.echo (r.box - 1 - r.echo) ≡ some high =
        Finds-eq (is_done_at rows) (r.echo + 1) r.box high _
          (done-Finds rows r.echo r.box r.is_echo.before) r.is_done in
      let s : any_shown m (slice rows (r.echo + 1) high) ≡ true =
        IsShown→any_shown m rows (r.echo + 1) high r.shown.0 r.shown.1 r.shown.2 r.shown.3 in
      ap (response_above m rows) b
      ∙ (ap (response_after m rows r.box) e
          ∙ (ap (response_to m rows r.echo) d ∙ rw s (ap (λ x. some (x, high)) r.below_echo)))

-- The response that is read off the screen is the part from row `low` up to row `high` exactly when,
-- for the lowest input box and the last echoed input above it, `low` is the row after the echo, `high`
-- is the last completion row between the echo and the box, and some row from `low` on and above `high`
-- is not blank.
pub observed_recommendation_bounds_iff :
    (m : Matching) (rows : List Text) (low high : ℕ)
    → (observed_recommendation_bounds m rows ≡ some (low, high)) ↔ IsResponse m rows low high
unfolding observed_recommendation_bounds
observed_recommendation_bounds_iff m rows low high = (
  λ h. response_above-some m rows low high (input_box rows) (input_box-Finds rows) h,
  λ r. found_response m rows low high r,
)
