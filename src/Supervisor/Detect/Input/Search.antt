-- ===== src/Supervisor/Detect/Input/Search.antt =====
-- The searches for the last row of a kind, and the input row that they find.
use codex_runner.Prelude.{
  ℕ, zero, suc, ◌+◌, ◌-◌, ◌≤◌, ◌<◌, ◌≡◌, refl, sym, ap, subst, ◌∙◌, Bool, true, false, ◌||◌, List,
  [], Option, none, some, Text, text_eq, length, if◌then◌else◌, arith, Bool-cases, Option-cases,
  inl, inr, branches,
}
use native.Mathlib.Decide.{dec_lt}
use codex_runner.Supervisor.Text.Words.{has_prefix}
use codex_runner.Supervisor.Detect.Patterns.{
  Matching, DetectorPatternSet, trim, observed_working_line,
}
use codex_runner.Supervisor.Detect.Input.{
  row_at, all_border, is_input_at, last_down, last_input_row, auxiliary_row_start, working_above,
}

-- The last place from `low` on and before `high` that passes the test.
pub record IsLast (test : ℕ → Bool) (low high i : ℕ) : Type 0 where
  pub from : low ≤ i
  pub before : i < high
  pub passes : test i ≡ true
  pub none_after : (j : ℕ) → i < j → j < high → test j ≡ false

pub IsLast-unique :
    (test : ℕ → Bool) (low high i j : ℕ) → IsLast test low high i → IsLast test low high j → i ≡ j
IsLast-unique test low high i j a b =
    grind (arith, a.none_after j, b.none_after i, a.passes, b.passes, a.before, b.before)

pub IsLast-wider :
    (test : ℕ → Bool) (low high i : ℕ)
    → test high ≡ false
    → IsLast test low high i
    → IsLast test low (suc high) i
IsLast-wider test low high i no_test l = record {
  from = l.from;
  before = omega (arith, l.before);
  passes = l.passes;
  none_after = λ j after bound. elim (dec_lt j high) [
    | yes k ↦ l.none_after j after k
    | no k ↦ subst (λ x. test x ≡ false) (omega arith) no_test
  ];
}

-- What a search finds is the last place, and where it finds none there is none.
abbrev pub Finds : (ℕ → Bool) → ℕ → ℕ → Option ℕ → Type 0
Finds test low high none = (j : ℕ) → low ≤ j → j < high → test j ≡ false
Finds test low high (some i) = IsLast test low high i

pub Finds-wider :
    (test : ℕ → Bool) (low high : ℕ) (o : Option ℕ)
    → test high ≡ false
    → Finds test low high o
    → Finds test low (suc high) o
Finds-wider test low high none no_test f = λ j l bound. elim (dec_lt j high) [
  | yes k ↦ f j l k
  | no k ↦ subst (λ x. test x ≡ false) (omega arith) no_test
]
Finds-wider test low high (some i) no_test f = IsLast-wider test low high i no_test f

pub Finds-here : (test : ℕ → Bool) (low i : ℕ) → low ≤ i → test i ≡ true → IsLast test low (suc i) i
Finds-here test low i l h = record {
  from = l;
  before = omega arith;
  passes = h;
  none_after = λ j after bound. absurd (omega arith);
}

pub Finds-eq :
    (test : ℕ → Bool) (low high i : ℕ) (o : Option ℕ)
    → Finds test low high o
    → IsLast test low high i
    → o ≡ some i
Finds-eq test low high i none f l = cc (f i l.from l.before, l.passes)
Finds-eq test low high i (some j) f l = ap some (IsLast-unique test low high j i f l)

last_down-Finds : (test : ℕ → Bool) (n : ℕ) → Finds test 1 (suc n) (last_down test n)
unfolding last_down
last_down-Finds test zero = λ j l bound. absurd (omega arith)
last_down-Finds test (suc i) =
    branches (Finds test 1 (suc (suc i))) (test (suc i)) _ _
      (λ h. Finds-here test 1 (suc i) (omega arith) h)
      (λ h. Finds-wider test 1 (suc i) (last_down test i) h (last_down-Finds test i))

-- The row of the input box: the prompt between two borders, and none like it below.
pub record IsInputRow (p : DetectorPatternSet) (rows : List Text) (i : ℕ) : Type 0 where
  pub last : IsLast (is_input_at p rows) 1 (length rows - 1) i
  pub prompt_set : text_eq p.prompt [] ≡ false
  pub prompted : has_prefix (row_at rows i) p.prompt ≡ true
  pub top : all_border (row_at rows (i - 1)) p.idle_top ≡ true
  pub bottom : all_border (row_at rows (i + 1)) p.idle_bottom ≡ true

last_down-length : (test : ℕ → Bool) (n : ℕ) → Finds test 1 (n - 1) (last_down test (n - 2))
unfolding last_down
last_down-length test zero = λ j l bound. absurd (omega arith)
last_down-length test (suc zero) = λ j l bound. absurd (omega arith)
last_down-length test (suc (suc k)) =
    let same : suc (suc (suc k) - 2) ≡ suc (suc k) - 1 = omega arith in
    subst (λ h. Finds test 1 h (last_down test (suc (suc k) - 2))) same
      (last_down-Finds test (suc (suc k) - 2))

from_branch : (b : Bool) (o : Option ℕ) {i : ℕ} → (if b then none else o) ≡ some i → o ≡ some i
from_branch true o h = cc
from_branch false o h = h

from_branch_test : (b : Bool) (o : Option ℕ) {i : ℕ} → (if b then none else o) ≡ some i → b ≡ false
from_branch_test true o h = cc
from_branch_test false o h = refl

abbrev pub no_input_pattern : DetectorPatternSet → Bool
no_input_pattern p = text_eq p.prompt [] || (text_eq p.idle_top [] || text_eq p.idle_bottom [])

module _ (p : DetectorPatternSet) (rows : List Text) where
  pub last_input_row-Finds :
      no_input_pattern p ≡ false
      → Finds (is_input_at p rows) 1 (length rows - 1) (last_input_row p rows)
  unfolding last_input_row
  last_input_row-Finds full = rw full (last_down-length (is_input_at p rows) (length rows))

  last_input_row-IsLast :
      (i : ℕ)
      → last_input_row p rows ≡ some i
      → (no_input_pattern p ≡ false) × IsLast (is_input_at p rows) 1 (length rows - 1) i
  unfolding last_input_row
  last_input_row-IsLast i h =
      let o = last_down (is_input_at p rows) (length rows - 2) in
      (
        from_branch_test (no_input_pattern p) o h,
        subst (Finds (is_input_at p rows) 1 (length rows - 1))
            (from_branch (no_input_pattern p) o h)
            (last_down-length (is_input_at p rows) (length rows)),
      )

  pub last_input_row-IsInputRow : (i : ℕ) → last_input_row p rows ≡ some i → IsInputRow p rows i
  unfolding is_input_at
  last_input_row-IsInputRow i h =
      let l = last_input_row-IsLast i h in
      record {
        last = l.1;
        prompt_set = ground (arith, l.0);
        prompted = ground (arith, l.1.passes);
        top = ground (arith, l.1.passes);
        bottom = ground (arith, l.1.passes);
      }

  IsInputRow-pattern : (i : ℕ) → IsInputRow p rows i → no_input_pattern p ≡ false
  unfolding all_border
  IsInputRow-pattern i r = ground (arith, r.top, r.bottom, r.prompt_set)

  pub IsInputRow→last_input_row : (i : ℕ) → IsInputRow p rows i → last_input_row p rows ≡ some i
  IsInputRow→last_input_row i r =
      Finds-eq (is_input_at p rows) 1 (length rows - 1) i (last_input_row p rows)
        (last_input_row-Finds (IsInputRow-pattern i r)) r.last

auxiliary_row_start-lt :
    (m : Matching) (rows : List Text) (n start : ℕ)
    → auxiliary_row_start m rows n ≡ some start
    → start < n
unfolding auxiliary_row_start
auxiliary_row_start-lt m rows zero start h = cc
auxiliary_row_start-lt m rows (suc i) start h =
    ground (arith, auxiliary_row_start-lt m rows i start)

module _ (m : Matching) (rows : List Text) (f i : ℕ) where
  working_above-blank :
      text_eq (trim m.is_blank (row_at rows i)) [] ≡ true
      → working_above m rows (suc f) (suc i) ≡ working_above m rows f i
  unfolding working_above
  working_above-blank blank = ground arith

  working_above-auxiliary :
      (start : ℕ)
      → text_eq (trim m.is_blank (row_at rows i)) [] ≡ false
      → auxiliary_row_start m rows (suc i) ≡ some start
      → working_above m rows (suc f) (suc i) ≡ working_above m rows f start
  unfolding working_above
  working_above-auxiliary start shown e = ground arith

  working_above-plain :
      text_eq (trim m.is_blank (row_at rows i)) [] ≡ false
      → auxiliary_row_start m rows (suc i) ≡ none
      → working_above m rows (suc f) (suc i) ≡ observed_working_line m (row_at rows i)
  unfolding working_above
  working_above-plain shown e = ground arith

-- The loop that looks for the working row above the input ends within as many rounds as there are rows
-- above it: any two bounds on the rounds that allow for those rows give the same result.
pub working_above_fuel :
    (m : Matching) (rows : List Text) (f g n : ℕ)
    → n ≤ f
    → n ≤ g
    → working_above m rows f n ≡ working_above m rows g n
unfolding working_above
working_above_fuel m rows zero zero n l k = refl
working_above_fuel m rows zero (suc g) zero l k = refl
working_above_fuel m rows (suc f) zero zero l k = refl
working_above_fuel m rows (suc f) (suc g) zero l k = refl
working_above_fuel m rows zero (suc g) (suc i) l k = absurd (omega arith)
working_above_fuel m rows (suc f) zero (suc i) l k = absurd (omega arith)
working_above_fuel m rows (suc f) (suc g) (suc i) l k =
    elim (Bool-cases (text_eq (trim m.is_blank (row_at rows i)) [])) [
      | inl blank ↦
          working_above-blank m rows f i blank
          ∙ (working_above_fuel m rows f g i (omega arith) (omega arith)
              ∙ sym (working_above-blank m rows g i blank))
      | inr shown ↦ elim (Option-cases (auxiliary_row_start m rows (suc i))) [
        | inl plain ↦
            working_above-plain m rows f i shown plain
            ∙ sym (working_above-plain m rows g i shown plain)
        | inr (start, e) ↦
            working_above-auxiliary m rows f i start shown e
            ∙ (working_above_fuel m rows f g start
                  (omega (arith, auxiliary_row_start-lt m rows (suc i) start e))
                  (omega (arith, auxiliary_row_start-lt m rows (suc i) start e))
                ∙ sym (working_above-auxiliary m rows g i start shown e))
      ]
    ]
