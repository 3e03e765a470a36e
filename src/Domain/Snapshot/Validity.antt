-- ===== src/Domain/Snapshot/Validity.antt =====
-- What `Validate` promises, stated without its order of tests.
use codex_runner.Prelude.{
  ◌≡◌, ◌≢◌, ◌↔◌, ◌⊎◌, refl, ℕ, ℤ, below, Bool, true, false, not, ◌&&◌, ◌||◌, ◌==◌, List, [], ◌∷◌,
  Option, none, some, Text, All, arith, text_eq, text_eq_iff, is_some, is_none, bool_eq,
}
use codex_runner.Domain.Enums.{
  TaskState, failed, recovered, is_submittable, is_valid_sandbox_mode, is_known_task_state,
  is_daemon, is_known_origin, terminal, in_lineage, is_recovered, is_failed,
}
use codex_runner.Domain.Values.{Violation, requested_below_min, is_zero_time}
use codex_runner.Domain.Snapshot.{
  TaskSnapshot, validate, checks, first_violation, requires_process, may_lack_working_dir,
  is_known_failure_code, is_bad_path, holds, allows_unresolved_working_dir,
}

-- A property of a pointer's target, void at nil.
abbrev pub Holds {ℓ} : {A : Type ℓ} → (A → Type 0) → Option A → Type 0
Holds P none = Unit
Holds P (some a) = P a

abbrev pub IsVersion : ℕ → Type 0
IsVersion n = (n ≡ 2) ⊎ (n ≡ 3) ⊎ (n ≡ 4)

pub record IsConsistent (s : TaskSnapshot) : Type 0 where
  pub id_given : s.task_id ≢ []
  pub model_given : s.model ≢ []
  pub submittable : is_submittable s.subcommand ≡ true
  pub sandboxed : is_valid_sandbox_mode s.sandbox_mode ≡ true
  pub known_state : is_known_task_state s.state ≡ true
  pub by_daemon : is_daemon s.route ≡ true
  -- the process id and its start time are both set or both nil, and sound if set
  pub process_whole : is_some s.pid ≡ is_some s.process_started_at
  pub pid_positive : Holds (λ n. below n 1 ≡ false) s.pid
  pub start_not_zero : Holds (λ t. is_zero_time t ≡ false) s.process_started_at
  -- no timeout below half an hour
  pub requested_long : Holds (λ n. below n 1800 ≡ false) s.requested_timeout_seconds
  pub resolved_long : below s.resolved_timeout_seconds 1800 ≡ false
  -- a state past the launch has its process, was adopted, or is an ended orphan
  pub process_there :
      requires_process s.state ≡ true
      → (is_some s.pid ≡ true)
        ⊎ (s.adopted_after_restart ≡ true)
        ⊎ ((terminal s.state ≡ true) × (is_some s.exit_code ≡ true))
  pub exit_only_terminal : is_some s.exit_code ≡ true → terminal s.state ≡ true
  pub recovered_exact : (s.recovered ≡ true) ↔ (s.state ≡ recovered)
  pub origin_exact : is_some s.recovery_origin ≡ in_lineage s.state
  pub origin_known : Holds (λ o. is_known_origin o ≡ true) s.recovery_origin
  pub requested_at_set : is_zero_time s.requested_at ≡ false
  pub updated_at_set : is_zero_time s.state_updated_at ≡ false
  pub version : IsVersion s.schema_version
  -- a failure code belongs to a launch that failed, in the newest schema
  pub failure_placed :
      is_some s.failure_code ≡ true → (s.schema_version ≡ 4) × (s.state ≡ failed) × (s.pid ≡ none)
  pub failure_known : Holds (λ c. is_known_failure_code c ≡ true) s.failure_code
  -- schema 2 has no working directory; later ones have a normalized one, or none before a launch
  pub no_dir_in_version_2 : s.schema_version ≡ 2 → s.working_dir ≡ none
  pub dir_later :
      s.schema_version ≢ 2
      → s.working_dir ≡ none
      → (s.pid ≡ none) × (s.process_started_at ≡ none) × (may_lack_working_dir s.state ≡ true)
  pub dir_normalized : Holds (λ d. is_bad_path d ≡ false) s.working_dir

first_violation-none :
    (cs : List (Bool × Violation)) → first_violation cs ≡ none → All (λ c. c.0 ≡ false) cs
first_violation-none [] h = tt
first_violation-none ((b, v) ∷ cs) h = ground (arith, first_violation-none cs)

none-first_violation :
    (cs : List (Bool × Violation)) → All (λ c. c.0 ≡ false) cs → first_violation cs ≡ none
none-first_violation [] h = refl
none-first_violation ((b, v) ∷ cs) h = ground (arith, none-first_violation cs)

-- One lemma for each kind of test.
module _ {ℓ} {A B : Type ℓ} where
  whole_of :
      (a : Option A) (b : Option B)
      → not (bool_eq (is_none a) (is_none b)) ≡ false
      → is_some a ≡ is_some b
  whole_of a b h = ground arith

text_of : (t : Text) → text_eq t [] ≡ false → t ≢ []
text_of t h = ground (arith, text_eq_iff t [])

not_of : (b : Bool) → not b ≡ false → b ≡ true
not_of b h = ground arith

equal_of : (a b : Bool) → not (bool_eq a b) ≡ false → a ≡ b
equal_of a b h = ground arith

Holds-false {ℓ} :
    {A : Type ℓ} (p : A → Bool) (o : Option A) → holds p o ≡ false → Holds (λ a. p a ≡ false) o
Holds-false p none h = tt
Holds-false p (some a) h = h

Holds-true {ℓ} :
    {A : Type ℓ} (p : A → Bool) (o : Option A)
    → holds (λ a. not (p a)) o ≡ false
    → Holds (λ a. p a ≡ true) o
Holds-true p none h = tt
Holds-true p (some a) h = not_of (p a) h

requested_of : (o : Option ℤ) → requested_below_min o ≡ false → Holds (λ n. below n 1800 ≡ false) o
requested_of none h = tt
requested_of (some n) h = h

process_of :
    (needed adopted ended coded : Bool) (pid : Option ℤ)
    → (needed && is_none pid && not adopted && not (ended && coded)) ≡ false
    → needed ≡ true
    → (is_some pid ≡ true) ⊎ (adopted ≡ true) ⊎ ((ended ≡ true) × (coded ≡ true))
process_of needed adopted ended coded pid h n = ground arith

exit_of : (coded ended : Bool) → (coded && not ended) ≡ false → coded ≡ true → ended ≡ true
exit_of coded ended h c = ground arith

recovered_of :
    (b : Bool) (s : TaskState)
    → not (bool_eq b (is_recovered s)) ≡ false
    → (b ≡ true) ↔ (s ≡ recovered)
recovered_of b s h = ground arith

IsVersion-of : (n : ℕ) → not (n == 2 || n == 3 || n == 4) ≡ false → IsVersion n
IsVersion-of n h = ground arith

failure_of :
    (coded : Bool) (n : ℕ) (s : TaskState) (pid : Option ℤ)
    → (coded && (not (n == 4) || not (is_failed s) || is_some pid)) ≡ false
    → coded ≡ true
    → (n ≡ 4) × (s ≡ failed) × (pid ≡ none)
failure_of coded n s pid h c = ground arith

no_dir_of : (n : ℕ) (d : Option Text) → (n == 2 && is_some d) ≡ false → n ≡ 2 → d ≡ none
no_dir_of n d h e = ground arith

dir_of :
    (s : TaskSnapshot)
    → (not (s.schema_version == 2)
        && is_none s.working_dir
        && not (allows_unresolved_working_dir s))
      ≡ false
    → s.schema_version ≢ 2
    → s.working_dir ≡ none
    → (s.pid ≡ none) × (s.process_started_at ≡ none) × (may_lack_working_dir s.state ≡ true)
dir_of s h e d = ground arith

good_dir_of :
    (n : ℕ) (d : Option Text)
    → (n == 2 && is_some d) ≡ false
    → (not (n == 2) && holds is_bad_path d) ≡ false
    → Holds (λ p. is_bad_path p ≡ false) d
good_dir_of n none h k = tt
good_dir_of n (some p) h k = ground arith

neither_of : (a b : Bool) → (a || b) ≡ false → (a ≡ false) × (b ≡ false)
neither_of a b h = ground arith

checks-IsConsistent : (s : TaskSnapshot) → All (λ c. c.0 ≡ false) (checks s) → IsConsistent s
unfolding checks
checks-IsConsistent s
      (
        c1,
        (
          c2,
          (
            c3,
            (
              c4,
              (
                c5,
                (
                  c6,
                  (
                    c7,
                    (
                      c8,
                      (
                        c9,
                        (
                          c10,
                          (
                            c11,
                            (
                              c12,
                              (
                                c13,
                                (
                                  c14,
                                  (c15, (c16, (c17, (c18, (c19, (c20, (c21, (c22, (c23, _))))))))),
                                ),
                              ),
                            ),
                          ),
                        ),
                      ),
                    ),
                  ),
                ),
              ),
            ),
          ),
        ),
      ) =
    record {
      id_given = text_of s.task_id c1;
      model_given = text_of s.model c3;
      submittable = not_of (is_submittable s.subcommand) c2;
      sandboxed = not_of (is_valid_sandbox_mode s.sandbox_mode) c4;
      known_state = not_of (is_known_task_state s.state) c5;
      by_daemon = not_of (is_daemon s.route) c6;
      process_whole = whole_of s.pid s.process_started_at c7;
      pid_positive = Holds-false (λ n. below n 1) s.pid c8;
      start_not_zero = Holds-false is_zero_time s.process_started_at c9;
      requested_long = requested_of s.requested_timeout_seconds c10;
      resolved_long = c11;
      process_there =
          process_of (requires_process s.state) s.adopted_after_restart (terminal s.state)
            (is_some s.exit_code) s.pid c13;
      exit_only_terminal = exit_of (is_some s.exit_code) (terminal s.state) c14;
      recovered_exact = recovered_of s.recovered s.state c15;
      origin_exact = equal_of (is_some s.recovery_origin) (in_lineage s.state) c16;
      origin_known = Holds-true is_known_origin s.recovery_origin c12;
      requested_at_set =
          (neither_of (is_zero_time s.requested_at) (is_zero_time s.state_updated_at) c17).0;
      updated_at_set =
          (neither_of (is_zero_time s.requested_at) (is_zero_time s.state_updated_at) c17).1;
      version = IsVersion-of s.schema_version c18;
      failure_placed = failure_of (is_some s.failure_code) s.schema_version s.state s.pid c19;
      failure_known = Holds-true is_known_failure_code s.failure_code c20;
      no_dir_in_version_2 = no_dir_of s.schema_version s.working_dir c21;
      dir_later = dir_of s c22;
      dir_normalized = good_dir_of s.schema_version s.working_dir c21 c23;
    }

IsConsistent-checks : (s : TaskSnapshot) → IsConsistent s → All (λ c. c.0 ≡ false) (checks s)
unfolding checks
IsConsistent-checks s h = ground (arith, text_eq_iff s.task_id [], text_eq_iff s.model [])

-- `Validate` accepts exactly the consistent snapshots.
pub validate_iff : (s : TaskSnapshot) → (validate s ≡ none) ↔ IsConsistent s
unfolding validate
validate_iff s = (
  λ h. checks-IsConsistent s (first_violation-none (checks s) h),
  λ c. none-first_violation (checks s) (IsConsistent-checks s c),
)
