-- ===== src/Supervisor/Detect/Composite/Evidence.antt =====
-- What must be seen for a session to count as idle, and which percentages are accepted.
use codex_runner.Prelude.{
  ℕ, ◌+◌, ◌≤◌, ◌≡◌, refl, sym, ap, subst, ◌∙◌, ◌↔◌, Bool, true, false, List, Option, none, some,
  Text, arith, Option-cases, inl, inr, is_some, ℤ, pos, negsuc,
}
use codex_runner.Supervisor.Detect.Patterns.{Matching, DetectorPatternSet, any_permission}
use codex_runner.Supervisor.Detect.Input.{last_input_row, has_idle}
use codex_runner.Supervisor.Detect.Input.Search.{
  IsInputRow, last_input_row-IsInputRow, IsInputRow→last_input_row,
}
use codex_runner.Supervisor.Detect.Composite.{
  DetectInput, DetectResult, StructuredInfo, CompositeDetector, state_idle, PermissionMode,
  apply_rules, detect_permission_mode, recently_changed, positive_or_default, is_quiet, is_working,
  is_recommendation, select_patterns, or_new_quiet, detect_percentage, detect_info,
  detect_structured, classify_screen, with_structured, detect_state,
}

-- The screen has shown the same for the period.
pub record IsSettled (period : ℤ) (i : DetectInput) : Type 0 where
  pub changed : 1 ≤ i.last_screen_change_at
  pub clocked : 1 ≤ i.now
  pub waited : i.last_screen_change_at + positive_or_default period ≤ i.now

is_quiet-IsSettled : (period : ℤ) (i : DetectInput) → is_quiet period i ≡ true → IsSettled period i
unfolding is_quiet
is_quiet-IsSettled period i h = ground arith

IsSettled-is_quiet : (period : ℤ) (i : DetectInput) → IsSettled period i → is_quiet period i ≡ true
unfolding is_quiet
IsSettled-is_quiet period i s = ground arith

-- No sign of work, of a question or of a proposal, and the input box on a settled screen.
pub record IsIdle (m : Matching) (p : DetectorPatternSet) (period : ℤ) (i : DetectInput)
    : Type 0 where
  pub alive : i.process_exited ≡ false
  pub not_working : is_working m p i ≡ false
  pub no_question : any_permission m i.screen_rows p.permission ≡ false
  pub no_proposal : is_recommendation m p true i ≡ false
  pub settled : IsSettled period i
  pub input : (row : ℕ) × IsInputRow p i.screen_rows row

apply_rules-idle :
    (mode : PermissionMode) (exited working permission recommendation idle quiet recent : Bool)
    → (apply_rules mode exited working permission recommendation idle quiet recent).detected
      ≡ state_idle
    → (exited ≡ false)
      × (working ≡ false)
      × (permission ≡ false)
      × (recommendation ≡ false)
      × (idle ≡ true)
      × (quiet ≡ true)
unfolding apply_rules
apply_rules-idle mode exited working permission recommendation idle quiet recent h = ground arith

has_idle-some :
    (p : DetectorPatternSet) (rows : List Text)
    → has_idle p rows ≡ true
    → (row : ℕ) × (last_input_row p rows ≡ some row)
unfolding has_idle
has_idle-some p rows h = elim (Option-cases (last_input_row p rows)) [
  | inl e ↦ absurd (cc (rw e at h))
  | inr r ↦ r
]

some-has_idle :
    (p : DetectorPatternSet) (rows : List Text) (row : ℕ)
    → IsInputRow p rows row
    → has_idle p rows ≡ true
unfolding has_idle
some-has_idle p rows row r = ap is_some (IsInputRow→last_input_row p rows row r)

idle-apply_rules :
    (mode : PermissionMode) (exited working permission recommendation idle quiet recent : Bool)
    → exited ≡ false
    → working ≡ false
    → permission ≡ false
    → recommendation ≡ false
    → idle ≡ true
    → quiet ≡ true
    → (apply_rules mode exited working permission recommendation idle quiet recent).detected
      ≡ state_idle
unfolding apply_rules
idle-apply_rules mode exited working permission recommendation idle quiet recent a b c d e f =
    rw (a, b, c, d, e, f) refl

module _ (m : Matching) (p : DetectorPatternSet) (period : ℤ) (i : DetectInput) where
  classify_screen→IsIdle :
      (classify_screen m p period i).detected ≡ state_idle → IsIdle m p period i
  unfolding classify_screen
  classify_screen→IsIdle h =
      let r =
        apply_rules-idle (detect_permission_mode p i) i.process_exited (is_working m p i)
          (any_permission m i.screen_rows p.permission)
          (is_recommendation m p (is_quiet period i) i) (has_idle p i.screen_rows)
          (is_quiet period i) (recently_changed period i) h in
      let box = has_idle-some p i.screen_rows r.4 in
      record {
        alive = r.0;
        not_working = r.1;
        no_question = r.2;
        no_proposal = subst (λ q. is_recommendation m p q i ≡ false) r.5 r.3;
        settled = is_quiet-IsSettled period i r.5;
        input = (box.0, last_input_row-IsInputRow p i.screen_rows box.0 box.1);
      }

  IsIdle→classify_screen :
      IsIdle m p period i → (classify_screen m p period i).detected ≡ state_idle
  unfolding classify_screen
  IsIdle→classify_screen s =
      let quiet : is_quiet period i ≡ true = IsSettled-is_quiet period i s.settled in
      let box : has_idle p i.screen_rows ≡ true =
        some-has_idle p i.screen_rows s.input.0 s.input.1 in
      idle-apply_rules (detect_permission_mode p i) i.process_exited (is_working m p i)
        (any_permission m i.screen_rows p.permission) (is_recommendation m p (is_quiet period i) i)
        (has_idle p i.screen_rows) (is_quiet period i) (recently_changed period i) s.alive
        s.not_working s.no_question
        (subst (λ q. is_recommendation m p q i ≡ false) (sym quiet) s.no_proposal) box quiet

with_structured-detected :
    (r : DetectResult) (o : Option (ℕ × Text)) → (with_structured r o).detected ≡ r.detected
with_structured-detected r none = refl
with_structured-detected r (some (v, session)) = refl

-- A session is found idle exactly when its process has not exited, its screen shows no work, no
-- question and no proposal, the prompt stands between its two borders on some row with none like it
-- below, and the screen has not changed for the quiet period (five seconds where the detector's period
-- is not positive). The patterns are those chosen for the observation.
pub detect_state-IsIdle :
    (m : Matching) (d : CompositeDetector) (i : DetectInput)
    → ((detect_state m d i).0.detected ≡ state_idle)
      ↔ IsIdle m (select_patterns d.own_patterns i) (or_new_quiet d.quiet) i
unfolding detect_state
detect_state-IsIdle m d i =
    let p = select_patterns d.own_patterns i in
    let period = or_new_quiet d.quiet in
    let same = with_structured-detected (classify_screen m p period i) (detect_structured i) in
    (
      λ h. classify_screen→IsIdle m p period i (sym same ∙ h),
      λ s. same ∙ IsIdle→classify_screen m p period i s,
    )

-- The accepted percentage of an observation: reported, at most 100, and not from before the last send.
pub record IsFresh (i : DetectInput) (v : ℕ) : Type 0 where
  pub info : StructuredInfo
  pub reported : i.structured ≡ some info
  pub value : info.used_percentage ≡ pos v
  pub bound : v ≤ 100
  pub fresh : (sent : ℕ) → i.last_send_confirmed_at ≡ some sent → sent ≤ info.observed_at

module _ (i : DetectInput) (v : ℕ) where
  Fresh-percentage :
      (info : StructuredInfo) (percentage : ℤ) (session : Text)
      → i.structured ≡ some info
      → info.used_percentage ≡ percentage
      → detect_percentage i info percentage ≡ some (v, session)
      → IsFresh i v
  Fresh-percentage info (negsuc n) session e w h = cc
  Fresh-percentage info (pos n) session e w h = record {
    info = info;
    reported = e;
    value = ground arith;
    bound = ground arith;
    fresh = λ sent k. ground arith;
  }

  percentage-fresh :
      (info : StructuredInfo)
      → v ≤ 100
      → ((sent : ℕ) → i.last_send_confirmed_at ≡ some sent → sent ≤ info.observed_at)
      → detect_percentage i info (pos v) ≡ some (v, info.info_session)
  percentage-fresh info bound fresh = elim (Option-cases i.last_send_confirmed_at) [
    | inl e ↦ ground arith
    | inr (sent, e) ↦ ground (arith, fresh sent e)
  ]

  detect_structured→IsFresh :
      (session : Text) → detect_structured i ≡ some (v, session) → IsFresh i v
  unfolding detect_structured
  detect_structured→IsFresh session h = elim (Option-cases i.structured) [
    | inl e ↦ absurd (cc (rw e at h))
    | inr (info, e) ↦ Fresh-percentage info info.used_percentage session e refl (rw e at h)
  ]

  IsFresh→detect_structured :
      (f : IsFresh i v) → detect_structured i ≡ some (v, f.info.info_session)
  unfolding detect_structured
  IsFresh→detect_structured f =
      ap (detect_info i) f.reported
      ∙ (ap (detect_percentage i f.info) f.value ∙ percentage-fresh f.info f.bound f.fresh)

apply_rules-percent :
    (mode : PermissionMode) (exited working permission recommendation idle quiet recent : Bool)
    → (apply_rules mode exited working permission recommendation idle quiet recent).context_percent
      ≡ none
unfolding apply_rules
apply_rules-percent mode exited working permission recommendation idle quiet recent = ground arith

classify_screen-percent :
    (m : Matching) (p : DetectorPatternSet) (period : ℤ) (i : DetectInput)
    → (classify_screen m p period i).context_percent ≡ none
unfolding classify_screen
classify_screen-percent m p period i =
    apply_rules-percent (detect_permission_mode p i) i.process_exited (is_working m p i)
      (any_permission m i.screen_rows p.permission) (is_recommendation m p (is_quiet period i) i)
      (has_idle p i.screen_rows) (is_quiet period i) (recently_changed period i)

with_structured-percent :
    (r : DetectResult) (o : Option (ℕ × Text)) (v : ℕ)
    → r.context_percent ≡ none
    → (with_structured r o).context_percent ≡ some v
    → (session : Text) × (o ≡ some (v, session))
with_structured-percent r none v e h = absurd (cc (e, h))
with_structured-percent r (some (w, session)) v e h = (session, cc)

-- A result carries a percentage of the context exactly when the observation has one that is from 0 to
-- 100 and was made no earlier than the last confirmed send.
pub detect_state-percent :
    (m : Matching) (d : CompositeDetector) (i : DetectInput) (v : ℕ)
    → ((detect_state m d i).0.context_percent ≡ some v) ↔ IsFresh i v
unfolding detect_state
detect_state-percent m d i v =
    let p = select_patterns d.own_patterns i in
    let r = classify_screen m p (or_new_quiet d.quiet) i in
    (
      λ h.
          let o =
            with_structured-percent r (detect_structured i) v
              (classify_screen-percent m p (or_new_quiet d.quiet) i) h in
          detect_structured→IsFresh i v o.0 o.1,
      λ f. ap (λ o. (with_structured r o).context_percent) (IsFresh→detect_structured i v f),
    )
