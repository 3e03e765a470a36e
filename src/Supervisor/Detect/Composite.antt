-- ===== src/Supervisor/Detect/Composite.antt =====
-- internal/supervisor/detect/detector.go and detector_*.go: one observation of a session, and the state
-- that it gives. A time is a count of nanoseconds, 0 the zero time.
pub mod Evidence
use codex_runner.Prelude.{
  ℕ, zero, suc, ◌+◌, ◌-◌, Bool, true, false, not, ◌&&◌, ◌||◌, List, [], ◌∷◌, Option, none, some,
  Text, text, text_eq, length, drop, ℤ, pos, negsuc, ltb, leb, ◌==◌, if◌then◌else◌, is_some,
}
use codex_runner.Prelude.Dict.{Dict, get}
use codex_runner.Supervisor.Text.Words.{contains_text}
use codex_runner.Supervisor.Terminal.Write.{Cell}
use codex_runner.Supervisor.Detect.Patterns.{
  Matching, DetectorPatternSet, default_pattern_set, contains_any, any_permission,
}
use codex_runner.Supervisor.Detect.Input.{last_input_row, has_idle, has_observed_working}
use codex_runner.Supervisor.Detect.Recommendation.{observed_recommendation_bounds}

-- `QuietPeriod`, 5 s
abbrev pub quiet_period : ℕ
quiet_period = 5000000000

pub data DetectedState : Type 0 where
  state_idle : DetectedState
  state_working : DetectedState
  state_awaiting_permission : DetectedState
  state_awaiting_recommendation : DetectedState
  state_exited : DetectedState
  state_undetermined : DetectedState

pub data DetectionBasis : Type 0 where
  basis_screen_pattern : DetectionBasis
  basis_output_quiet : DetectionBasis
  basis_process_exit : DetectionBasis
  basis_structured_info : DetectionBasis

pub data PermissionMode : Type 0 where
  permission_default_or_unknown : PermissionMode
  permission_unsafe : PermissionMode

pub record StructuredInfo : Type 0 where
  pub observed_at : ℕ
  pub used_percentage : ℤ
  pub info_session : Text

pub record DetectInput : Type 0 where
  pub cli : Text
  pub screen_rows : List Text
  pub last_screen_change_at : ℕ
  pub process_exited : Bool
  pub structured : Option StructuredInfo
  pub last_send_confirmed_at : Option ℕ
  pub now : ℕ
  pub patterns : Option DetectorPatternSet
  pub patterns_by_cli : Dict DetectorPatternSet

pub record DetectResult : Type 0 where
  pub detected : DetectedState
  pub basis : List DetectionBasis
  pub processing_indicator : Bool
  pub context_percent : Option ℕ
  pub result_session : Text
  pub permission_mode : PermissionMode

abbrev pub same_basis : DetectionBasis → DetectionBasis → Bool
same_basis basis_screen_pattern basis_screen_pattern = true
same_basis basis_output_quiet basis_output_quiet = true
same_basis basis_process_exit basis_process_exit = true
same_basis basis_structured_info basis_structured_info = true
same_basis a b = false

unfoldable pub add_basis : List DetectionBasis → DetectionBasis → List DetectionBasis
add_basis [] b = b ∷ []
add_basis (v ∷ basis) b = if same_basis v b then v ∷ basis else v ∷ add_basis basis b

-- `<` on `time.Duration`, with a period that may be negative
abbrev pub less_than : ℕ → ℤ → Bool
less_than a (pos p) = ltb a p
less_than a (negsuc p) = false

abbrev pub has_period : DetectInput → Bool
has_period i =
    not (i.last_screen_change_at == 0)
    && (not (i.now == 0) && not (ltb i.now i.last_screen_change_at))

abbrev pub positive_or_default : ℤ → ℕ
positive_or_default (pos zero) = quiet_period
positive_or_default (pos (suc p)) = suc p
positive_or_default (negsuc p) = quiet_period

-- `QuietDetector.IsQuiet`, for the detector with this period
unfoldable pub is_quiet : ℤ → DetectInput → Bool
is_quiet period i =
    has_period i && leb (positive_or_default period) (i.now - i.last_screen_change_at)

unfoldable pub recently_changed : ℤ → DetectInput → Bool
recently_changed period i = has_period i && less_than (i.now - i.last_screen_change_at) period

abbrev pub marks_row : Text → List Text → Bool
marks_row row [] = false
marks_row row (word ∷ group) = contains_text row word

unfoldable pub any_mark : List (List Text) → Text → Bool
unfolding contains_text
any_mark [] row = false
any_mark (group ∷ groups) row = marks_row row group || any_mark groups row

unfoldable pub footer_unsafe : List (List Text) → List Text → Bool
unfolding any_mark
footer_unsafe groups [] = false
footer_unsafe groups (row ∷ rows) = any_mark groups row || footer_unsafe groups rows

abbrev pub footer_start : List Text → Option ℕ → ℕ
footer_start rows none = length rows
footer_start rows (some input) = input + 2

abbrev pub chosen : DetectorPatternSet → Option DetectorPatternSet → DetectorPatternSet
chosen p none = p
chosen p (some q) = q

-- `ScreenPatternDetector.Detect`, for the detector with these patterns; its result is this mode only.
unfoldable pub detect_permission_mode : DetectorPatternSet → DetectInput → PermissionMode
unfolding last_input_row footer_unsafe
detect_permission_mode patterns i =
    let p = chosen patterns i.patterns in
    if footer_unsafe p.unsafe_footer
      (drop (footer_start i.screen_rows (last_input_row p i.screen_rows)) i.screen_rows)
    then permission_unsafe
    else permission_default_or_unknown

abbrev pub is_stale : Option ℕ → ℕ → Bool
is_stale none observed = false
is_stale (some sent) observed = ltb observed sent

-- `StructuredInfoDetector.Detect`: the percentage and the session, where it has any.
abbrev pub detect_percentage : DetectInput → StructuredInfo → ℤ → Option (ℕ × Text)
detect_percentage i info (negsuc v) = none
detect_percentage i info (pos v) =
    if ltb 100 v
    then none
    else if is_stale i.last_send_confirmed_at info.observed_at
    then none
    else some (v, info.info_session)

abbrev pub detect_info : DetectInput → Option StructuredInfo → Option (ℕ × Text)
detect_info i none = none
detect_info i (some info) = detect_percentage i info info.used_percentage

unfoldable pub detect_structured : DetectInput → Option (ℕ × Text)
detect_structured i = detect_info i i.structured

-- The parts of the detector, `none` or `false` for a nil pointer: the patterns of the screen detector
-- and the period of the quiet one; the other two have no fields.
pub record CompositeDetector : Type 0 where
  pub own_patterns : DetectorPatternSet
  pub screen : Option DetectorPatternSet
  pub quiet : Option ℤ
  pub process_set : Bool
  pub structured_set : Bool

unfoldable pub new_composite_detector : DetectorPatternSet → CompositeDetector
new_composite_detector p = record {
  own_patterns = p;
  screen = some p;
  quiet = some (pos quiet_period);
  process_set = true;
  structured_set = true;
}

abbrev pub is_empty {ℓ} : {A : Type ℓ} → List A → Bool
is_empty [] = true
is_empty (x ∷ xs) = false

abbrev pub has_no_pattern : DetectorPatternSet → Bool
has_no_pattern p =
    text_eq p.idle_top []
    && (text_eq p.idle_bottom []
        && (text_eq p.prompt []
            && (is_empty p.working
                && (is_empty p.permission
                    && (is_empty p.recommendation && is_empty p.unsafe_footer)))))

-- The patterns at the head of `CompositeDetector.Detect`.
unfoldable pub select_patterns : DetectorPatternSet → DetectInput → DetectorPatternSet
unfolding text_eq get
select_patterns own i =
    let by_cli = if text_eq i.cli [] then own else chosen own (get i.cli i.patterns_by_cli) in
    let p = chosen by_cli i.patterns in if has_no_pattern p then default_pattern_set else p

abbrev pub or_new_quiet : Option ℤ → ℤ
or_new_quiet none = pos quiet_period
or_new_quiet (some period) = period

-- What the screen and the clock show.
unfoldable pub is_working : Matching → DetectorPatternSet → DetectInput → Bool
unfolding contains_any has_observed_working
is_working m p i =
    contains_any i.screen_rows p.working
    || (p.observed_working && has_observed_working m p i.screen_rows)

unfoldable pub is_recommendation : Matching → DetectorPatternSet → Bool → DetectInput → Bool
unfolding contains_any has_idle observed_recommendation_bounds
is_recommendation m p quiet i =
    if p.observed_recommendation && (has_idle p i.screen_rows && quiet)
    then (contains_any i.screen_rows p.recommendation
        || is_some (observed_recommendation_bounds m i.screen_rows))
    else contains_any i.screen_rows p.recommendation

abbrev pub detect_outcome :
    PermissionMode → DetectedState → List DetectionBasis → Bool → DetectResult
detect_outcome mode state basis processing = record {
  detected = state;
  basis = basis;
  processing_indicator = processing;
  context_percent = none;
  result_session = [];
  permission_mode = mode;
}

-- The rules in their order, on what was seen.
unfoldable pub apply_rules :
    PermissionMode
    → (exited working permission recommendation idle quiet recent : Bool) → DetectResult
apply_rules mode exited working permission recommendation idle quiet recent =
    if exited
    then detect_outcome mode state_exited (basis_process_exit ∷ []) false
    else if working
    then detect_outcome mode state_working (basis_screen_pattern ∷ []) true
    else if permission && recommendation
    then detect_outcome mode state_undetermined (basis_screen_pattern ∷ []) false
    else if permission
    then detect_outcome mode state_awaiting_permission (basis_screen_pattern ∷ []) false
    else if recommendation && quiet
    then detect_outcome mode state_awaiting_recommendation
        (basis_screen_pattern ∷ basis_output_quiet ∷ []) false
    else if idle && quiet
    then detect_outcome mode state_idle (basis_screen_pattern ∷ basis_output_quiet ∷ []) false
    else if recent
    then detect_outcome mode state_working (basis_output_quiet ∷ []) false
    else detect_outcome mode state_undetermined [] false

unfoldable pub classify_screen : Matching → DetectorPatternSet → ℤ → DetectInput → DetectResult
unfolding detect_permission_mode is_quiet is_working any_permission has_idle is_recommendation
    recently_changed apply_rules
classify_screen m p period i =
    apply_rules (detect_permission_mode p i) i.process_exited (is_working m p i)
      (any_permission m i.screen_rows p.permission) (is_recommendation m p (is_quiet period i) i)
      (has_idle p i.screen_rows) (is_quiet period i) (recently_changed period i)

abbrev pub with_structured : DetectResult → Option (ℕ × Text) → DetectResult
with_structured r none = r
with_structured r (some (v, session)) = record r {
  context_percent = some v;
  result_session = session;
  basis = add_basis r.basis basis_structured_info;
}

-- `CompositeDetector.Detect`, with the detector that it leaves.
unfoldable pub detect_state :
    Matching → CompositeDetector → DetectInput → DetectResult × CompositeDetector
unfolding select_patterns classify_screen detect_structured add_basis
detect_state m d i =
    let p = select_patterns d.own_patterns i in
    let period = or_new_quiet d.quiet in
    (
      with_structured (classify_screen m p period i) (detect_structured i),
      record d { screen = some p; quiet = some period; process_set = true; structured_set = true },
    )
