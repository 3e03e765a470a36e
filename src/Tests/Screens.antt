-- ===== src/Tests/Screens.antt =====
-- The detection of a session's state at a concrete screen.
use codex_runner.Prelude.{
  ℕ, ◌≤◌, ◌≡◌, ◌↔◌, refl, Bool, true, false, ◌||◌, List, [], ◌∷◌, none, some, Text, text, length,
  pos, ◌==◌,
}
use codex_runner.Supervisor.Detect.Patterns.{
  Matching, LinePattern, line_prefix, line_exact, default_pattern_set, heavy_angle, box_line, nbsp,
  is_ascii_letter, fits_row, ordered_line_pattern_found,
}
use codex_runner.Supervisor.Detect.Patterns.Order.{Embeds, ordered_line_pattern_found_iff}
use codex_runner.Supervisor.Detect.Input.{last_input_row}
use codex_runner.Supervisor.Detect.Recommendation.{input_box, observed_recommendation_bounds}
use codex_runner.Supervisor.Detect.Recommendation.Response.{
  IsResponse, observed_recommendation_bounds_iff,
}
use codex_runner.Supervisor.Detect.Recommendation.Boxes.{input_box-last_input_row}
use codex_runner.Supervisor.Detect.Composite.{
  DetectInput, state_idle, state_awaiting_recommendation, CompositeDetector, select_patterns,
  or_new_quiet, detect_state,
}
use codex_runner.Supervisor.Detect.Composite.Evidence.{
  IsIdle, IsFresh, detect_state-IsIdle, detect_state-percent,
}

abbrev is_any_space : ℕ → Bool
is_any_space r = r == b' ' || r == nbsp

abbrev matching : Matching
matching = record {
  is_blank = is_any_space;
  is_letter = is_ascii_letter;
  is_number = λ r. false;
  match_string = λ pattern row. none;
}

abbrev border : Text
border = box_line ∷ box_line ∷ []

abbrev answered : List Text
answered =
    text "❯ hi"
    ∷ text "the answer"
    ∷ text "✻ Worked · done 3s"
    ∷ border
    ∷ (heavy_angle ∷ nbsp ∷ [])
    ∷ border
    ∷ []

abbrev observation : DetectInput
observation = record {
  cli = [];
  screen_rows = answered;
  last_screen_change_at = 1;
  process_exited = false;
  structured = some (record { observed_at = 5; used_percentage = pos 40; info_session = text "s" });
  last_send_confirmed_at = some 3;
  now = 6000000001;
  patterns = none;
  patterns_by_cli = [];
}

-- Only the prompt between its borders, for six seconds.
abbrev waiting : DetectInput
waiting = record observation { screen_rows = border ∷ (heavy_angle ∷ nbsp ∷ []) ∷ border ∷ [] }

abbrev detector : CompositeDetector
detector = record {
  own_patterns = default_pattern_set;
  screen = none;
  quiet = none;
  process_set = false;
  structured_set = false;
}

abbrev asked : List LinePattern
asked =
    record { pattern_text = text "the"; mode = line_prefix }
    ∷ record { pattern_text = border; mode = line_exact }
    ∷ []

found_between : observed_recommendation_bounds matching answered ≡ some (1, 2)
unfolding observed_recommendation_bounds
found_between = refl

recommended :
    (detect_state matching detector observation).0.detected ≡ state_awaiting_recommendation
unfolding detect_state
recommended = refl

found_idle : (detect_state matching detector waiting).0.detected ≡ state_idle
unfolding detect_state
found_idle = refl

with_percent : (detect_state matching detector observation).0.context_percent ≡ some 40
unfolding detect_state
with_percent = refl

ordered_line_pattern_found_iff_example :
    (ordered_line_pattern_found matching answered asked ≡ true)
    ↔ ((1 ≤ length asked) × Embeds (fits_row matching) asked answered)
ordered_line_pattern_found_iff_example = ordered_line_pattern_found_iff matching answered asked

observed_recommendation_bounds_iff_example :
    (observed_recommendation_bounds matching answered ≡ some (1, 2))
    ↔ IsResponse matching answered 1 2
observed_recommendation_bounds_iff_example =
    observed_recommendation_bounds_iff matching answered 1 2

detect_state-IsIdle_example :
    ((detect_state matching detector waiting).0.detected ≡ state_idle)
    ↔ IsIdle matching
        (select_patterns detector.own_patterns waiting)
        (or_new_quiet detector.quiet)
        waiting
detect_state-IsIdle_example = detect_state-IsIdle matching detector waiting

detect_state-percent_example :
    ((detect_state matching detector observation).0.context_percent ≡ some 40)
    ↔ IsFresh observation 40
detect_state-percent_example = detect_state-percent matching detector observation 40

input_box-last_input_row_example : input_box answered ≡ last_input_row default_pattern_set answered
input_box-last_input_row_example =
    input_box-last_input_row default_pattern_set answered refl refl refl
