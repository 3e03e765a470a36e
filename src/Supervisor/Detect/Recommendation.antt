-- ===== src/Supervisor/Detect/Recommendation.antt =====
-- internal/supervisor/classifier.go: the response of the session that stands on the screen above the
-- input box.
pub mod Response
pub mod Boxes
use codex_runner.Prelude.{
  ℕ, zero, suc, ◌+◌, ◌-◌, Bool, true, false, not, ◌&&◌, ◌||◌, List, [], ◌∷◌, ◌++◌, Option, none,
  some, Text, text, text_eq, length, take, drop, ◌==◌, if◌then◌else◌,
}
use codex_runner.Supervisor.Text.Words.{has_prefix, contains_text}
use codex_runner.Supervisor.Detect.Patterns.{
  Matching, trim, trim_left, trim_right, heavy_angle, nbsp, box_line,
}
use codex_runner.Supervisor.Detect.Input.{row_at}

unfoldable pub is_border_row : Text → Bool
unfolding text_eq trim
is_border_row row = not (text_eq row []) && text_eq (trim (λ r. r == box_line) row) []

-- The loop up from `i`, for `n` rounds, that keeps the last row which passes the test.
unfoldable pub last_up : (ℕ → Bool) → ℕ → ℕ → Option ℕ → Option ℕ
last_up test i zero found = found
last_up test i (suc n) found = last_up test (i + 1) n (if test i then some i else found)

-- The loop up from `i` that stops at the first row which passes the test.
unfoldable pub first_up : (ℕ → Bool) → ℕ → ℕ → Option ℕ
first_up test i zero = none
first_up test i (suc n) = if test i then some i else first_up test (i + 1) n

-- The loop down from `low + n` to the row after `low`.
unfoldable pub down_to : (ℕ → Bool) → ℕ → ℕ → Option ℕ
down_to test low zero = none
down_to test low (suc n) = if test (low + suc n) then some (low + suc n) else down_to test low n

unfoldable pub is_box_at : List Text → ℕ → Bool
unfolding has_prefix is_border_row
is_box_at rows i =
    has_prefix (row_at rows i) (heavy_angle ∷ nbsp ∷ [])
    && (is_border_row (row_at rows (i - 1)) && is_border_row (row_at rows (i + 1)))

unfoldable pub is_echo_at : List Text → ℕ → Bool
unfolding has_prefix
is_echo_at rows i = has_prefix (row_at rows i) (heavy_angle ∷ b' ' ∷ [])

unfoldable pub is_done_at : List Text → ℕ → Bool
unfolding has_prefix contains_text
is_done_at rows i =
    has_prefix (row_at rows i) (text "✻ ") && contains_text (row_at rows i) (text " · done ")

unfoldable pub any_shown : Matching → List Text → Bool
unfolding trim text_eq
any_shown m [] = false
any_shown m (row ∷ rows) = not (text_eq (trim m.is_blank row) []) || any_shown m rows

abbrev pub slice : List Text → ℕ → ℕ → List Text
slice rows low high = drop low (take high rows)

abbrev pub response_to : Matching → List Text → ℕ → Option ℕ → Option (ℕ × ℕ)
response_to m rows echo none = none
response_to m rows echo (some end) =
    if any_shown m (slice rows (echo + 1) end) then some (echo + 1, end) else none

abbrev pub response_after : Matching → List Text → ℕ → Option ℕ → Option (ℕ × ℕ)
response_after m rows box none = none
response_after m rows box (some echo) =
    response_to m rows echo (down_to (is_done_at rows) echo (box - 1 - echo))

abbrev pub response_above : Matching → List Text → Option ℕ → Option (ℕ × ℕ)
response_above m rows none = none
response_above m rows (some box) = response_after m rows box (last_up (is_echo_at rows) 0 box none)

unfoldable pub input_box : List Text → Option ℕ
unfolding last_up is_box_at
input_box rows = last_up (is_box_at rows) 1 (length rows - 2) none

-- `none` is for the result `(0, 0, false)`.
unfoldable pub observed_recommendation_bounds : Matching → List Text → Option (ℕ × ℕ)
unfolding input_box last_up is_echo_at is_done_at any_shown down_to
observed_recommendation_bounds m rows = response_above m rows (input_box rows)

pub record RecommendationExtractor : Type 0 where
  pub previous_input : Text
  pub recommendation_start : Text
  pub input_top : Text
  pub observed_screen : Bool

-- `strings.Join`
unfoldable pub join_rows : Text → List Text → Text
join_rows sep [] = []
join_rows sep (row ∷ []) = row
join_rows sep (row ∷ next ∷ rows) = row ++ (sep ++ join_rows sep (next ∷ rows))

abbrev pub is_row : Matching → List Text → Text → ℕ → Bool
is_row m rows wanted i = text_eq (trim m.is_blank (row_at rows i)) wanted

abbrev pub body_of : Matching → List Text → Option (ℕ × ℕ) → Text × Bool
body_of m rows none = ([], false)
body_of m rows (some (low, high)) =
    let body = trim m.is_blank (join_rows (10 ∷ []) (slice rows low high)) in
    (body, not (text_eq body []))

abbrev pub extract_to : Matching → List Text → ℕ → Option ℕ → Text × Bool
extract_to m rows low none = ([], false)
extract_to m rows low (some high) = (
  trim m.is_blank (join_rows (10 ∷ []) (slice rows low high)),
  not (text_eq (trim m.is_blank (join_rows [] (slice rows (low + 1) high))) []),
)

abbrev pub extract_from : Matching → RecommendationExtractor → List Text → Option ℕ → Text × Bool
extract_from m e rows none = ([], false)
extract_from m e rows (some low) =
    extract_to m rows low (first_up (is_row m rows e.input_top) (low + 1) (length rows - (low + 1)))

abbrev pub extract_after : Matching → RecommendationExtractor → List Text → Option ℕ → Text × Bool
extract_after m e rows none = ([], false)
extract_after m e rows (some previous) =
    extract_from m e rows (
      first_up (is_row m rows e.recommendation_start) (previous + 1) (length rows - (previous + 1)))

unfoldable pub extract : Matching → RecommendationExtractor → List Text → Text × Bool
unfolding observed_recommendation_bounds last_up first_up join_rows trim text_eq
extract m e rows =
    if e.observed_screen
    then body_of m rows (observed_recommendation_bounds m rows)
    else if text_eq e.previous_input []
        || (text_eq e.recommendation_start [] || text_eq e.input_top [])
    then ([], false)
    else extract_after m e rows (last_up (is_row m rows e.previous_input) 0 (length rows) none)
