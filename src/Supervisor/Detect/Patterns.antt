-- ===== src/Supervisor/Detect/Patterns.antt =====
-- internal/supervisor/detect/patterns.go: groups of patterns that stand on rows one below the other,
-- and the row that shows the session at work.
pub mod Order
use codex_runner.Prelude.{
  ℕ, zero, suc, ◌+◌, ◌-◌, Bool, true, false, not, ◌&&◌, ◌||◌, List, [], ◌∷◌, Option, none, some,
  Text, text, text_eq, length, get_or, drop, ◌==◌, if◌then◌else◌,
}
use codex_runner.Supervisor.Text.Words.{has_prefix, contains_text, span, is_between}

-- What the Go library knows of Unicode, and `regexp.MatchString`: `none` for a pattern that does not
-- compile.
pub record Matching : Type 0 where
  pub is_blank : ℕ → Bool
  pub is_letter : ℕ → Bool
  pub is_number : ℕ → Bool
  pub match_string : Text → Text → Option Bool

pub data LineMatchMode : Type 0 where
  line_prefix : LineMatchMode
  line_exact : LineMatchMode
  line_regex : LineMatchMode
  line_unknown : LineMatchMode

pub record LinePattern : Type 0 where
  pub pattern_text : Text
  pub mode : LineMatchMode

pub record DetectorPatternSet : Type 0 where
  pub idle_top : Text
  pub idle_bottom : Text
  pub prompt : Text
  pub working : List (List Text)
  pub recommendation : List (List Text)
  pub unsafe_footer : List (List Text)
  pub permission : List (List LinePattern)
  pub observed_working : Bool
  pub observed_recommendation : Bool

abbrev pub heavy_angle : ℕ
heavy_angle = 0x276F

abbrev pub box_line : ℕ
box_line = 0x2500

abbrev pub nbsp : ℕ
nbsp = 0xA0

abbrev pub default_pattern_set : DetectorPatternSet
default_pattern_set = record {
  idle_top = box_line ∷ [];
  idle_bottom = box_line ∷ [];
  prompt = heavy_angle ∷ nbsp ∷ [];
  working = [];
  recommendation = [];
  unsafe_footer = (text "auto mode on" ∷ []) ∷ (text "bypass permissions on" ∷ []) ∷ [];
  permission =
      (record {
        pattern_text = text "Quick safety check: Is this a project you created or one you trust?";
        mode = line_prefix;
      }
        ∷ record { pattern_text = text "Enter to confirm · Esc to cancel"; mode = line_exact }
        ∷ [])
      ∷ (record { pattern_text = text "Do you want to proceed?"; mode = line_exact }
          ∷ record { pattern_text = text "^❯?\\s*1\\. Yes(\\s|$)"; mode = line_regex }
          ∷ [])
      ∷ [];
  observed_working = true;
  observed_recommendation = true;
}

-- `strings.TrimLeftFunc`, and the same at the end
unfoldable pub trim_left : (ℕ → Bool) → Text → Text
trim_left p [] = []
trim_left p (r ∷ s) = let rest = trim_left p s in if p r then rest else r ∷ s

abbrev pub before_blanks : (ℕ → Bool) → ℕ → Text → Text
before_blanks p r [] = if p r then [] else r ∷ []
before_blanks p r (x ∷ s) = r ∷ x ∷ s

unfoldable pub trim_right : (ℕ → Bool) → Text → Text
trim_right p [] = []
trim_right p (r ∷ s) = before_blanks p r (trim_right p s)

-- `strings.TrimSpace`, where the test is that for a space, and `strings.Trim`
unfoldable pub trim : (ℕ → Bool) → Text → Text
unfolding trim_left trim_right
trim p s = trim_right p (trim_left p s)

-- The rows after the first that passes the test.
unfoldable pub rest_after : (Text → Bool) → List Text → Option (List Text)
rest_after p [] = none
rest_after p (row ∷ rows) = if p row then some rows else rest_after p rows

-- The loop over a group: each pattern is looked for below the row where the last one was found.
unfoldable pub in_order : {P : Type 0} → (P → Text → Bool) → List Text → List P → Bool
unfolding rest_after
in_order fits rows [] = true
in_order fits rows (p ∷ group) = elim (rest_after (fits p) rows) [
  | none ↦ false
  | some rest ↦ in_order fits rest group
]

unfoldable pub has_pattern : Text → Text → Bool
unfolding text_eq contains_text
has_pattern p row = not (text_eq p []) && contains_text row p

unfoldable pub group_found : List Text → List Text → Bool
unfolding in_order has_pattern
group_found rows [] = false
group_found rows (p ∷ group) = in_order has_pattern rows (p ∷ group)

unfoldable pub contains_any : List Text → List (List Text) → Bool
unfolding group_found
contains_any rows [] = false
contains_any rows (group ∷ groups) = group_found rows group || contains_any rows groups

abbrev pub is_match : Option Bool → Bool
is_match none = false
is_match (some found) = found

abbrev pub mode_matches : Matching → Text → Text → LineMatchMode → Bool
mode_matches m row pattern line_prefix = has_prefix row pattern
mode_matches m row pattern line_exact = text_eq row pattern
mode_matches m row pattern line_regex = is_match (m.match_string pattern row)
mode_matches m row pattern line_unknown = false

unfoldable pub line_pattern_matches : Matching → Text → LinePattern → Bool
unfolding has_prefix text_eq
line_pattern_matches m row pattern =
    if text_eq pattern.pattern_text []
    then false
    else mode_matches m row pattern.pattern_text pattern.mode

-- A pattern at a trimmed row.
unfoldable pub fits_row : Matching → LinePattern → Text → Bool
unfolding line_pattern_matches trim
fits_row m pattern row = line_pattern_matches m (trim m.is_blank row) pattern

-- The first loop looks for the first pattern, the second for the others, or for all of them where the
-- first loop found nothing.
unfoldable pub ordered_line_pattern_found : Matching → List Text → List LinePattern → Bool
unfolding in_order rest_after fits_row
ordered_line_pattern_found m rows [] = false
ordered_line_pattern_found m rows (p ∷ group) = elim (rest_after (fits_row m p) rows) [
  | none ↦ in_order (fits_row m) rows (p ∷ group)
  | some rest ↦ in_order (fits_row m) rest group
]

unfoldable pub any_permission : Matching → List Text → List (List LinePattern) → Bool
unfolding ordered_line_pattern_found
any_permission m rows [] = false
any_permission m rows (group ∷ groups) =
    ordered_line_pattern_found m rows group || any_permission m rows groups

-- `\s`
abbrev pub is_ascii_space : ℕ → Bool
is_ascii_space r = r == b' ' || (is_between 9 10 r || is_between 12 13 r)

abbrev pub is_ascii_letter : ℕ → Bool
is_ascii_letter r = is_between b'A' b'Z' r || is_between b'a' b'z' r

-- What follows the letters: an ellipsis, and a space or the end.
abbrev pub ends_word : Text → Bool
ends_word [] = false
ends_word (r ∷ []) = r == 0x2026
ends_word (r ∷ x ∷ s) = r == 0x2026 && is_ascii_space x

-- `observedWorkingLine`, which is `^[^\pL\pN\s] [A-Za-z]+…(\s|$)`
unfoldable pub observed_working_line : Matching → Text → Bool
unfolding span
observed_working_line m [] = false
observed_working_line m (mark ∷ []) = false
observed_working_line m (mark ∷ blank ∷ s) =
    not (m.is_letter mark || (m.is_number mark || is_ascii_space mark))
    && (blank == b' '
        && (not (span is_ascii_letter s == 0) && ends_word (drop (span is_ascii_letter s) s)))
