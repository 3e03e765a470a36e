-- ===== src/Supervisor/Detect/Input.antt =====
-- internal/supervisor/detect/patterns.go: the input row between its borders, what stands above it, and
-- whether something is typed in it.
pub mod Search
use codex_runner.Prelude.{
  ℕ, zero, suc, ◌+◌, ◌-◌, Bool, true, false, not, ◌&&◌, ◌||◌, List, [], ◌∷◌, Option, none, some,
  Text, text_eq, length, get_or, drop, ltb, ◌==◌, if◌then◌else◌, is_some,
}
use codex_runner.Supervisor.Text.Words.{has_prefix}
use codex_runner.Supervisor.Terminal.Write.{Cell}
use codex_runner.Supervisor.Detect.Patterns.{
  Matching, DetectorPatternSet, trim, trim_left, observed_working_line, nbsp,
}

abbrev pub row_at : List Text → ℕ → Text
row_at rows i = get_or rows i []

-- `strings.ContainsRune`
unfoldable pub contains_rune : Text → ℕ → Bool
contains_rune [] r = false
contains_rune (b ∷ border) r = r == b || contains_rune border r

unfoldable pub all_runes : (ℕ → Bool) → Text → Bool
all_runes p [] = true
all_runes p (r ∷ row) = p r && all_runes p row

unfoldable pub all_border : Text → Text → Bool
unfolding text_eq contains_rune all_runes
all_border row border =
    if text_eq row [] || text_eq border [] then false else all_runes (contains_rune border) row

unfoldable pub is_input_at : DetectorPatternSet → List Text → ℕ → Bool
unfolding has_prefix all_border
is_input_at p rows i =
    has_prefix (row_at rows i) p.prompt
    && (all_border (row_at rows (i - 1)) p.idle_top
        && all_border (row_at rows (i + 1)) p.idle_bottom)

-- The loop from `i` down to 1.
unfoldable pub last_down : (ℕ → Bool) → ℕ → Option ℕ
last_down test zero = none
last_down test (suc i) = if test (suc i) then some (suc i) else last_down test i

unfoldable pub last_input_row : DetectorPatternSet → List Text → Option ℕ
unfolding text_eq last_down is_input_at
last_input_row p rows =
    if text_eq p.prompt [] || (text_eq p.idle_top [] || text_eq p.idle_bottom [])
    then none
    else last_down (is_input_at p rows) (length rows - 2)

unfoldable pub has_idle : DetectorPatternSet → List Text → Bool
unfolding last_input_row
has_idle p rows = is_some (last_input_row p rows)

-- The loop of `auxiliaryRowStart`, from the row before `n` on.
unfoldable pub auxiliary_row_start : Matching → List Text → ℕ → Option ℕ
unfolding has_prefix trim trim_left text_eq
auxiliary_row_start m rows zero = none
auxiliary_row_start m rows (suc i) =
    if has_prefix (trim m.is_blank (row_at rows i)) (0x23BF ∷ [])
    then some i
    else if text_eq (trim_left m.is_blank (row_at rows i)) (row_at rows i)
    then none
    else auxiliary_row_start m rows i

-- The loop of `hasObservedWorking`, from the row before `n` on; each round goes up by one row at least.
unfoldable pub working_above : Matching → List Text → ℕ → ℕ → Bool
unfolding trim text_eq auxiliary_row_start observed_working_line
working_above m rows zero n = false
working_above m rows (suc fuel) zero = false
working_above m rows (suc fuel) (suc i) = elim (text_eq (trim m.is_blank (row_at rows i)) []) [
  | true ↦ working_above m rows fuel i
  | false ↦ elim (auxiliary_row_start m rows (suc i)) [
    | none ↦ observed_working_line m (row_at rows i)
    | some start ↦ working_above m rows fuel start
  ]
]

abbrev pub working_over : Matching → List Text → Option ℕ → Bool
working_over m rows none = false
working_over m rows (some input) = working_above m rows (length rows) (input - 1)

unfoldable pub has_observed_working : Matching → DetectorPatternSet → List Text → Bool
unfolding last_input_row working_above
has_observed_working m p rows = working_over m rows (last_input_row p rows)

abbrev pub is_blank_cell : Cell → Bool
is_blank_cell cell =
    text_eq cell.text []
    || (text_eq cell.text (b' ' ∷ []) || (text_eq cell.text (nbsp ∷ []) || cell.faint))

unfoldable pub all_blank : List Cell → Bool
all_blank [] = true
all_blank (cell ∷ cells) = is_blank_cell cell && all_blank cells

abbrev pub blank_after : List Cell → ℕ → Bool
blank_after cells marker =
    if ltb (length cells) marker then false else all_blank (drop marker cells)

abbrev pub input_cells : DetectorPatternSet → List (List Cell) → Option ℕ → Bool
input_cells p cells none = false
input_cells p cells (some row) = blank_after (get_or cells row []) (length p.prompt)

-- `none` stands for the nil slice of cells.
unfoldable pub is_input_blank : DetectorPatternSet → List Text → Option (List (List Cell)) → Bool
unfolding last_input_row text_eq all_blank
is_input_blank p rows none = false
is_input_blank p rows (some cells) =
    if not (length cells == length rows) then false else input_cells p cells (last_input_row p rows)
