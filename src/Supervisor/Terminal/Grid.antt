-- ===== src/Supervisor/Terminal/Grid.antt =====
-- internal/supervisor/vterm.go: the cells of a screen. An index out of range panics in Go: here it
-- sets the flag `panicked`. The width of a rune is an argument.
pub mod Shape
pub mod Scrolling
pub mod Repair
pub mod Pairs
use codex_runner.Prelude.{
  ℕ, zero, suc, ◌+◌, ◌-◌, min, Bool, true, false, not, ◌&&◌, ◌||◌, List, [], ◌∷◌, ◌++◌, Option,
  none, some, length, get_or, set, take, drop, replicate, map, ltb, leb, ◌==◌, if◌then◌else◌,
}

-- `text` is a list of runes.
pub record TerminalCell : Type 0 where
  pub text : List ℕ
  pub continuation : Bool
  pub faint : Bool

abbrev pub blank : TerminalCell
blank = record { text = []; continuation = false; faint = false }

abbrev pub Row : Type 0
Row = List TerminalCell

pub record Grid : Type 0 where
  pub cells : List Row
  pub panicked : Bool

unfoldable pub new_grid : ℕ → ℕ → Grid
new_grid cols rows = record { cells = replicate rows (replicate cols blank); panicked = false }

abbrev pub row_of : ℕ → Grid → Row
row_of r g = get_or g.cells r []

abbrev pub cell_of : ℕ → ℕ → Grid → TerminalCell
cell_of r c g = get_or (row_of r g) c blank

abbrev pub cell_in_range : ℕ → ℕ → Grid → Bool
cell_in_range r c g = ltb r (length g.cells) && ltb c (length (row_of r g))

abbrev pub panic : Grid → Grid
panic g = record g { panicked = true }

-- A read of `cells[r][c]`
unfoldable pub touch : ℕ → ℕ → Grid → Grid
touch r c g = if cell_in_range r c g then g else panic g

-- `cells[r][c] = x`
unfoldable pub write_cell : ℕ → ℕ → TerminalCell → Grid → Grid
write_cell r c x g =
    if cell_in_range r c g
    then record g { cells = set g.cells r (set (row_of r g) c x) }
    else panic g

-- Reads the cell (r, i), and empties (r, j) if the first is a continuation.
unfoldable pub clear_if : ℕ → ℕ → ℕ → Grid → Grid
unfolding touch write_cell
clear_if r i j g =
    if (cell_of r i g).continuation then write_cell r j blank (touch r i g) else touch r i g

unfoldable pub erase_wide_at : ℕ → ℕ → ℕ → Grid → Grid
unfolding touch write_cell clear_if
erase_wide_at cols r c g =
    if leb cols c
    then g
    else (let left = if ltb 0 c then clear_if r c (c - 1) g else touch r c g in
        let right = if ltb (c + 1) cols then clear_if r (c + 1) (c + 1) left else left in
        write_cell r c blank right)

-- The loop `for c := start; c < end; c++` over `eraseWideAt`, by the rounds that are left.
unfoldable pub erase_range : ℕ → ℕ → ℕ → ℕ → Grid → Grid
unfolding erase_wide_at
erase_range cols r start zero g = g
erase_range cols r start (suc n) g = erase_range cols r (start + 1) n (erase_wide_at cols r start g)

-- `clear(cells[r])`
unfoldable pub clear_row : ℕ → Grid → Grid
clear_row r g =
    if ltb r (length g.cells)
    then record g { cells = set g.cells r (map (λ x. blank) (row_of r g)) }
    else panic g

unfoldable pub clear_rows : ℕ → ℕ → Grid → Grid
unfolding clear_row
clear_rows start zero g = g
clear_rows start (suc n) g = clear_rows (start + 1) n (clear_row start g)

-- The rows that `copy` and the loop after it leave: those from `row` to `bottom` move up by n.
abbrev pub moved_up : ℕ → ℕ → ℕ → ℕ → List Row → List Row
moved_up cols row bottom n rows =
    take row rows
    ++ (drop (row + n) (take (bottom + 1) rows)
        ++ (replicate n (replicate cols blank) ++ drop (bottom + 1) rows))

abbrev pub moved_down : ℕ → ℕ → ℕ → ℕ → List Row → List Row
moved_down cols row bottom n rows =
    take row rows
    ++ (replicate n (replicate cols blank)
        ++ (take (bottom + 1 - n - row) (drop row rows) ++ drop (bottom + 1) rows))

abbrev pub in_region : ℕ → ℕ → ℕ → Bool
in_region top bottom row = leb top row && leb row bottom

abbrev pub move : (ℕ → List Row → List Row) → ℕ → ℕ → ℕ → ℕ → Grid → Grid
move f top bottom row n g =
    if not (in_region top bottom row)
    then g
    else if ltb bottom (length g.cells)
    then record g { cells = f (min n (bottom + 1 - row)) g.cells }
    else panic g

-- `scrollUpAt` and `scrollDownAt`, in the scroll region from `top` to `bottom`.
unfoldable pub scroll_up_at : ℕ → ℕ → ℕ → ℕ → ℕ → Grid → Grid
scroll_up_at cols top bottom row n = move (moved_up cols row bottom) top bottom row n

unfoldable pub scroll_down_at : ℕ → ℕ → ℕ → ℕ → ℕ → Grid → Grid
scroll_down_at cols top bottom row n = move (moved_down cols row bottom) top bottom row n

-- `cell.text != "" && runeWidth([]rune(cell.text)[0]) == 2`
abbrev pub starts_wide : (ℕ → ℕ) → List ℕ → Bool
starts_wide width [] = false
starts_wide width (ch ∷ text) = width ch == 2

abbrev pub follows_wide : (ℕ → ℕ) → Option TerminalCell → Bool
follows_wide width none = false
follows_wide width (some p) = not p.continuation && starts_wide width p.text

abbrev pub next_continues : Row → Bool
next_continues [] = false
next_continues (x ∷ row) = x.continuation

abbrev pub repaired : (ℕ → ℕ) → Option TerminalCell → TerminalCell → Row → TerminalCell
repaired width previous x rest =
    if x.continuation
    then (if not (follows_wide width previous) then blank else x)
    else if starts_wide width x.text && not (next_continues rest)
    then blank
    else x

-- The loop of `repairWideRow`: each cell is looked at with its left neighbour, already repaired.
unfoldable pub repair_row : (ℕ → ℕ) → Option TerminalCell → Row → Row
repair_row width previous [] = []
repair_row width previous (x ∷ rest) =
    repaired width previous x rest ∷ repair_row width (some (repaired width previous x rest)) rest

unfoldable pub repair_wide_row : (ℕ → ℕ) → ℕ → ℕ → Grid → Grid
unfolding repair_row
repair_wide_row width cols r g =
    if ltb cols 2
    then g
    else if ltb r (length g.cells) && leb cols (length (row_of r g))
    then record g {
      cells =
          set g.cells r (repair_row width none (take cols (row_of r g)) ++ drop cols (row_of r g));
    }
    else panic g

unfoldable pub repair_rows : (ℕ → ℕ) → ℕ → ℕ → ℕ → Grid → Grid
unfolding repair_wide_row
repair_rows width cols start zero g = g
repair_rows width cols start (suc n) g =
    repair_rows width cols (start + 1) n (repair_wide_row width cols start g)

-- The row of `shiftChars` before the repair.
abbrev pub shifted : ℕ → ℕ → ℕ → Bool → Row → Row
shifted cols c n true row =
    take c row ++ (replicate n blank ++ (take (cols - n - c) (drop c row) ++ drop cols row))
shifted cols c n false row =
    take c row ++ (drop (c + n) (take cols row) ++ (replicate n blank ++ drop cols row))

unfoldable pub shift_chars : (ℕ → ℕ) → ℕ → ℕ → ℕ → ℕ → Bool → Grid → Grid
unfolding repair_wide_row
shift_chars width cols r c n insert g =
    if ltb r (length g.cells) && leb cols (length (row_of r g)) && leb c cols
    then repair_wide_row width cols r
        (record g { cells = set g.cells r (shifted cols c (min n (cols - c)) insert (row_of r g)) })
    else panic g

-- The cells of `Resize`: the upper left part, filled up with blank cells.
abbrev pub resized_row : ℕ → Row → Row
resized_row cols row = take cols row ++ replicate (cols - length row) blank

unfoldable pub resized : ℕ → ℕ → Grid → Grid
resized cols rows g = record g {
  cells =
      map (resized_row cols) (take rows g.cells)
      ++ replicate (rows - length g.cells) (replicate cols blank);
}
