-- ===== src/Supervisor/Terminal/Grid/Repair.antt =====
-- Shifting the cells of a row and mending its wide runes keep the grid rectangular.
use codex_runner.Prelude.{
  ℕ, zero, suc, ◌+◌, ◌-◌, ◌≤◌, ◌<◌, ◌≡◌, refl, min, Bool, true, false, ◌&&◌, [], ◌∷◌, Option, none,
  some, length, take, drop, replicate, ltb, leb, arith, Bool-cases, inl, inr, length-take,
  length-drop, length-replicate, length-append,
}
use codex_runner.Supervisor.Terminal.Grid.{
  TerminalCell, Row, Grid, blank, row_of, repaired, repair_row, repair_wide_row, repair_rows,
  shifted, shift_chars,
}
use codex_runner.Supervisor.Terminal.Grid.Shape.{
  IsGrid, length-append_four, row_of-width, set_row-IsGrid,
}

module _ (cols rows : ℕ) where
  module _ (width : ℕ → ℕ) where
    length-repair_row :
        (previous : Option TerminalCell) (row : Row)
        → length (repair_row width previous row) ≡ length row
    unfolding repair_row
    length-repair_row previous [] = refl
    length-repair_row previous (x ∷ rest) =
        omega (arith, length-repair_row (some (repaired width previous x rest)) rest)

    repair_wide_row-IsGrid :
        (r : ℕ) (g : Grid)
        → IsGrid cols rows g
        → r < rows
        → IsGrid cols rows (repair_wide_row width cols r g)
    unfolding repair_wide_row
    repair_wide_row-IsGrid r g h l = elim (Bool-cases (ltb cols 2)) [
      | inl narrow ↦ rw narrow h
      | inr wide ↦
          let e = row_of-width cols rows r g h l in
          let there : (ltb r (length g.cells) && leb cols (length (row_of r g))) ≡ true =
            ground (arith, h.height) in
          rw (wide, there)
            (set_row-IsGrid cols rows r _ g h (
              omega (
                arith,
                e,
                length-append (repair_row width none (take cols (row_of r g)))
                    (drop cols (row_of r g)),
                length-repair_row none (take cols (row_of r g)),
                length-take cols (row_of r g),
                length-drop cols (row_of r g),
              )))
    ]

    pub repair_rows-IsGrid :
        (start n : ℕ) (g : Grid)
        → IsGrid cols rows g
        → start + n ≤ rows
        → IsGrid cols rows (repair_rows width cols start n g)
    unfolding repair_rows
    repair_rows-IsGrid start zero g h l = h
    repair_rows-IsGrid start (suc n) g h l =
        repair_rows-IsGrid (start + 1) n (repair_wide_row width cols start g)
          (repair_wide_row-IsGrid start g h (omega arith)) (omega arith)

    pub length-shifted :
        (c n : ℕ) (insert : Bool) (row : Row)
        → length row ≡ cols
        → c + n ≤ cols
        → length (shifted cols c n insert row) ≡ cols
    length-shifted c n true row e l = omega (
      arith,
      length-append_four (take c row) (replicate n blank) (take (cols - n - c) (drop c row))
          (drop cols row),
      length-take c row,
      length-take (cols - n - c) (drop c row),
      length-drop c row,
      length-replicate n blank,
      length-drop cols row,
    )
    length-shifted c n false row e l = omega (
      arith,
      length-append_four (take c row) (drop (c + n) (take cols row)) (replicate n blank)
          (drop cols row),
      length-take c row,
      length-drop (c + n) (take cols row),
      length-take cols row,
      length-replicate n blank,
      length-drop cols row,
    )

    pub shift_chars-IsGrid :
        (r c n : ℕ) (insert : Bool) (g : Grid)
        → IsGrid cols rows g
        → r < rows
        → c < cols
        → IsGrid cols rows (shift_chars width cols r c n insert g)
    unfolding shift_chars
    shift_chars-IsGrid r c n insert g h l k =
        let e = row_of-width cols rows r g h l in
        let there : (ltb r (length g.cells) && leb cols (length (row_of r g)) && leb c cols)
            ≡ true =
          ground (arith, h.height) in
        rw there (
          repair_wide_row-IsGrid r _
            (set_row-IsGrid cols rows r _ g h
              (length-shifted c (min n (cols - c)) insert (row_of r g) e (omega arith)))
            l)
