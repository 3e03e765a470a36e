-- ===== src/Supervisor/Terminal/Grid/Scrolling.antt =====
-- Scrolling and resizing keep the grid rectangular.
use codex_runner.Prelude.{
  ℕ, ◌+◌, ◌-◌, ◌≤◌, ◌<◌, ◌≡◌, refl, min, true, false, List, [], ◌∷◌, length, take, drop, replicate,
  map, ltb, All, arith, Bool-cases, inl, inr, length-take, length-drop, length-replicate,
  length-append, All-take, All-drop, All-replicate, All-append,
}
use codex_runner.Supervisor.Terminal.Grid.{
  Row, Grid, blank, new_grid, moved_up, moved_down, move, in_region, scroll_up_at, scroll_down_at,
  resized_row, resized,
}
use codex_runner.Supervisor.Terminal.Grid.Shape.{
  IsGrid, length-map, length-append_four, All-append_four,
}

module _ (cols rows : ℕ) where
  blank_rows : (n : ℕ) → All (λ (row : Row). length row ≡ cols) (replicate n (replicate cols blank))
  blank_rows n = All-replicate _ n (replicate cols blank) (length-replicate cols blank)

  move-IsGrid :
      (f : ℕ → List Row → List Row) (top bottom row n : ℕ) (g : Grid)
      → IsGrid cols rows g
      → bottom < rows
      → ((m : ℕ) → row ≤ bottom → m ≤ bottom + 1 - row → length (f m g.cells) ≡ rows)
      → ((m : ℕ) → All (λ (x : Row). length x ≡ cols) (f m g.cells))
      → IsGrid cols rows (move f top bottom row n g)
  move-IsGrid f top bottom row n g h l size shape = elim (Bool-cases (in_region top bottom row)) [
    | inr outside ↦ rw outside h
    | inl inside ↦
        let there : ltb bottom (length g.cells) ≡ true = ground (arith, h.height) in
        rw (inside, there)
          (record {
            height = size (min n (bottom + 1 - row)) (ground arith) (omega arith);
            width = shape (min n (bottom + 1 - row));
            sound = h.sound;
          })
  ]

  pub scroll_up_at-IsGrid :
      (top bottom row n : ℕ) (g : Grid)
      → IsGrid cols rows g
      → bottom < rows
      → IsGrid cols rows (scroll_up_at cols top bottom row n g)
  unfolding scroll_up_at
  scroll_up_at-IsGrid top bottom row n g h l =
      move-IsGrid (moved_up cols row bottom) top bottom row n g h l
        (λ m inside few. omega (
          arith,
          h.height,
          length-append_four (take row g.cells) (drop (row + m) (take (bottom + 1) g.cells))
              (replicate m (replicate cols blank)) (drop (bottom + 1) g.cells),
          length-take row g.cells,
          length-drop (row + m) (take (bottom + 1) g.cells),
          length-take (bottom + 1) g.cells,
          length-replicate m (replicate cols blank),
          length-drop (bottom + 1) g.cells,
        ))
        (λ m.
          All-append_four _ (take row g.cells) _ _ _ (All-take _ row g.cells h.width)
            (All-drop _ (row + m) (take (bottom + 1) g.cells)
              (All-take _ (bottom + 1) g.cells h.width))
            (blank_rows m) (All-drop _ (bottom + 1) g.cells h.width))

  pub scroll_down_at-IsGrid :
      (top bottom row n : ℕ) (g : Grid)
      → IsGrid cols rows g
      → bottom < rows
      → IsGrid cols rows (scroll_down_at cols top bottom row n g)
  unfolding scroll_down_at
  scroll_down_at-IsGrid top bottom row n g h l =
      move-IsGrid (moved_down cols row bottom) top bottom row n g h l
        (λ m inside few. omega (
          arith,
          h.height,
          length-append_four (take row g.cells) (replicate m (replicate cols blank))
              (take (bottom + 1 - m - row) (drop row g.cells)) (drop (bottom + 1) g.cells),
          length-take row g.cells,
          length-take (bottom + 1 - m - row) (drop row g.cells),
          length-drop row g.cells,
          length-replicate m (replicate cols blank),
          length-drop (bottom + 1) g.cells,
        ))
        (λ m.
          All-append_four _ (take row g.cells) _ _ _ (All-take _ row g.cells h.width) (blank_rows m)
            (All-take _ (bottom + 1 - m - row) (drop row g.cells) (All-drop _ row g.cells h.width))
            (All-drop _ (bottom + 1) g.cells h.width))

  pub new_grid-IsGrid : IsGrid cols rows (new_grid cols rows)
  unfolding new_grid
  new_grid-IsGrid = record {
    height = length-replicate rows (replicate cols blank);
    width = blank_rows rows;
    sound = refl;
  }

  resized_rows :
      (xs : List Row) → All (λ (row : Row). length row ≡ cols) (map (resized_row cols) xs)
  resized_rows [] = tt
  resized_rows (row ∷ xs) = (
    omega (
      arith,
      length-append (take cols row) (replicate (cols - length row) blank),
      length-take cols row,
      length-replicate (cols - length row) blank,
    ),
    resized_rows xs,
  )

  pub resized-IsGrid : (g : Grid) → g.panicked ≡ false → IsGrid cols rows (resized cols rows g)
  unfolding resized
  resized-IsGrid g s = record {
    height = omega (
      arith,
      length-append (map (resized_row cols) (take rows g.cells))
          (replicate (rows - length g.cells) (replicate cols blank)),
      length-map (resized_row cols) (take rows g.cells),
      length-take rows g.cells,
      length-replicate (rows - length g.cells) (replicate cols blank),
    );
    width =
        All-append _ (map (resized_row cols) (take rows g.cells)) _
          (resized_rows (take rows g.cells)) (blank_rows (rows - length g.cells));
    sound = s;
  }
