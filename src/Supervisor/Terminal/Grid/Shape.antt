-- ===== src/Supervisor/Terminal/Grid/Shape.antt =====
-- No operation on the cells reads or writes out of range, and each keeps the grid rectangular.
use codex_runner.Prelude.{
  ℕ, zero, suc, ◌+◌, ◌-◌, ◌≤◌, ◌<◌, ◌≡◌, refl, ◌∙◌, true, false, List, [], ◌∷◌, ◌++◌, length, set,
  map, ltb, leb, if◌then◌else◌, All, arith, Bool-cases, inl, inr, length-set, length-append,
  All-get_or, All-set, All-append,
}
use codex_runner.Supervisor.Terminal.Grid.{
  TerminalCell, Row, Grid, blank, row_of, cell_of, cell_in_range, touch, write_cell, clear_if,
  erase_wide_at, erase_range, clear_row, clear_rows,
}

-- `rows` rows of `cols` cells, and no panic so far.
pub record IsGrid (cols rows : ℕ) (g : Grid) : Type 0 where
  pub height : length g.cells ≡ rows
  pub width : All (λ row. length row ≡ cols) g.cells
  pub sound : g.panicked ≡ false

pub length-map {ℓ κ} :
    {A : Type ℓ} {B : Type κ} (f : A → B) (xs : List A) → length (map f xs) ≡ length xs
length-map f [] = refl
length-map f (x ∷ xs) = omega (arith, length-map f xs)

pub length-append_four {ℓ} :
    {A : Type ℓ} (a b c d : List A)
    → length (a ++ (b ++ (c ++ d))) ≡ length a + (length b + (length c + length d))
length-append_four a b c d =
    omega (arith, length-append a (b ++ (c ++ d)), length-append b (c ++ d), length-append c d)

pub All-append_four {ℓ κ} :
    {A : Type ℓ} (P : A → Type κ) (a b c d : List A)
    → All P a
    → All P b
    → All P c
    → All P d
    → All P (a ++ (b ++ (c ++ d)))
All-append_four P a b c d ha hb hc hd =
    All-append P a _ ha (All-append P b _ hb (All-append P c d hc hd))

module _ (cols rows : ℕ) where
  pub row_of-width : (r : ℕ) (g : Grid) → IsGrid cols rows g → r < rows → length (row_of r g) ≡ cols
  row_of-width r g h l =
      All-get_or (λ row. length row ≡ cols) g.cells r [] h.width (omega (arith, h.height))

  cell_in_range-true :
      (r c : ℕ) (g : Grid) → IsGrid cols rows g → r < rows → c < cols → cell_in_range r c g ≡ true
  cell_in_range-true r c g h l k = ground (arith, row_of-width r g h l, h.height)

  pub set_row-IsGrid :
      (r : ℕ) (row : Row) (g : Grid)
      → IsGrid cols rows g
      → length row ≡ cols
      → IsGrid cols rows (record g { cells = set g.cells r row })
  set_row-IsGrid r row g h e = record {
    height = length-set g.cells r row ∙ h.height;
    width = All-set (λ row. length row ≡ cols) g.cells r row h.width e;
    sound = h.sound;
  }

  pub touch-same : (r c : ℕ) (g : Grid) → IsGrid cols rows g → r < rows → c < cols → touch r c g ≡ g
  unfolding touch
  touch-same r c g h l k = rw (cell_in_range-true r c g h l k)

  pub write_cell-IsGrid :
      (r c : ℕ) (x : TerminalCell) (g : Grid)
      → IsGrid cols rows g
      → r < rows
      → c < cols
      → IsGrid cols rows (write_cell r c x g)
  unfolding write_cell
  write_cell-IsGrid r c x g h l k = rw (cell_in_range-true r c g h l k) (
      set_row-IsGrid r (set (row_of r g) c x) g h
        (length-set (row_of r g) c x ∙ row_of-width r g h l))

  clear_if-IsGrid :
      (r i j : ℕ) (g : Grid)
      → IsGrid cols rows g
      → r < rows
      → i < cols
      → j < cols
      → IsGrid cols rows (clear_if r i j g)
  unfolding clear_if
  clear_if-IsGrid r i j g h l k m =
      rw (touch-same r i g h l k) (elim (Bool-cases (cell_of r i g).continuation) [
        | inl follows ↦ rw follows (write_cell-IsGrid r j blank g h l m)
        | inr plain ↦ rw plain h
      ])

  erase_left-IsGrid :
      (r c : ℕ) (g : Grid)
      → IsGrid cols rows g
      → r < rows
      → c < cols
      → IsGrid cols rows (if ltb 0 c then clear_if r c (c - 1) g else touch r c g)
  erase_left-IsGrid r c g h l k = elim (Bool-cases (ltb 0 c)) [
    | inl later ↦ rw later (clear_if-IsGrid r c (c - 1) g h l k (omega arith))
    | inr first ↦ rw (first, touch-same r c g h l k) h
  ]

  erase_right-IsGrid :
      (r c : ℕ) (g : Grid)
      → IsGrid cols rows g
      → r < rows
      → IsGrid cols rows (if ltb (c + 1) cols then clear_if r (c + 1) (c + 1) g else g)
  erase_right-IsGrid r c g h l = elim (Bool-cases (ltb (c + 1) cols)) [
    | inl inside ↦
        let k : c + 1 < cols = ground arith in
        rw inside (clear_if-IsGrid r (c + 1) (c + 1) g h l k k)
    | inr outside ↦ rw outside h
  ]

  pub erase_wide_at-IsGrid :
      (r c : ℕ) (g : Grid)
      → IsGrid cols rows g
      → r < rows
      → IsGrid cols rows (erase_wide_at cols r c g)
  unfolding erase_wide_at
  erase_wide_at-IsGrid r c g h l = elim (Bool-cases (leb cols c)) [
    | inl outside ↦ rw outside h
    | inr inside ↦
        let k : c < cols = ground arith in
        rw inside (
          write_cell-IsGrid r c blank _ (erase_right-IsGrid r c _ (erase_left-IsGrid r c g h l k) l)
            l k)
  ]

  pub erase_range-IsGrid :
      (r start n : ℕ) (g : Grid)
      → IsGrid cols rows g
      → r < rows
      → IsGrid cols rows (erase_range cols r start n g)
  unfolding erase_range
  erase_range-IsGrid r start zero g h l = h
  erase_range-IsGrid r start (suc n) g h l =
      erase_range-IsGrid r (start + 1) n (erase_wide_at cols r start g)
        (erase_wide_at-IsGrid r start g h l) l

  clear_row-IsGrid :
      (r : ℕ) (g : Grid) → IsGrid cols rows g → r < rows → IsGrid cols rows (clear_row r g)
  unfolding clear_row
  clear_row-IsGrid r g h l =
      let there : ltb r (length g.cells) ≡ true = ground (arith, h.height) in
      rw there (
        set_row-IsGrid r (map (λ x. blank) (row_of r g)) g h
          (length-map (λ x. blank) (row_of r g) ∙ row_of-width r g h l))

  pub clear_rows-IsGrid :
      (start n : ℕ) (g : Grid)
      → IsGrid cols rows g
      → start + n ≤ rows
      → IsGrid cols rows (clear_rows start n g)
  unfolding clear_rows
  clear_rows-IsGrid start zero g h l = h
  clear_rows-IsGrid start (suc n) g h l =
      clear_rows-IsGrid (start + 1) n (clear_row start g) (clear_row-IsGrid start g h (omega arith))
        (omega arith)
