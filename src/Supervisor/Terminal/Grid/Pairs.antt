-- ===== src/Supervisor/Terminal/Grid/Pairs.antt =====
-- The two cells of a wide rune stay together when the cells of a row are shifted.
use codex_runner.Prelude.{
  ℕ, zero, suc, ◌-◌, ◌≤◌, ◌<◌, ◌≡◌, refl, sym, ap, subst, ◌∙◌, min, Bool, true, false, not, ◌&&◌,
  List, [], ◌∷◌, ◌++◌, Option, none, some, length, get_or, set, take, drop, ltb, leb, if◌then◌else◌,
  arith, branches, Bool-cases, inl, inr,
}
use codex_runner.Supervisor.Terminal.Grid.{
  TerminalCell, Row, Grid, blank, row_of, follows_wide, starts_wide, next_continues, repaired,
  repair_row, repair_wide_row, shifted, shift_chars,
}
use codex_runner.Supervisor.Terminal.Grid.Shape.{IsGrid, row_of-width, set_row-IsGrid}
use codex_runner.Supervisor.Terminal.Grid.Repair.{length-shifted}

-- After `previous`: a cell is a continuation exactly when the one before it starts a wide rune, and
-- no wide rune starts in the last cell.
abbrev pub IsPaired : (ℕ → ℕ) → Option TerminalCell → Row → Type 0
IsPaired width previous [] = follows_wide width previous ≡ false
IsPaired width previous (x ∷ row) =
    (x.continuation ≡ follows_wide width previous) × IsPaired width (some x) row

module _ (width : ℕ → ℕ) where
  repaired-continuation :
      (previous : Option TerminalCell) (x : TerminalCell) (rest : Row)
      → (follows_wide width previous ≡ true → x.continuation ≡ true)
      → (repaired width previous x rest).continuation ≡ follows_wide width previous
  repaired-continuation previous x rest h =
      let f = follows_wide width previous in
      let P = λ (y : TerminalCell). y.continuation ≡ follows_wide width previous in
      branches P x.continuation (if not f then blank else x)
        (if starts_wide width x.text && not (next_continues rest) then blank else x)
        (λ c. branches P (not f) blank x (λ e. ground arith) (λ e. ground arith))
        (λ c.
          branches P (starts_wide width x.text && not (next_continues rest)) blank x
            (λ e. ground (arith, h)) (λ e. ground (arith, h)))

  repaired-next :
      (previous : Option TerminalCell) (x : TerminalCell) (rest : Row)
      → follows_wide width (some (repaired width previous x rest)) ≡ true
      → next_continues rest ≡ true
  repaired-next previous x rest h =
      let f = follows_wide width previous in
      let P =
        λ (y : TerminalCell). follows_wide width (some y) ≡ true → next_continues rest ≡ true in
      branches P x.continuation (if not f then blank else x)
        (if starts_wide width x.text && not (next_continues rest) then blank else x)
        (λ c. branches P (not f) blank x (λ e k. cc) (λ e k. ground arith))
        (λ c.
          branches P (starts_wide width x.text && not (next_continues rest)) blank x (λ e k. cc)
            (λ e k. ground arith))
        h

  repair_row-IsPaired :
      (previous : Option TerminalCell) (row : Row)
      → (follows_wide width previous ≡ true → next_continues row ≡ true)
      → IsPaired width previous (repair_row width previous row)
  unfolding repair_row
  repair_row-IsPaired previous [] h = elim (Bool-cases (follows_wide width previous)) [
    | inl wide ↦ (let no = h wide in cc)
    | inr narrow ↦ narrow
  ]
  repair_row-IsPaired previous (x ∷ rest) h = (
    repaired-continuation previous x rest h,
    repair_row-IsPaired (some (repaired width previous x rest)) rest
        (repaired-next previous x rest),
  )

take_all {ℓ} : {A : Type ℓ} (xs : List A) (n : ℕ) → length xs ≤ n → take n xs ≡ xs
take_all [] zero l = refl
take_all [] (suc n) l = refl
take_all (x ∷ xs) zero l = absurd (omega arith)
take_all (x ∷ xs) (suc n) l = ap (λ ys. x ∷ ys) (take_all xs n (omega arith))

drop_all {ℓ} : {A : Type ℓ} (xs : List A) (n : ℕ) → length xs ≤ n → drop n xs ≡ []
drop_all [] zero l = refl
drop_all [] (suc n) l = refl
drop_all (x ∷ xs) zero l = absurd (omega arith)
drop_all (x ∷ xs) (suc n) l = drop_all xs n (omega arith)

append_nil {ℓ} : {A : Type ℓ} (xs : List A) → xs ++ [] ≡ xs
append_nil [] = refl
append_nil (x ∷ xs) = ap (λ ys. x ∷ ys) (append_nil xs)

get_or-set {ℓ} :
    {A : Type ℓ} (xs : List A) (i : ℕ) (v d : A) → i < length xs → get_or (set xs i v) i d ≡ v
get_or-set [] i v d l = absurd (omega arith)
get_or-set (x ∷ xs) zero v d l = refl
get_or-set (x ∷ xs) (suc i) v d l = get_or-set xs i v d (omega arith)

module _ (cols rows : ℕ) (width : ℕ → ℕ) where
  whole_row :
      (row : Row)
      → length row ≤ cols
      → repair_row width none (take cols row) ++ drop cols row ≡ repair_row width none row
  whole_row row l =
      ap (λ t. repair_row width none t ++ drop cols row) (take_all row cols l)
      ∙ ap (λ d. repair_row width none row ++ d) (drop_all row cols l)
      ∙ append_nil (repair_row width none row)

  repair_wide_row-row :
      (r : ℕ) (g : Grid)
      → IsGrid cols rows g
      → r < rows
      → 1 < cols
      → row_of r (repair_wide_row width cols r g) ≡ repair_row width none (row_of r g)
  unfolding repair_wide_row
  repair_wide_row-row r g h l wide =
      let e = row_of-width cols rows r g h l in
      let broad : ltb cols 2 ≡ false = ground arith in
      let there : (ltb r (length g.cells) && leb cols (length (row_of r g))) ≡ true =
        ground (arith, h.height) in
      rw (broad, there)
        (get_or-set g.cells r
            (repair_row width none (take cols (row_of r g)) ++ drop cols (row_of r g)) []
            (omega (arith, h.height))
          ∙ whole_row (row_of r g) (omega (arith, e)))

  -- The grid of `shiftChars` before the repair.
  abbrev moved_cells : ℕ → ℕ → ℕ → Bool → Grid → Grid
  moved_cells r c n insert g = record g {
    cells = set g.cells r (shifted cols c (min n (cols - c)) insert (row_of r g));
  }

  shift_chars-repaired :
      (r c n : ℕ) (insert : Bool) (g : Grid)
      → IsGrid cols rows g
      → r < rows
      → c < cols
      → shift_chars width cols r c n insert g
        ≡ repair_wide_row width cols r (moved_cells r c n insert g)
  unfolding shift_chars
  shift_chars-repaired r c n insert g h l k =
      let e = row_of-width cols rows r g h l in
      let there : (ltb r (length g.cells) && leb cols (length (row_of r g)) && leb c cols) ≡ true =
        ground (arith, h.height) in
      rw there refl

  -- On a screen of at least two columns, inserting or deleting cells in a row leaves a row in which
  -- each wide rune has its continuation right after it, and each continuation such a rune before it.
  pub shift_chars-IsPaired :
      (r c n : ℕ) (insert : Bool) (g : Grid)
      → IsGrid cols rows g
      → r < rows
      → c < cols
      → 1 < cols
      → IsPaired width none (row_of r (shift_chars width cols r c n insert g))
  shift_chars-IsPaired r c n insert g h l k wide =
      let e = row_of-width cols rows r g h l in
      let m = moved_cells r c n insert g in
      let shape =
        set_row-IsGrid cols rows r (shifted cols c (min n (cols - c)) insert (row_of r g)) g h (
          length-shifted cols rows width c (min n (cols - c)) insert (row_of r g) e
            (omega arith)) in
      subst (IsPaired width none)
        (sym (
          ap (row_of r) (shift_chars-repaired r c n insert g h l k)
          ∙ repair_wide_row-row r m shape l wide))
        (repair_row-IsPaired width none (row_of r m) (λ f. cc))
