-- ===== src/Supervisor/Terminal/Screen/Printing.antt =====
-- Printing keeps the cursor on the screen, and so does every control character.
use codex_runner.Prelude.{
  ℕ, zero, suc, ◌+◌, ◌-◌, ◌*◌, ◌/◌, ◌<◌, ◌≡◌, refl, sym, subst, min, true, false, not, ◌&&◌, ◌||◌,
  [], ◌∷◌, ◌++◌, Option, none, some, ltb, leb, ◌==◌, if◌then◌else◌, arith, Bool-cases, branches,
  inl, inr,
}
use codex_runner.Supervisor.Terminal.Grid.{Grid, cell_of, write_cell, erase_wide_at}
use codex_runner.Supervisor.Terminal.Grid.Shape.{
  IsGrid, touch-same, write_cell-IsGrid, erase_wide_at-IsGrid,
}
use codex_runner.Supervisor.Terminal.Screen.{
  TerminalScreen, on_grid, scroll_up, line_feed, before, behind, step_back, previous_cell, touch_at,
  append_at, join, wrap_pending, wrap_wide, place, advance_cursor, put_wide, put_rune,
  control_or_rune,
}
use codex_runner.Supervisor.Terminal.Screen.Bounds.{
  IsScreen, on_grid-IsScreen, moved-IsScreen, at-IsScreen, line_feed-IsScreen,
}

-- A column that may be missing.
abbrev Inside : ℕ → Option ℕ → Type 0
Inside cols none = Unit
Inside cols (some c) = c < cols

module _ (cols rows : ℕ) where
  before-Inside : (c : ℕ) → c < cols → Inside cols (before c)
  before-Inside zero l = tt
  before-Inside (suc c) l = omega arith

  behind-Inside : (s : TerminalScreen) → IsScreen cols rows s → Inside cols (behind s)
  behind-Inside s h = elim (Bool-cases s.pending_wrap) [
    | inl full ↦ rw full h.col
    | inr room ↦ rw room (before-Inside s.col h.col)
  ]

  step_back-Inside :
      (s : TerminalScreen) (c : Option ℕ) → Inside cols c → Inside cols (step_back s c)
  step_back-Inside s none i = tt
  step_back-Inside s (some c) i = elim (Bool-cases (cell_of s.row c s.grid).continuation) [
    | inl follows ↦ rw follows (before-Inside c i)
    | inr plain ↦ rw plain i
  ]

  touch_at-same :
      (r : ℕ) (c : Option ℕ) (g : Grid)
      → IsGrid cols rows g
      → r < rows
      → Inside cols c
      → touch_at r c g ≡ g
  touch_at-same r none g h l i = refl
  touch_at-same r (some c) g h l i = touch-same cols rows r c g h l i

  append_at-IsGrid :
      (ch r : ℕ) (c : Option ℕ) (g : Grid)
      → IsGrid cols rows g
      → r < rows
      → Inside cols c
      → IsGrid cols rows (append_at ch r c g)
  append_at-IsGrid ch r none g h l i = h
  append_at-IsGrid ch r (some c) g h l i =
      write_cell-IsGrid cols rows r c
        (record (cell_of r c g) { text = (cell_of r c g).text ++ ch ∷ [] }) g h l i

  join-IsScreen :
      (ch : ℕ) (s : TerminalScreen) → IsScreen cols rows s → IsScreen cols rows (join ch s)
  unfolding join
  join-IsScreen ch s h =
      let g : IsGrid cols rows
          (append_at ch s.row (previous_cell s) (touch_at s.row (behind s) s.grid)) =
        append_at-IsGrid ch s.row (previous_cell s) (touch_at s.row (behind s) s.grid)
          (subst (IsGrid cols rows)
            (sym (touch_at-same s.row (behind s) s.grid h.grid h.row (behind-Inside s h))) h.grid)
          h.row (step_back-Inside s (behind s) (behind-Inside s h)) in
      moved-IsScreen cols rows s.row s.col (ch == 0x200d) s.pending_wrap s.faint
        (on_grid (λ g. append_at ch s.row (previous_cell s) (touch_at s.row (behind s) g)) s)
        (on_grid-IsScreen cols rows
          (λ g. append_at ch s.row (previous_cell s) (touch_at s.row (behind s) g)) s h g)
        h.row h.col

  wrap_pending-IsScreen :
      (s : TerminalScreen) → IsScreen cols rows s → IsScreen cols rows (wrap_pending cols rows s)
  wrap_pending-IsScreen s h = elim (Bool-cases s.pending_wrap) [
    | inl full ↦ rw full (
        line_feed-IsScreen cols rows (record s { col = 0; pending_wrap = false })
          (moved-IsScreen cols rows s.row 0 s.join_next false s.faint s h h.row
            (omega (arith, h.col))))
    | inr room ↦ simp room h
  ]

  wrap_wide-IsScreen :
      (w : ℕ) (s : TerminalScreen)
      → IsScreen cols rows s
      → IsScreen cols rows (wrap_wide cols rows w s)
  wrap_wide-IsScreen w s h = elim (Bool-cases (w == 2 && s.col == cols - 1)) [
    | inl last ↦ rw last (
        line_feed-IsScreen cols rows (record s { col = 0 })
          (at-IsScreen cols rows s.row 0 s h h.row (omega (arith, h.col))))
    | inr fits ↦ rw fits h
  ]

  place-IsScreen :
      (w ch : ℕ) (s : TerminalScreen)
      → IsScreen cols rows s
      → (w ≡ 2 → s.col + 1 < cols)
      → IsScreen cols rows (place cols w ch s)
  unfolding place
  place-IsScreen w ch s h wide =
      let first = erase_wide_at-IsGrid cols rows s.row s.col s.grid h.grid h.row in
      elim (Bool-cases (w == 2)) [
        | inl two ↦
            let k : s.col + 1 < cols = wide (ground arith) in
            let both =
              write_cell-IsGrid cols rows s.row s.col
                (record { text = ch ∷ []; continuation = false; faint = s.faint }) _
                (erase_wide_at-IsGrid cols rows s.row (s.col + 1) _ first h.row) h.row h.col in
            rw two (
              on_grid-IsScreen cols rows
                (λ g.
                  write_cell s.row (s.col + 1)
                    (record { text = []; continuation = true; faint = s.faint })
                    (write_cell s.row s.col
                      (record { text = ch ∷ []; continuation = false; faint = s.faint })
                      (erase_wide_at cols s.row (s.col + 1) (erase_wide_at cols s.row s.col g))))
                s h (write_cell-IsGrid cols rows s.row (s.col + 1) _ _ both h.row k))
        | inr one ↦ rw one (
            on_grid-IsScreen cols rows
              (λ g.
                write_cell s.row s.col
                  (record { text = ch ∷ []; continuation = false; faint = s.faint })
                  (erase_wide_at cols s.row s.col g))
              s h (write_cell-IsGrid cols rows s.row s.col _ _ first h.row h.col))
      ]

  advance_cursor-IsScreen :
      (w : ℕ) (s : TerminalScreen)
      → IsScreen cols rows s
      → IsScreen cols rows (advance_cursor cols w s)
  advance_cursor-IsScreen w s h = elim (Bool-cases (leb cols (s.col + w))) [
    | inl full ↦ rw full (
        moved-IsScreen cols rows s.row (cols - 1) s.join_next true s.faint s h h.row
          (omega (arith, h.col)))
    | inr room ↦ rw room (at-IsScreen cols rows s.row (s.col + w) s h h.row (ground arith))
  ]

  line_feed-col : (s : TerminalScreen) → (line_feed cols rows s).col ≡ s.col
  unfolding line_feed scroll_up
  line_feed-col s =
      branches (λ t. t.col ≡ s.col) (s.row == s.scroll_bottom) (scroll_up cols 1 s) _ (λ e. refl)
        (λ e.
          branches (λ t. t.col ≡ s.col) (ltb s.row (rows - 1)) (record s { row = s.row + 1 }) s
            (λ k. refl) (λ k. refl))

  wrap_wide-room :
      (w : ℕ) (s : TerminalScreen)
      → s.col < cols
      → w ≡ 2
      → 1 < cols
      → (wrap_wide cols rows w s).col + 1 < cols
  wrap_wide-room w s l e k = elim (Bool-cases (s.col == cols - 1)) [
    | inl last ↦ simp (e, last, line_feed-col (record s { col = 0 })) k
    | inr fits ↦ let m : s.col + 1 < cols = ground arith in simp (e, fits) m
  ]

  put_wide-IsScreen :
      (w ch : ℕ) (s : TerminalScreen)
      → IsScreen cols rows s
      → (w ≡ 2 → 1 < cols)
      → IsScreen cols rows (put_wide cols rows w ch s)
  unfolding put_wide
  put_wide-IsScreen w ch s h wide =
      let h1 = wrap_pending-IsScreen s h in
      let h2 = wrap_wide-IsScreen w (wrap_pending cols rows s) h1 in
      advance_cursor-IsScreen w _ (
        place-IsScreen w ch (wrap_wide cols rows w (wrap_pending cols rows s)) h2
          (λ e. wrap_wide-room w (wrap_pending cols rows s) h1.col e (wide e)))

  pub put_rune-IsScreen :
      (width : ℕ → ℕ) (ch : ℕ) (s : TerminalScreen)
      → IsScreen cols rows s
      → IsScreen cols rows (put_rune width cols rows ch s)
  unfolding put_rune
  put_rune-IsScreen width ch s h =
      branches (IsScreen cols rows) (width ch == 0 || s.join_next) _ _ (λ e. join-IsScreen ch s h)
        (λ e.
          put_wide-IsScreen (if ltb cols 2 && width ch == 2 then 1 else width ch) ch s h
            (λ two. ground arith))

  pub control_or_rune-IsScreen :
      (width : ℕ → ℕ) (ch : ℕ) (s : TerminalScreen)
      → IsScreen cols rows s
      → IsScreen cols rows (control_or_rune width cols rows ch s)
  unfolding control_or_rune
  control_or_rune-IsScreen width ch s h =
      let P = IsScreen cols rows in
      branches P (ch == 13) _ _
        (λ e.
          moved-IsScreen cols rows s.row 0 s.join_next false s.faint s h h.row
            (omega (arith, h.col)))
        (λ e.
          branches P (ch == 10 || ch == 11 || ch == 12) _ _ (λ e. line_feed-IsScreen cols rows s h)
            (λ e.
              branches P (ch == 8) _ _
                (λ e.
                  moved-IsScreen cols rows s.row (s.col - 1) s.join_next false s.faint s h h.row
                    (omega (arith, h.col)))
                (λ e.
                  branches P (ch == 9) _ _
                    (λ e.
                      at-IsScreen cols rows s.row (min (cols - 1) ((s.col / 8 + 1) * 8)) s h h.row
                        (omega (arith, h.col)))
                    (λ e.
                      branches P (leb 0x20 ch && not (ch == 0x7f)) _ _
                        (λ e. put_rune-IsScreen width ch s h) (λ e. h)))))
