-- ===== src/Supervisor/Detect/Patterns/Order.antt =====
-- The search for a group row by row finds the group whenever it stands there at all.
use codex_runner.Prelude.{
  ◌≤◌, ◌≡◌, refl, sym, ◌∙◌, ◌↔◌, Bool, true, false, List, [], ◌∷◌, Text, length, arith, Bool-cases,
  inl, inr,
}
use codex_runner.Supervisor.Detect.Patterns.{
  Matching, LinePattern, rest_after, in_order, fits_row, ordered_line_pattern_found,
}

-- The patterns stand on rows one below the other, others between them.
pub data Embeds {P : Type 0} (fits : P → Text → Bool) : List P → List Text → Type 0 where
  nothing : {rows : List Text} → Embeds fits [] rows
  skip :
      {group : List P} {row : Text} {rows : List Text}
      → Embeds fits group rows
      → Embeds fits group (row ∷ rows)
  keep :
      {p : P} {group : List P} {row : Text} {rows : List Text}
      → fits p row ≡ true
      → Embeds fits group rows
      → Embeds fits (p ∷ group) (row ∷ rows)

module _ {P : Type 0} (fits : P → Text → Bool) where
  Embeds-rest :
      {p : P} {group : List P} {rows : List Text}
      → Embeds fits (p ∷ group) rows
      → Embeds fits group rows
  Embeds-rest (skip e) = skip (Embeds-rest e)
  Embeds-rest (keep h e) = skip e

  Embeds-below :
      (p : P) (group : List P) (row : Text) (rows : List Text)
      → Embeds fits (p ∷ group) (row ∷ rows)
      → Embeds fits group rows
  Embeds-below p group row rows (skip e) = Embeds-rest e
  Embeds-below p group row rows (keep h e) = e

  Embeds-skipped :
      (p : P) (group : List P) (row : Text) (rows : List Text)
      → fits p row ≡ false
      → Embeds fits (p ∷ group) (row ∷ rows)
      → Embeds fits (p ∷ group) rows
  Embeds-skipped p group row rows no_fit (skip e) = e
  Embeds-skipped p group row rows no_fit (keep h e) = cc

  in_order-fit :
      (p : P) (group : List P) (row : Text) (rows : List Text)
      → fits p row ≡ true
      → in_order fits (row ∷ rows) (p ∷ group) ≡ in_order fits rows group
  unfolding in_order rest_after
  in_order-fit p group row rows fit = ground arith

  in_order-no_fit :
      (p : P) (group : List P) (row : Text) (rows : List Text)
      → fits p row ≡ false
      → in_order fits (row ∷ rows) (p ∷ group) ≡ in_order fits rows (p ∷ group)
  unfolding in_order rest_after
  in_order-no_fit p group row rows no_fit = ground arith

  in_order→Embeds :
      (rows : List Text) (group : List P) → in_order fits rows group ≡ true → Embeds fits group rows
  unfolding in_order
  in_order→Embeds rows [] h = nothing
  in_order→Embeds [] (p ∷ group) h = cc
  in_order→Embeds (row ∷ rows) (p ∷ group) h = elim (Bool-cases (fits p row)) [
    | inl fit ↦ keep fit (in_order→Embeds rows group (sym (in_order-fit p group row rows fit) ∙ h))
    | inr no_fit ↦
        skip (in_order→Embeds rows (p ∷ group) (sym (in_order-no_fit p group row rows no_fit) ∙ h))
  ]

  Embeds→in_order :
      (rows : List Text) (group : List P) → Embeds fits group rows → in_order fits rows group ≡ true
  unfolding in_order
  Embeds→in_order rows [] e = refl
  Embeds→in_order [] (p ∷ group) e = elim e [ ]
  Embeds→in_order (row ∷ rows) (p ∷ group) e = elim (Bool-cases (fits p row)) [
    | inl fit ↦
        in_order-fit p group row rows fit
        ∙ Embeds→in_order rows group (Embeds-below p group row rows e)
    | inr no_fit ↦
        in_order-no_fit p group row rows no_fit
        ∙ Embeds→in_order rows (p ∷ group) (Embeds-skipped p group row rows no_fit e)
  ]

-- Both loops of the code together are one search.
two_loops :
    (m : Matching) (rows : List Text) (p : LinePattern) (group : List LinePattern)
    → ordered_line_pattern_found m rows (p ∷ group) ≡ in_order (fits_row m) rows (p ∷ group)
unfolding ordered_line_pattern_found in_order
two_loops m rows p group = ground arith

-- A group of line patterns is found on the screen exactly when it has a pattern and all its patterns
-- are matched in their order by trimmed rows, each below the one before, with any rows between them:
-- taking the first row that fits never misses the group.
pub ordered_line_pattern_found_iff :
    (m : Matching) (rows : List Text) (group : List LinePattern)
    → (ordered_line_pattern_found m rows group ≡ true)
      ↔ ((1 ≤ length group) × Embeds (fits_row m) group rows)
unfolding ordered_line_pattern_found
ordered_line_pattern_found_iff m rows [] = (λ h. cc, λ h. absurd (omega (arith, h.0)))
ordered_line_pattern_found_iff m rows (p ∷ group) = (
  λ h. (
    omega arith,
    in_order→Embeds (fits_row m) rows (p ∷ group) (sym (two_loops m rows p group) ∙ h),
  ),
  λ h. two_loops m rows p group ∙ Embeds→in_order (fits_row m) rows (p ∷ group) h.1,
)
