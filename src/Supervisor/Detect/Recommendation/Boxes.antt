-- ===== src/Supervisor/Detect/Recommendation/Boxes.antt =====
-- The input box is looked for twice, with a loop that goes down and one that goes up.
use codex_runner.Prelude.{
  ℕ, ◌+◌, ◌-◌, ◌≡◌, refl, sym, ap, subst, ◌∙◌, Bool, false, ◌&&◌, List, [], ◌∷◌, Option, none, some,
  Text, text_eq, length, ◌==◌, arith,
}
use mathlib.Core.Path.{fun_ext}
use codex_runner.Supervisor.Detect.Patterns.{
  DetectorPatternSet, trim, trim_left, trim_right, before_blanks, heavy_angle, nbsp, box_line,
}
use codex_runner.Supervisor.Detect.Input.{
  row_at, all_runes, contains_rune, all_border, is_input_at, last_input_row,
}
use codex_runner.Supervisor.Detect.Input.Search.{
  Finds, Finds-eq, no_input_pattern, last_input_row-Finds,
}
use codex_runner.Supervisor.Detect.Recommendation.{is_border_row, is_box_at, input_box}
use codex_runner.Supervisor.Detect.Recommendation.Response.{input_box-Finds}

before_blanks-empty :
    (p : ℕ → Bool) (r : ℕ) (s : Text) → text_eq (before_blanks p r s) [] ≡ (p r && text_eq s [])
unfolding text_eq
before_blanks-empty p r [] = ground arith
before_blanks-empty p r (x ∷ s) = ground arith

trim_right-all_runes : (p : ℕ → Bool) (s : Text) → text_eq (trim_right p s) [] ≡ all_runes p s
unfolding trim_right all_runes text_eq
trim_right-all_runes p [] = refl
trim_right-all_runes p (r ∷ s) =
    before_blanks-empty p r (trim_right p s) ∙ ap (λ b. p r && b) (trim_right-all_runes p s)

all_runes-trim_left : (p : ℕ → Bool) (s : Text) → all_runes p (trim_left p s) ≡ all_runes p s
unfolding trim_left all_runes
all_runes-trim_left p [] = refl
all_runes-trim_left p (r ∷ s) = ground (arith, all_runes-trim_left p s)

all_runes-single :
    (b : ℕ) (row : Text) → all_runes (contains_rune (b ∷ [])) row ≡ all_runes (λ r. r == b) row
unfolding all_runes contains_rune
all_runes-single b [] = refl
all_runes-single b (r ∷ row) = ground (arith, all_runes-single b row)

border_rows : (row : Text) → is_border_row row ≡ all_border row (box_line ∷ [])
unfolding is_border_row all_border trim
border_rows row = ground (
  arith,
  trim_right-all_runes (λ r. r == box_line) (trim_left (λ r. r == box_line) row),
  all_runes-trim_left (λ r. r == box_line) row,
  all_runes-single box_line row,
)

Finds-same :
    (test : ℕ → Bool) (low high : ℕ) (a b : Option ℕ)
    → Finds test low high a
    → Finds test low high b
    → a ≡ b
Finds-same test low high none none f g = refl
Finds-same test low high none (some j) f g = Finds-eq test low high j none f g
Finds-same test low high (some i) b f g = sym (Finds-eq test low high i b g f)

module _ (p : DetectorPatternSet) (rows : List Text) where
  same_test :
      p.prompt ≡ heavy_angle ∷ nbsp ∷ []
      → p.idle_top ≡ box_line ∷ []
      → p.idle_bottom ≡ box_line ∷ []
      → is_input_at p rows ≡ is_box_at rows
  unfolding is_input_at is_box_at
  same_test prompt top bottom = fun_ext λ i.
      rw (prompt, top, bottom, border_rows (row_at rows (i - 1)), border_rows (row_at rows (i + 1)))
        refl

  -- With the prompt and the borders that the observed screens have, the input box above which a
  -- response is looked for is the row that the detector takes for the input.
  pub input_box-last_input_row :
      p.prompt ≡ heavy_angle ∷ nbsp ∷ []
      → p.idle_top ≡ box_line ∷ []
      → p.idle_bottom ≡ box_line ∷ []
      → input_box rows ≡ last_input_row p rows
  unfolding text_eq
  input_box-last_input_row prompt top bottom =
      let full : no_input_pattern p ≡ false = rw (prompt, top, bottom) refl in
      Finds-same (is_box_at rows) 1 (length rows - 1) (input_box rows) (last_input_row p rows)
        (input_box-Finds rows)
        (subst (λ t. Finds t 1 (length rows - 1) (last_input_row p rows))
          (same_test prompt top bottom) (last_input_row-Finds p rows full))
