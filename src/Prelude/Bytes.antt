-- ===== src/Prelude/Bytes.antt =====
-- A Go string as the list of its bytes. Literals of the source are ASCII.
use Prim.Native.Char.{code}
use Prim.Native.String.{String}
use Prim.Native.Nat.{ℕ}
use mathlib.Core.Path.{◌≡◌, refl}
use mathlib.Core.Logic.{◌↔◌, ◌≢◌}
use mathlib.Core.Bool.{Bool, true, false, ◌&&◌, ◌||◌}
use mathlib.Core.List.{List, [], ◌∷◌, ◌++◌}
use native.Mathlib.Omega.{arith}
use codex_runner.Prelude.Tests.{◌==◌}

abbrev pub Text : Type 0
Text = List ℕ

abbrev pub text : String → Text
text String.[] = []
text (String.◌∷◌ c s) = code c ∷ text s

unfoldable pub text_eq : Text → Text → Bool
text_eq [] [] = true
text_eq [] (b ∷ bs) = false
text_eq (a ∷ as') [] = false
text_eq (a ∷ as') (b ∷ bs) = (a == b) && text_eq as' bs

text_eq→eq : (s t : Text) → text_eq s t ≡ true → s ≡ t
unfolding text_eq
text_eq→eq [] [] h = refl
text_eq→eq [] (b ∷ bs) h = cc
text_eq→eq (a ∷ as') [] h = cc
text_eq→eq (a ∷ as') (b ∷ bs) h = ground (arith, text_eq→eq as' bs)

pub text_eq_refl : (s : Text) → text_eq s s ≡ true
unfolding text_eq
text_eq_refl [] = refl
text_eq_refl (a ∷ as') = ground (arith, text_eq_refl as')

pub text_eq_iff : (s t : Text) → (text_eq s t ≡ true) ↔ (s ≡ t)
text_eq_iff s t = (text_eq→eq s t, λ e. ground (arith, text_eq_refl s))

pub text_eq-false : (s t : Text) → s ≢ t → text_eq s t ≡ false
text_eq-false s t h = ground (arith, text_eq_iff s t)

unfoldable pub contains_byte : ℕ → Text → Bool
contains_byte x [] = false
contains_byte x (c ∷ cs) = c == x || contains_byte x cs

abbrev push_byte : Bool → ℕ → List Text → List Text
push_byte true c fs = [] ∷ fs
push_byte false c [] = (c ∷ []) ∷ []
push_byte false c (f ∷ fs) = (c ∷ f) ∷ fs

-- `strings.Split` at one byte
unfoldable pub split : ℕ → Text → List Text
split sep [] = [] ∷ []
split sep (c ∷ cs) = push_byte (c == sep) c (split sep cs)

-- A field without the byte, in front of the byte, is the first one.
pub split-front :
    (sep : ℕ) (field rest : Text)
    → contains_byte sep field ≡ false
    → split sep (field ++ sep ∷ rest) ≡ field ∷ split sep rest
unfolding split contains_byte
split-front sep [] rest h = let same : (sep == sep) ≡ true = ground arith in rw same refl
split-front sep (c ∷ field) rest h =
    let other : (c == sep) ≡ false = ground arith in
    let later : contains_byte sep field ≡ false = ground arith in
    rw (other, split-front sep field rest later) refl
