-- ===== src/Prelude/Dict.antt =====
-- A Go map with text keys as an association list with one entry for each key.
use mathlib.Core.Path.{◌≡◌, refl}
use mathlib.Core.Bool.{Bool, true}
use mathlib.Core.Option.{Option, none, some}
use mathlib.Core.List.{List, [], ◌∷◌}
use native.Mathlib.Omega.{arith}
use Prim.Native.Nat.{ℕ, suc, ◌+◌, ◌≤◌}
use codex_runner.Prelude.Tests.{if◌then◌else◌, is_some}
use codex_runner.Prelude.Lists.{length}
use mathlib.Core.Logic.{◌≢◌}
use codex_runner.Prelude.Bytes.{Text, text_eq, text_eq_iff, text_eq_refl}

abbrev pub Dict {ℓ} : Type ℓ → Type ℓ
Dict V = List (Text × V)

module _ {ℓ} {V : Type ℓ} where
  unfoldable pub get : Text → Dict V → Option V
  get k [] = none
  get k ((j, v) ∷ d) = if text_eq j k then some v else get k d

  -- Replaces the entry of the key, or adds one.
  unfoldable pub put : Text → V → Dict V → Dict V
  put k v [] = (k, v) ∷ []
  put k v ((j, w) ∷ d) = if text_eq j k then (k, v) ∷ d else (j, w) ∷ put k v d

  unfoldable pub delete : Text → Dict V → Dict V
  delete k [] = []
  delete k ((j, v) ∷ d) = if text_eq j k then d else (j, v) ∷ delete k d

  -- How many entries have a value that passes a test.
  unfoldable pub count : (V → Bool) → Dict V → ℕ
  count p [] = 0
  count p ((j, v) ∷ d) = (if p v then 1 else 0) + count p d

  pub length-put : (k : Text) (v : V) (d : Dict V) → length (put k v d) ≤ suc (length d)
  unfolding put
  length-put k v [] = omega arith
  length-put k v ((j, w) ∷ d) = ground (arith, length-put k v d)

  pub length-delete : (k : Text) (d : Dict V) → length (delete k d) ≤ length d
  unfolding delete
  length-delete k [] = omega arith
  length-delete k ((j, v) ∷ d) = ground (arith, length-delete k d)

  pub count-put :
      (p : V → Bool) (k : Text) (v : V) (d : Dict V)
      → count p (put k v d) ≤ (if p v then 1 else 0) + count p d
  unfolding put count
  count-put p k v [] = omega arith
  count-put p k v ((j, w) ∷ d) = ground (arith, count-put p k v d)

  pub count-delete : (p : V → Bool) (k : Text) (d : Dict V) → count p (delete k d) ≤ count p d
  unfolding delete count
  count-delete p k [] = omega arith
  count-delete p k ((j, v) ∷ d) = ground (arith, count-delete p k d)

module _ {ℓ} {V : Type ℓ} where
  pub length-delete_found :
      (k : Text) (d : Dict V) → is_some (get k d) ≡ true → suc (length (delete k d)) ≡ length d
  unfolding get delete
  length-delete_found k [] h = cc
  length-delete_found k ((j, v) ∷ d) h = ground (arith, length-delete_found k d)

-- Other keys keep their values; and a property of all values.
module _ {ℓ} {V : Type ℓ} where
  pub get-put_other : (k j : Text) (v : V) (d : Dict V) → j ≢ k → get k (put j v d) ≡ get k d
  unfolding get put
  get-put_other k j v [] h = ground (arith, text_eq_iff j k)
  get-put_other k j v ((i, w) ∷ d) h =
      ground (arith, get-put_other k j v d, text_eq_iff i j, text_eq_iff i k, text_eq_iff j k)

  pub get-delete_other : (k j : Text) (d : Dict V) → j ≢ k → get k (delete j d) ≡ get k d
  unfolding get delete
  get-delete_other k j [] h = refl
  get-delete_other k j ((i, w) ∷ d) h =
      ground (arith, get-delete_other k j d, text_eq_iff i j, text_eq_iff i k)

  pub get-put : (k : Text) (v : V) (d : Dict V) → get k (put k v d) ≡ some v
  unfolding get put
  get-put k v [] = ground (arith, text_eq_refl k)
  get-put k v ((j, w) ∷ d) = ground (arith, get-put k v d, text_eq_refl k)

  abbrev pub AllValues : (V → Type 0) → Dict V → Type 0
  AllValues P [] = Unit
  AllValues P ((j, v) ∷ d) = P v × AllValues P d
