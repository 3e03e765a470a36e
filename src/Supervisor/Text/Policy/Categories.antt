-- ===== src/Supervisor/Text/Policy/Categories.antt =====
-- The categories that `Classify` returns are those of the words that it finds.
use codex_runner.Prelude.{
  ◌≡◌, refl, Bool, true, false, not, ◌&&◌, ◌||◌, List, [], ◌∷◌, ◌++◌, Text, arith, Bool-cases,
  branches, inl, inr,
}
use codex_runner.Supervisor.Text.Vocabulary.{Category, VocabularyEntry, vocabulary}
use codex_runner.Supervisor.Text.Words.{Unicode, normalize_text, matches}
use codex_runner.Supervisor.Text.Policy.{
  category_eq, is_seen, add_category, add_matching, meaningful, classify_runes,
}

-- A word of the category stands in the text.
unfoldable pub speaks_of : Unicode → Text → Category → List VocabularyEntry → Bool
unfolding matches normalize_text
speaks_of unicode s c [] = false
speaks_of unicode s c (e ∷ entries) =
    category_eq c e.category && matches unicode.is_space s (normalize_text unicode e.word)
    || speaks_of unicode s c entries

abbrev pub distinct : List Category → Bool
distinct [] = true
distinct (c ∷ cs) = not (is_seen c cs) && distinct cs

is_seen-append :
    (c d : Category) (cs : List Category)
    → is_seen c (cs ++ d ∷ []) ≡ (is_seen c cs || category_eq c d)
unfolding is_seen
is_seen-append c d [] = ground arith
is_seen-append c d (b ∷ cs) = ground (arith, is_seen-append c d cs)

is_seen-same :
    (c d : Category) (cs : List Category) → category_eq c d ≡ true → is_seen c cs ≡ is_seen d cs
unfolding is_seen
is_seen-same c d [] e = refl
is_seen-same c d (b ∷ cs) e = ground (arith, is_seen-same c d cs e)

distinct-append :
    (c : Category) (cs : List Category)
    → distinct cs ≡ true
    → is_seen c cs ≡ false
    → distinct (cs ++ c ∷ []) ≡ true
unfolding is_seen
distinct-append c [] h n = refl
distinct-append c (b ∷ cs) h n = ground (arith, distinct-append c cs, is_seen-append b c cs)

is_seen-add_category :
    (c d : Category) (found : Bool) (seen : List Category)
    → is_seen c (add_category found d seen) ≡ (is_seen c seen || category_eq c d && found)
unfolding add_category
is_seen-add_category c d false seen = ground arith
is_seen-add_category c d true seen = elim (Bool-cases (is_seen d seen)) [
  | inr fresh ↦ rw (fresh, is_seen-append c d seen) ground arith
  | inl seen_it ↦ ground (arith, is_seen-same c d seen)
]

distinct-add_category :
    (d : Category) (found : Bool) (seen : List Category)
    → distinct seen ≡ true
    → distinct (add_category found d seen) ≡ true
unfolding add_category
distinct-add_category d found seen h =
    branches (λ cs. distinct cs ≡ true) (found && not (is_seen d seen)) _ _
      (λ e. distinct-append d seen h (ground arith)) (λ e. h)

is_seen-add_matching :
    (unicode : Unicode) (s : Text) (c : Category) (entries : List VocabularyEntry)
    (seen : List Category)
    → is_seen c (add_matching unicode s entries seen)
      ≡ (is_seen c seen || speaks_of unicode s c entries)
unfolding add_matching speaks_of
is_seen-add_matching unicode s c [] seen = ground arith
is_seen-add_matching unicode s c (e ∷ entries) seen = ground (
  arith,
  is_seen-add_matching unicode s c entries
      (add_category (matches unicode.is_space s (normalize_text unicode e.word)) e.category seen),
  is_seen-add_category c e.category (matches unicode.is_space s (normalize_text unicode e.word))
      seen,
)

distinct-add_matching :
    (unicode : Unicode) (s : Text) (entries : List VocabularyEntry) (seen : List Category)
    → distinct seen ≡ true
    → distinct (add_matching unicode s entries seen) ≡ true
unfolding add_matching
distinct-add_matching unicode s [] seen h = h
distinct-add_matching unicode s (e ∷ entries) seen h =
    distinct-add_matching unicode s entries
      (add_category (matches unicode.is_space s (normalize_text unicode e.word)) e.category seen)
      (distinct-add_category e.category (matches unicode.is_space s (normalize_text unicode e.word))
        seen h)

-- For a text that is not blank once it is normalized, a category is among those that `Classify`
-- returns exactly when a word of the vocabulary for it stands in the normalized text, and no
-- category is returned twice.
pub classify_runes-categories :
    (unicode : Unicode) (s : Text) (c : Category)
    → meaningful unicode (normalize_text unicode s) ≡ true
    → (is_seen c (classify_runes unicode s).categories
        ≡ speaks_of unicode (normalize_text unicode s) c vocabulary)
      × (distinct (classify_runes unicode s).categories ≡ true)
unfolding classify_runes
classify_runes-categories unicode s c h = rw h (
  is_seen-add_matching unicode (normalize_text unicode s) c vocabulary [],
  distinct-add_matching unicode (normalize_text unicode s) vocabulary [] refl,
)
