-- ===== src/Supervisor/Text/Policy/Forbidden.antt =====
-- A text in which a word of the vocabulary stands alone does not pass.
use codex_runner.Prelude.{
  ℕ, zero, suc, ◌≡◌, refl, sym, ap, subst, ◌∙◌, Bool, true, false, not, ◌||◌, List, [], ◌∷◌, ◌++◌,
  some, Text, text, text_eq, get_elem?, ◌==◌, arith, Bool-cases, branches, inl, inr,
}
use codex_runner.Supervisor.Text.Vocabulary.{Category, VocabularyEntry, vocabulary}
use codex_runner.Supervisor.Text.Words.{
  Unicode, normalize_text, matches, fields, has_japanese, holds_at,
}
use codex_runner.Supervisor.Text.Words.Occurrence.{boundary, last_rune, matches-occurrence}
use codex_runner.Supervisor.Text.Policy.{
  category_eq, is_seen, is_none_of, contains_rune, meaningful, Classification, unknown,
  classify_runes, classify_valid, decode_runes, valid_runes, classify, is_forbidden,
}
use codex_runner.Supervisor.Text.Policy.Categories.{speaks_of, classify_runes-categories}

speaks_of-entry :
    (unicode : Unicode) (s : Text) (entries : List VocabularyEntry) (i : ℕ) (e : VocabularyEntry)
    → get_elem? entries i ≡ some e
    → matches unicode.is_space s (normalize_text unicode e.word) ≡ true
    → speaks_of unicode s e.category entries ≡ true
unfolding speaks_of
speaks_of-entry unicode s [] i e at found = cc
speaks_of-entry unicode s (d ∷ entries) zero e at found =
    let same : e ≡ d = cc in
    let here : matches unicode.is_space s (normalize_text unicode d.word) ≡ true =
      subst (λ x. matches unicode.is_space s (normalize_text unicode x.word) ≡ true) same found in
    let own : category_eq e.category d.category ≡ true =
      subst (λ x. category_eq e.category x.category ≡ true) same (ground arith) in
    rw (own, here) refl
speaks_of-entry unicode s (d ∷ entries) (suc i) e at found =
    ground (arith, speaks_of-entry unicode s entries i e at found)

seen-some : (c : Category) (cs : List Category) → is_seen c cs ≡ true → is_none_of cs ≡ false
unfolding is_seen
seen-some c [] h = cc
seen-some c (d ∷ cs) h = refl

or_true : (b : Bool) → (b || true) ≡ true
or_true true = refl
or_true false = refl

abbrev Flagged : Classification → Type 0
Flagged k = (k.undetermined || not (is_none_of k.categories)) ≡ true

seen-Flagged : (k : Classification) (c : Category) → is_seen c k.categories ≡ true → Flagged k
seen-Flagged k c h = rw (seen-some c k.categories h) (or_true k.undetermined)

blank-Flagged :
    (unicode : Unicode) (s : Text)
    → meaningful unicode (normalize_text unicode s) ≡ false
    → Flagged (classify_runes unicode s)
unfolding classify_runes
blank-Flagged unicode s blank = rw blank refl

classify_runes-Flagged :
    (unicode : Unicode) (s : Text) (c : Category)
    → speaks_of unicode (normalize_text unicode s) c vocabulary ≡ true
    → Flagged (classify_runes unicode s)
classify_runes-Flagged unicode s c h =
    elim (Bool-cases (meaningful unicode (normalize_text unicode s))) [
      | inl some_runes ↦
          seen-Flagged (classify_runes unicode s) c
            ((classify_runes-categories unicode s c some_runes).0 ∙ h)
      | inr blank ↦ blank-Flagged unicode s blank
    ]

classify_valid-Flagged :
    (unicode : Unicode) (s : Text) (c : Category)
    → speaks_of unicode (normalize_text unicode s) c vocabulary ≡ true
    → Flagged (classify_valid unicode (some s))
classify_valid-Flagged unicode s c h =
    branches Flagged (contains_rune (λ r. r == 0xfffd) s) unknown (classify_runes unicode s)
      (λ e. refl) (λ e. classify_runes-Flagged unicode s c h)

is_forbidden-Flagged :
    (unicode : Unicode) (bytes : List ℕ)
    → Flagged (classify unicode bytes)
    → is_forbidden unicode bytes ≡ true
unfolding is_forbidden
is_forbidden-Flagged unicode bytes h = h

classify-runes :
    (unicode : Unicode) (bytes : List ℕ) (s : Text)
    → valid_runes (decode_runes 0 bytes) ≡ some s
    → classify unicode bytes ≡ classify_valid unicode (some s)
unfolding classify
classify-runes unicode bytes s e = ap (classify_valid unicode) e

-- A text is forbidden whenever a word of the vocabulary stands alone in it: if the normalized text
-- is the normalized word with something before and after it, no word rune next to it (and no dash
-- either, for a word that begins with a dash or a plus sign), and the word is a single field of
-- ASCII runes other than `+refspec`, then `IsForbidden` holds. The entry of the vocabulary, the
-- surroundings and the Unicode tables are arbitrary.
pub is_forbidden-occurrence :
    (unicode : Unicode) (bytes : List ℕ) (s : Text) (i : ℕ) (e : VocabularyEntry)
    (word before after : Text)
    → valid_runes (decode_runes 0 bytes) ≡ some s
    → normalize_text unicode s ≡ before ++ (word ++ after)
    → get_elem? vocabulary i ≡ some e
    → normalize_text unicode e.word ≡ word
    → fields unicode.is_space word ≡ word ∷ []
    → text_eq word (text "+refspec") ≡ false
    → has_japanese word ≡ false
    → holds_at (boundary word) (last_rune before) ≡ false
    → holds_at (boundary word) (get_elem? after 0) ≡ false
    → is_forbidden unicode bytes ≡ true
is_forbidden-occurrence unicode bytes s i e word before after valid whole at same single plain ascii
      left right =
    let found : matches unicode.is_space (normalize_text unicode s) (normalize_text unicode e.word)
        ≡ true =
      rw (whole, same)
        (matches-occurrence unicode.is_space before word after single plain ascii left right) in
    let flagged =
      classify_valid-Flagged unicode s e.category
        (speaks_of-entry unicode (normalize_text unicode s) vocabulary i e at found) in
    is_forbidden-Flagged unicode bytes
      (subst Flagged (sym (classify-runes unicode bytes s valid)) flagged)
