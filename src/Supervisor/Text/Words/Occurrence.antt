-- ===== src/Supervisor/Text/Words/Occurrence.antt =====
-- A word that stands alone in a text is found.
use codex_runner.Prelude.{
  ℕ, zero, suc, ◌+◌, ◌-◌, ◌≤◌, ◌<◌, ◌≡◌, refl, ap, subst, ◌∙◌, Bool, true, false, List, [], ◌∷◌,
  ◌++◌, Option, some, Text, text, text_eq, text_eq_refl, length, length-append, get_elem?, take,
  drop, ltb, leb, if◌then◌else◌, arith, Bool-cases, inl, inr,
}
use codex_runner.Supervisor.Text.Words.{
  is_word_rune, is_symbol_body_rune, is_symbol, has_japanese, holds_at, rune_before, word_end,
  phrase_token_matches, parts_match, any_start, open_fields, fields, matches,
}

drop_front {ℓ} : {A : Type ℓ} (xs ys : List A) → drop (length xs) (xs ++ ys) ≡ ys
drop_front [] ys = refl
drop_front (x ∷ xs) ys = drop_front xs ys

take_front {ℓ} : {A : Type ℓ} (xs ys : List A) → take (length xs) (xs ++ ys) ≡ xs
take_front [] ys = refl
take_front (x ∷ xs) ys = ap (λ l. x ∷ l) (take_front xs ys)

get_front {ℓ} :
    {A : Type ℓ} (xs ys : List A) (i k : ℕ)
    → k ≡ length xs + i
    → get_elem? (xs ++ ys) k ≡ get_elem? ys i
get_front [] ys i k e = let same : k ≡ i = omega arith in ap (get_elem? ys) same
get_front (x ∷ xs) ys i zero e = absurd (omega arith)
get_front (x ∷ xs) ys i (suc k) e = get_front xs ys i k (omega arith)

get_before {ℓ} :
    {A : Type ℓ} (xs ys : List A) (i : ℕ) → i < length xs → get_elem? (xs ++ ys) i ≡ get_elem? xs i
get_before [] ys i l = absurd (omega arith)
get_before (x ∷ xs) ys zero l = refl
get_before (x ∷ xs) ys (suc i) l = get_before xs ys i (omega arith)

rune_before-front :
    (xs ys : Text) (i : ℕ) → i ≤ length xs → rune_before (xs ++ ys) i ≡ rune_before xs i
rune_before-front xs ys zero l = refl
rune_before-front xs ys (suc i) l = get_before xs ys i (omega arith)

any_start-at :
    (is_space : ℕ → Bool) (s : Text) (parts : List Text) (start n i : ℕ)
    → i < n
    → parts_match is_space s true (start + i) parts ≡ true
    → any_start is_space s parts start n ≡ true
unfolding any_start
any_start-at is_space s parts start zero i l h = absurd (omega arith)
any_start-at is_space s parts start (suc n) zero l h =
    let here : parts_match is_space s true start parts ≡ true =
      subst (λ at. parts_match is_space s true at parts ≡ true) (omega arith) h in
    rw here refl
any_start-at is_space s parts start (suc n) (suc i) l h =
    let later =
      any_start-at is_space s parts (start + 1) n i (omega arith)
        (subst (λ at. parts_match is_space s true at parts ≡ true) (omega arith) h) in
    elim (Bool-cases (parts_match is_space s true start parts)) [
      | inl here ↦ rw here refl
      | inr not_here ↦ rw not_here later
    ]

abbrev pub boundary : Text → ℕ → Bool
boundary word = if is_symbol word then is_symbol_body_rune else is_word_rune

abbrev pub last_rune : Text → Option ℕ
last_rune s = rune_before s (length s)

length-occurrence :
    (before word after : Text)
    → length (before ++ (word ++ after)) ≡ length before + (length word + length after)
length-occurrence before word after =
    omega (arith, length-append before (word ++ after), length-append word after)

module _ (before word after : Text) where
  word_end-occurrence :
      0 < length word
      → text_eq word (text "+refspec") ≡ false
      → word_end (before ++ (word ++ after)) (length before) word
        ≡ some (length before + length word)
  unfolding word_end
  word_end-occurrence some_word plain =
      let size = length-occurrence before word after in
      let inside : leb (length (before ++ (word ++ after))) (length before) ≡ false =
        ground (arith, size) in
      let fits : ltb (length (before ++ (word ++ after)) - length before) (length word) ≡ false =
        ground (arith, size) in
      rw
        (
          inside,
          plain,
          fits,
          drop_front before (word ++ after),
          take_front word after,
          text_eq_refl word,
        )
        refl

  rune_before-occurrence :
      rune_before (before ++ (word ++ after)) (length before) ≡ last_rune before
  rune_before-occurrence = rune_before-front before (word ++ after) (length before) (omega arith)

  get_after :
      get_elem? (before ++ (word ++ after)) (length before + length word) ≡ get_elem? after 0
  get_after =
      get_front before (word ++ after) (length word) (length before + length word) refl
      ∙ get_front word after 0 (length word) (omega arith)

  phrase_token_matches-occurrence :
      0 < length word
      → text_eq word (text "+refspec") ≡ false
      → has_japanese word ≡ false
      → holds_at (boundary word) (last_rune before) ≡ false
      → holds_at (boundary word) (get_elem? after 0) ≡ false
      → phrase_token_matches (before ++ (word ++ after)) (length before) word
        ≡ some (length before + length word)
  unfolding phrase_token_matches
  phrase_token_matches-occurrence some_word plain ascii clear_before clear_after =
      rw
        (
          word_end-occurrence some_word plain,
          ascii,
          rune_before-occurrence,
          clear_before,
          get_after,
          clear_after,
        )
        refl

field-some :
    (is_space : ℕ → Bool) (word : Text) → fields is_space word ≡ word ∷ [] → 0 < length word
unfolding open_fields
field-some is_space [] single = cc
field-some is_space (r ∷ word) single = omega arith

parts_match-single :
    (is_space : ℕ → Bool) (s : Text) (at end : ℕ) (word : Text)
    → phrase_token_matches s at word ≡ some end
    → parts_match is_space s true at (word ∷ []) ≡ true
unfolding parts_match
parts_match-single is_space s at end word e = ap (holds_at (λ end. true)) e

-- A word that is a single field of ASCII runes, other than `+refspec`, is found in a text wherever it
-- stands with no word rune before it and none after it (for a word that begins with a dash or a plus
-- sign, a dash is one of the runes that must not stand there either).
pub matches-occurrence :
    (is_space : ℕ → Bool) (before word after : Text)
    → fields is_space word ≡ word ∷ []
    → text_eq word (text "+refspec") ≡ false
    → has_japanese word ≡ false
    → holds_at (boundary word) (last_rune before) ≡ false
    → holds_at (boundary word) (get_elem? after 0) ≡ false
    → matches is_space (before ++ (word ++ after)) word ≡ true
unfolding matches
matches-occurrence is_space before word after single plain ascii clear_before clear_after =
    let some_word : 0 < length word = field-some is_space word single in
    let found =
      phrase_token_matches-occurrence before word after some_word plain ascii clear_before
        clear_after in
    rw (ascii, single)
      (any_start-at is_space (before ++ (word ++ after)) (word ∷ []) 0
        (length (before ++ (word ++ after))) (length before)
        (omega (arith, some_word, length-occurrence before word after))
        (subst (λ at. parts_match is_space (before ++ (word ++ after)) true at (word ∷ []) ≡ true)
          (omega arith)
          (parts_match-single is_space (before ++ (word ++ after)) (length before)
            (length before + length word) word found)))
