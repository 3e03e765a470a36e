-- ===== src/Supervisor/Text/Words.antt =====
-- internal/supervisor/textpolicy/textpolicy.go: how a word is looked for. A text is the list of its
-- runes. What the Go library and golang.org/x/text know of Unicode is an argument.
pub mod Occurrence
use codex_runner.Prelude.{
  ℕ, zero, suc, ◌+◌, ◌-◌, Bool, true, false, not, ◌&&◌, ◌||◌, List, [], ◌∷◌, ◌++◌, Option, none,
  some, Text, text, text_eq, length, get_elem?, take, drop, ltb, leb, ◌==◌, if◌then◌else◌,
}

-- `nfkc` is `norm.NFKC.String`, and `to_lower` `strings.ToLower`.
pub record Unicode : Type 0 where
  pub is_mark : ℕ → Bool
  pub is_format : ℕ → Bool
  pub is_control : ℕ → Bool
  pub is_space : ℕ → Bool
  pub nfkc : Text → Text
  pub to_lower : Text → Text

abbrev pub is_between : ℕ → ℕ → ℕ → Bool
is_between low high r = leb low r && leb r high

abbrev pub is_alpha_numeric : ℕ → Bool
is_alpha_numeric r = is_between b'a' b'z' r || is_between b'0' b'9' r

abbrev pub is_word_rune : ℕ → Bool
is_word_rune r = is_between b'a' b'z' r || is_between b'0' b'9' r || r == b'_'

abbrev pub is_symbol_body_rune : ℕ → Bool
is_symbol_body_rune r = is_word_rune r || r == b'-'

unfoldable pub has_japanese : Text → Bool
has_japanese [] = false
has_japanese (r ∷ s) = ltb 127 r || has_japanese s

unfoldable pub without_format : (ℕ → Bool) → Text → Text
without_format is_format [] = []
without_format is_format (r ∷ s) =
    let rest = without_format is_format s in if is_format r then rest else r ∷ rest

unfoldable pub normalize_text : Unicode → Text → Text
unfolding without_format
normalize_text unicode s = unicode.to_lower (unicode.nfkc (without_format unicode.is_format s))

-- How many runes at the front pass the test.
unfoldable pub span : (ℕ → Bool) → Text → ℕ
span p [] = 0
span p (r ∷ s) = let rest = span p s in if p r then suc rest else 0

abbrev pub holds_at : (ℕ → Bool) → Option ℕ → Bool
holds_at p none = false
holds_at p (some r) = p r

-- `text[i-1]` and `text[i]`, where they are in range
abbrev pub rune_before : Text → ℕ → Option ℕ
rune_before s zero = none
rune_before s (suc i) = get_elem? s i

abbrev pub is_symbol : Text → Bool
is_symbol [] = false
is_symbol (r ∷ word) = r == b'-' || r == b'+'

-- The end of the word itself, before the test of its surroundings.
unfoldable pub word_end : Text → ℕ → Text → Option ℕ
unfolding span text_eq
word_end s at word =
    if leb (length s) at
    then none
    else if text_eq word (text "+refspec")
    then (if not (holds_at (λ r. r == b'+') (get_elem? s at))
          || not (holds_at is_alpha_numeric (get_elem? s (at + 1)))
        then none
        else some (at + 2 + span is_symbol_body_rune (drop (at + 2) s)))
    else if ltb (length s - at) (length word) || not (text_eq (take (length word) (drop at s)) word)
    then none
    else some (at + length word)

abbrev pub bounded : Text → ℕ → Text → Option ℕ → Option ℕ
bounded s start word none = none
bounded s start word (some at) =
    let boundary = if is_symbol word then is_symbol_body_rune else is_word_rune in
    if has_japanese word
    then some at
    else if holds_at boundary (rune_before s start) || holds_at boundary (get_elem? s at)
    then none
    else some at

-- The end of the word when it stands at `at`.
unfoldable pub phrase_token_matches : Text → ℕ → Text → Option ℕ
unfolding word_end has_japanese
phrase_token_matches s at word = bounded s at word (word_end s at word)

-- The parts of a phrase one after another, with blanks between them.
unfoldable pub parts_match : (ℕ → Bool) → Text → Bool → ℕ → List Text → Bool
unfolding phrase_token_matches span has_japanese
parts_match is_space s first at [] = true
parts_match is_space s first at (part ∷ parts) =
    let from = if first then at else at + span is_space (drop at s) in
    if not first && from == at && not (has_japanese part)
    then false
    else elim (phrase_token_matches s from part) [
      | none ↦ false
      | some end ↦ parts_match is_space s false end parts
    ]

-- The loop over the starts, by how many are left.
unfoldable pub any_start : (ℕ → Bool) → Text → List Text → ℕ → ℕ → Bool
unfolding parts_match
any_start is_space s parts start zero = false
any_start is_space s parts start (suc n) =
    parts_match is_space s true start parts || any_start is_space s parts (start + 1) n

-- `strings.HasPrefix` and `strings.Contains`
unfoldable pub has_prefix : Text → Text → Bool
has_prefix s [] = true
has_prefix [] (w ∷ word) = false
has_prefix (r ∷ s) (w ∷ word) = r == w && has_prefix s word

unfoldable pub contains_text : Text → Text → Bool
unfolding has_prefix
contains_text [] word = has_prefix [] word
contains_text (r ∷ s) word = has_prefix (r ∷ s) word || contains_text s word

-- A field in front of those after it, unless it is empty.
abbrev pub closed : Text × List Text → List Text
closed ([], fs) = fs
closed (r ∷ field, fs) = (r ∷ field) ∷ fs

-- The field that the text begins with, which may be empty, and those after it.
unfoldable pub open_fields : (ℕ → Bool) → Text → Text × List Text
open_fields is_space [] = ([], [])
open_fields is_space (r ∷ s) =
    let rest = open_fields is_space s in
    if is_space r then ([], closed rest) else (r ∷ rest.0, rest.1)

-- `strings.Fields`
abbrev pub fields : (ℕ → Bool) → Text → List Text
fields is_space s = closed (open_fields is_space s)

unfoldable pub matches : (ℕ → Bool) → Text → Text → Bool
unfolding has_japanese contains_text open_fields any_start
matches is_space s word =
    if has_japanese word && not (contains_text word (b' ' ∷ []))
    then contains_text s word
    else any_start is_space s (fields is_space word) 0 (length s)
