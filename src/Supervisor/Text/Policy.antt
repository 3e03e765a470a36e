-- ===== src/Supervisor/Text/Policy.antt =====
-- internal/supervisor/textpolicy/textpolicy.go: which forbidden operations a text speaks of. A text
-- that is read from outside is a list of bytes.
pub mod Categories
pub mod Forbidden
use codex_runner.Prelude.{
  ℕ, zero, suc, Bool, true, false, not, ◌&&◌, ◌||◌, List, [], ◌∷◌, ◌++◌, Option, none, some, Text,
  length, ltb, ◌==◌, if◌then◌else◌,
}
use codex_runner.Supervisor.Terminal.Utf8.{Decoded, incomplete, invalid, rune, decode}
use codex_runner.Supervisor.Text.Vocabulary.{
  Category, force_push, pull_request, deploy, deletion, production, billing, git_history, migration,
  privilege, VocabularyEntry, vocabulary,
}
use codex_runner.Supervisor.Text.Width.{display_width}
use codex_runner.Supervisor.Text.Words.{Unicode, normalize_text, fields, open_fields, matches}

abbrev pub category_rank : Category → ℕ
category_rank force_push = 0
category_rank pull_request = 1
category_rank deploy = 2
category_rank deletion = 3
category_rank production = 4
category_rank billing = 5
category_rank git_history = 6
category_rank migration = 7
category_rank privilege = 8

-- A rune of the text that is more than blank.
unfoldable pub meaningful : Unicode → Text → Bool
meaningful unicode [] = false
meaningful unicode (r ∷ s) =
    not (unicode.is_control r) && not (unicode.is_format r) && not (unicode.is_space r)
    || meaningful unicode s

-- The runes of a string, with `none` for a byte that begins none.
abbrev first_rune : ℕ → Decoded → Option ℕ × ℕ
first_rune b incomplete = (none, 0)
first_rune b invalid = (none, 0)
first_rune b (rune ch k) = (some ch, k)

unfoldable pub decode_runes : ℕ → List ℕ → List (Option ℕ)
unfolding decode
decode_runes skip [] = []
decode_runes (suc skip) (b ∷ bs) = decode_runes skip bs
decode_runes zero (b ∷ bs) =
    let first = if ltb b 0x80 then (some b, 0) else first_rune b (decode b bs) in
    first.0 ∷ decode_runes first.1 bs

abbrev pub onto_valid : Option ℕ → Option Text → Option Text
onto_valid none rest = none
onto_valid (some r) none = none
onto_valid (some r) (some s) = some (r ∷ s)

-- The runes of a string for which `utf8.ValidString` holds.
unfoldable pub valid_runes : List (Option ℕ) → Option Text
valid_runes [] = some []
valid_runes (r ∷ rs) = onto_valid r (valid_runes rs)

-- `strings.ContainsRune` and `strings.ContainsFunc`
unfoldable pub contains_rune : (ℕ → Bool) → Text → Bool
contains_rune p [] = false
contains_rune p (r ∷ s) = p r || contains_rune p s

abbrev pub category_eq : Category → Category → Bool
category_eq c d = category_rank c == category_rank d

unfoldable pub is_seen : Category → List Category → Bool
is_seen c [] = false
is_seen c (d ∷ cs) = category_eq c d || is_seen c cs

unfoldable pub add_category : Bool → Category → List Category → List Category
unfolding is_seen
add_category found c seen = if found && not (is_seen c seen) then seen ++ c ∷ [] else seen

-- The loop over the vocabulary with the categories that are seen so far, in the order of the slice.
unfoldable pub add_matching : Unicode → Text → List VocabularyEntry → List Category → List Category
unfolding matches normalize_text add_category
add_matching unicode s [] seen = seen
add_matching unicode s (e ∷ entries) seen =
    add_matching unicode s entries
      (add_category (matches unicode.is_space s (normalize_text unicode e.word)) e.category seen)

pub record Classification : Type 0 where
  pub categories : List Category
  pub undetermined : Bool

abbrev pub unknown : Classification
unknown = record { categories = []; undetermined = true }

unfoldable pub classify_runes : Unicode → Text → Classification
unfolding normalize_text meaningful add_matching
classify_runes unicode s =
    if not (meaningful unicode (normalize_text unicode s)) then unknown else record {
      categories = add_matching unicode (normalize_text unicode s) vocabulary [];
      undetermined = false;
    }

abbrev pub classify_valid : Unicode → Option Text → Classification
classify_valid unicode none = unknown
classify_valid unicode (some s) =
    if contains_rune (λ r. r == 0xfffd) s then unknown else classify_runes unicode s

unfoldable pub classify : Unicode → List ℕ → Classification
unfolding decode_runes valid_runes contains_rune classify_runes
classify unicode bytes = classify_valid unicode (valid_runes (decode_runes 0 bytes))

abbrev pub is_none_of : List Category → Bool
is_none_of [] = true
is_none_of (c ∷ cs) = false

unfoldable pub is_forbidden : Unicode → List ℕ → Bool
unfolding classify
is_forbidden unicode bytes =
    (classify unicode bytes).undetermined || not (is_none_of (classify unicode bytes).categories)

abbrev pub is_command : Text → Bool
is_command [] = false
is_command (r ∷ s) = r == b'!' || r == b'/' || r == b'#'

-- What is not one line of plain text, or too long
abbrev pub is_unfit : Unicode → ℕ → ℕ → Text → Bool
is_unfit unicode max_runes max_width s =
    length s == 0
    || (ltb max_runes (length s)
        || (ltb max_width (display_width unicode.is_mark s)
            || contains_rune
                (λ r. unicode.is_control r || unicode.is_format r || r == 0x2028 || r == 0x2029) s))

abbrev pub is_fit : Unicode → ℕ → ℕ → Option Text → Bool
is_fit unicode max_runes max_width none = false
is_fit unicode max_runes max_width (some s) =
    not (is_unfit unicode max_runes max_width s) && not (is_command s)

unfoldable pub validate_parallel_instruction : Unicode → List ℕ → ℕ → ℕ → Bool
unfolding decode_runes valid_runes contains_rune display_width is_forbidden
validate_parallel_instruction unicode value max_runes max_width =
    is_fit unicode max_runes max_width (valid_runes (decode_runes 0 value))
    && not (is_forbidden unicode value)

-- `strings.Join` with a blank
unfoldable pub join_fields : List Text → Text
join_fields [] = []
join_fields (f ∷ []) = f
join_fields (f ∷ (g ∷ fs)) = f ++ b' ' ∷ join_fields (g ∷ fs)

unfoldable pub normalize_recommendation_for_hash : Unicode → Text → Text
unfolding normalize_text open_fields join_fields
normalize_recommendation_for_hash unicode s =
    join_fields (fields unicode.is_space (normalize_text unicode s))
