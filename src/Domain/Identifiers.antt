-- ===== src/Domain/Identifiers.antt =====
-- internal/domain/slug.go, id.go and normalizedpath.go: the strings that name tasks and paths. The
-- regular expressions are written out as the matchers that they stand for, and `time.Parse`,
-- `filepath.Clean` on an absolute path as what the Go library does (on Unix).
use codex_runner.Prelude.{
  ℕ, zero, suc, ◌+◌, ◌≤◌, ◌≡◌, refl, arith, ◌-◌, ◌*◌, ◌%◌, Bool, true, false, not, ◌&&◌, ◌||◌, List,
  [], ◌∷◌, Option, none, some, Text, text, ltb, leb, ◌==◌, if◌then◌else◌, length, Result, ok, err,
}
use codex_runner.Domain.Values.{Slug, TaskId, Err, invalid_slug, invalid_task_id, no_slug}

abbrev pub slug_max_length : ℕ
slug_max_length = 40

abbrev is_digit : ℕ → Bool
is_digit c = leb b'0' c && leb c b'9'

abbrev is_hex : ℕ → Bool
is_hex c = is_digit c || leb b'a' c && leb c b'f'

abbrev is_lower_or_digit : ℕ → Bool
is_lower_or_digit c = leb b'a' c && leb c b'z' || is_digit c

-- `^[a-z0-9]+(-[a-z0-9]+)*$`; the flag says that a letter or digit must come next.
matches_slug : Bool → Text → Bool
matches_slug wanted [] = not wanted
matches_slug wanted (c ∷ cs) =
    (is_lower_or_digit c || c == b'-' && not wanted) && matches_slug (not (is_lower_or_digit c)) cs

unfoldable pub new_slug : Text → Result Err Slug
unfolding matches_slug
new_slug value =
    if length value == 0 || ltb slug_max_length (length value) || not (matches_slug true value)
    then err invalid_slug
    else ok value

-- What follows a literal prefix.
strip_prefix : Text → Text → Option Text
strip_prefix [] s = some s
strip_prefix (p ∷ ps) [] = none
strip_prefix (p ∷ ps) (c ∷ cs) = if p == c then strip_prefix ps cs else none

-- Exactly n characters of a class, and what follows them.
take_class : (ℕ → Bool) → ℕ → Text → Option (Text × Text)
take_class class zero s = some ([], s)
take_class class (suc n) [] = none
take_class class (suc n) (c ∷ cs) = elim (take_class class n cs) [
  | none ↦ none
  | some (taken, rest) ↦ if class c then some (c ∷ taken, rest) else none
]

infixl 5 ◌>>=◌
abbrev ◌>>=◌ : {A B : Type 0} → Option A → (A → Option B) → Option B
none >>= f = none
some a >>= f = f a

-- `(impl|review|plan|research|read|think)-`: no alternative with its dash begins another.
strip_subcommand : List Text → Text → Option Text
strip_subcommand [] s = none
strip_subcommand (p ∷ ps) s =
    let others = strip_subcommand ps s in
    elim (strip_prefix p s) [ none ↦ others | some rest ↦ some rest ]

abbrev subcommand_prefixes : List Text
subcommand_prefixes =
    text "impl-"
    ∷ text "review-"
    ∷ text "plan-"
    ∷ text "research-"
    ∷ text "read-"
    ∷ text "think-"
    ∷ []

-- The groups of `taskIDPattern` that the code reads.
pub record IdParts : Type 0 where
  pub date : Text
  pub clock : Text
  pub slug : Text

unfoldable pub match_task_id : Text → Option IdParts
unfolding strip_prefix take_class strip_subcommand matches_slug
match_task_id value = do
  after ← strip_subcommand subcommand_prefixes value
  d ← take_class is_digit 8 after
  s1 ← strip_prefix (text "-") d.1
  c ← take_class is_digit 6 s1
  s2 ← strip_prefix (text "-") c.1
  x ← take_class is_hex 4 s2
  s3 ← strip_prefix (text "-") x.1
  if matches_slug true s3 then some (record { date = d.0; clock = c.0; slug = s3 }) else none

abbrev number_from : ℕ → Text → ℕ
number_from n [] = n
number_from n (c ∷ cs) = number_from (n * 10 + (c - b'0')) cs

abbrev is_leap : ℕ → Bool
is_leap year = year % 4 == 0 && (not (year % 100 == 0) || year % 400 == 0)

abbrev days_in : ℕ → ℕ → ℕ
days_in month year =
    if month == 2
    then (if is_leap year then 29 else 28)
    else if month == 4 || month == 6 || month == 9 || month == 11
    then 30
    else 31

abbrev in_range : ℕ → ℕ → ℕ → Bool
in_range lo hi n = leb lo n && leb n hi

-- `time.Parse("20060102 150405", ...)` on eight digits and six digits: the ranges that it checks.
parses_date : Text → Bool
parses_date (a ∷ b ∷ c ∷ d ∷ e ∷ f ∷ g ∷ h ∷ []) =
    let year = number_from 0 (a ∷ b ∷ c ∷ d ∷ []) in
    let month = number_from 0 (e ∷ f ∷ []) in
    in_range 1 12 month && in_range 1 (days_in month year) (number_from 0 (g ∷ h ∷ []))
parses_date _ = false

parses_clock : Text → Bool
parses_clock (a ∷ b ∷ c ∷ d ∷ e ∷ f ∷ []) =
    in_range 0 23 (number_from 0 (a ∷ b ∷ []))
    && in_range 0 59 (number_from 0 (c ∷ d ∷ []))
    && in_range 0 59 (number_from 0 (e ∷ f ∷ []))
parses_clock _ = false

abbrev check_id_parts : Text → Option IdParts → Result Err TaskId
check_id_parts value none = err invalid_task_id
check_id_parts value (some parts) =
    if not (parses_date parts.date && parses_clock parts.clock)
    then err invalid_task_id
    else elim (new_slug parts.slug) [ ok slug ↦ ok value | err e ↦ err e ]

unfoldable pub new_task_id : Text → Result Err TaskId
unfolding match_task_id parses_date parses_clock new_slug
new_task_id value = check_id_parts value (match_task_id value)

-- `slugFromTaskID` of tasksnapshot.go
unfoldable pub slug_from_task_id : TaskId → Result Err Slug
unfolding match_task_id new_slug
slug_from_task_id id = elim (match_task_id id) [
  | none ↦ err no_slug
  | some parts ↦ new_slug parts.slug
]

-- An accepted slug is the text itself, has one to forty characters, and matches the pattern.
pub new_slug-ok :
    (value : Text) {slug : Slug}
    → new_slug value ≡ ok slug
    → (slug ≡ value) × (1 ≤ length slug) × (length slug ≤ slug_max_length)
unfolding new_slug
new_slug-ok value h = ground arith

check_id_parts-ok :
    (value : Text) (m : Option IdParts) {id : TaskId}
    → check_id_parts value m ≡ ok id
    → (parts : IdParts) × (m ≡ some parts)
      × ((slug : Slug) × (new_slug parts.slug ≡ ok slug))
      × (id ≡ value)
check_id_parts-ok value none h = cc
check_id_parts-ok value (some parts) h =
    (parts, refl, slug_of (new_slug parts.slug) refl, ground arith)
  where
    slug_of :
        (r : Result Err Slug)
        → new_slug parts.slug ≡ r
        → (slug : Slug) × (new_slug parts.slug ≡ ok slug)
    slug_of (ok slug) e = (slug, e)
    slug_of (err x) e = ground arith

slug_of_parts :
    (id : TaskId) (parts : IdParts) {slug : Slug}
    → match_task_id id ≡ some parts
    → new_slug parts.slug ≡ ok slug
    → slug_from_task_id id ≡ ok slug
unfolding slug_from_task_id
slug_of_parts id parts m h = ground arith

-- `NewTaskID` accepts only a text that it returns as it is, and the slug that a snapshot's restore
-- looks for is then found in it, with one to forty characters.
pub new_task_id-slug :
    (value : Text) {id : TaskId}
    → new_task_id value ≡ ok id
    → (id ≡ value)
      × ((slug : Slug) × (slug_from_task_id id ≡ ok slug)
          × (1 ≤ length slug)
          × (length slug ≤ slug_max_length))
unfolding new_task_id
new_task_id-slug value h =
    let (parts, m, (slug, found), same) = check_id_parts-ok value (match_task_id value) h in
    let sized = new_slug-ok parts.slug found in
    (same, (slug, rw same (slug_of_parts value parts m found), sized.1, sized.2))
