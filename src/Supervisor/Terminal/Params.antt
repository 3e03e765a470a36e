-- ===== src/Supervisor/Terminal/Params.antt =====
-- internal/supervisor/vterm.go: the numbers of a control sequence, whose text is a list of bytes.
use codex_runner.Prelude.{
  contains_byte, split, ℕ, zero, suc, ◌+◌, ◌-◌, ◌*◌, ◌≤◌, Bool, true, false, not, ◌&&◌, ◌||◌, List,
  [], ◌∷◌, ◌++◌, get_or, ltb, ◌==◌, if◌then◌else◌, map, arith, branches, Text,
}

-- `strings.Cut(field, ":")`: what stands before the colon.
unfoldable pub cut_colon : Text → Text
cut_colon [] = []
cut_colon (c ∷ cs) = let rest = cut_colon cs in if c == b':' then [] else c ∷ rest

-- The loop over the digits of one field.
unfoldable pub digits : ℕ → Text → ℕ
digits value [] = value
digits value (c ∷ f) =
    let rest = digits (value * 10 + (c - b'0')) f in
    if ltb c b'0' || ltb b'9' c
    then 0
    else if ltb 6553 value || value == 6553 && ltb 5 (c - b'0')
    then 65535
    else rest

unfoldable pub all_fields : List Text → List Text
unfolding split
all_fields [] = []
all_fields (f ∷ fs) = split b':' f ++ all_fields fs

unfoldable pub parse_terminal_params : Text → List ℕ
unfolding split all_fields digits
parse_terminal_params raw = map (digits 0) (all_fields (split b';' raw))

-- `param(i, def)`
abbrev pub param : List ℕ → ℕ → ℕ → ℕ
param params i def = if get_or params i 0 == 0 then def else get_or params i 0

unfoldable pub private_erase_mode : Text → ℕ
unfolding parse_terminal_params
private_erase_mode [] = 0
private_erase_mode (c ∷ []) = 0
private_erase_mode (c ∷ (d ∷ rest)) = get_or (parse_terminal_params (d ∷ rest)) 0 0

-- A byte other than a digit, a semicolon and a colon
unfoldable pub malformed : Text → Bool
malformed [] = false
malformed (c ∷ cs) =
    (ltb c b'0' || (ltb b'9' c && not (c == b';') && not (c == b':'))) || malformed cs

-- One field of a sequence `m`.
unfoldable pub sgr_value : Text → ℕ
unfolding cut_colon parse_terminal_params
sgr_value field = get_or (parse_terminal_params (cut_colon field)) 0 0

-- How many of the next fields belong to a colour.
unfoldable pub sgr_skip : Text → List Text → ℕ
unfolding sgr_value contains_byte
sgr_skip field [] = 0
sgr_skip field (next ∷ fields) =
    if not (sgr_value field == 38 || sgr_value field == 48 || sgr_value field == 58)
    then 0
    else if contains_byte b':' field
    then 0
    else if sgr_value next == 5
    then 2
    else if sgr_value next == 2
    then 4
    else 0

unfoldable pub sgr_faint : ℕ → Bool → Bool
sgr_faint p faint =
    if p == 0 then false else if p == 2 then true else if p == 22 then false else faint

-- The loop over the fields, which passes by `skip` of them first.
unfoldable pub sgr : ℕ → List Text → Bool → Bool
unfolding sgr_value sgr_skip sgr_faint
sgr skip [] faint = faint
sgr (suc skip) (field ∷ fields) faint = sgr skip fields faint
sgr zero (field ∷ fields) faint =
    sgr (sgr_skip field fields) fields (sgr_faint (sgr_value field) faint)

digits-bounded : (value : ℕ) (f : Text) → value ≤ 65535 → digits value f ≤ 65535
unfolding digits
digits-bounded value [] h = h
digits-bounded value (c ∷ f) h =
    branches (λ n. n ≤ 65535) (ltb c b'0' || ltb b'9' c) 0 _ (λ e. omega arith)
      (λ e.
        branches (λ n. n ≤ 65535) (ltb 6553 value || value == 6553 && ltb 5 (c - b'0')) 65535 _
          (λ k. omega arith) (λ k. digits-bounded (value * 10 + (c - b'0')) f (ground arith)))
