-- ===== src/Supervisor/Gitops/Porcelain.antt =====
-- internal/supervisor/gitops/porcelain.go: the output of `git status --porcelain=v1 -z`. Whether a
-- path is owned is an argument (`PathScope.Contains`, which asks the file system).
pub mod RoundTrip
use codex_runner.Prelude.{
  ℕ, Bool, true, false, not, ◌&&◌, ◌||◌, List, [], ◌∷◌, ◌++◌, Option, none, some, Text, text,
  contains_byte, split, text_eq, Result, ok, err, ◌==◌, if◌then◌else◌,
}

pub data StatusKind : Type 0 where
  untracked : StatusKind
  ignored : StatusKind
  ordinary : StatusKind
  rename : StatusKind
  copy : StatusKind

pub record StatusEntry : Type 0 where
  pub kind : StatusKind
  pub index : ℕ
  pub worktree : ℕ
  pub path : Text
  pub original_path : Text

pub data PorcelainError : Type 0 where
  invalid_entry : PorcelainError
  empty_path : PorcelainError
  invalid_status : PorcelainError
  invalid_pair : PorcelainError
  missing_original : PorcelainError
  empty_original : PorcelainError
  unterminated : PorcelainError

abbrev pub is_status : ℕ → Bool
is_status c = contains_byte c (text " MTADRCU?!")

abbrev pub is_bad_pair : ℕ → ℕ → Bool
is_bad_pair x y =
    x == b' ' && y == b' '
    || (x == b'?' && not (y == b'?')
        || (y == b'?' && not (x == b'?')
            || (x == b'!' && not (y == b'!') || y == b'!' && not (x == b'!'))))

abbrev pub kind_of : ℕ → ℕ → StatusKind
kind_of x y =
    if x == b'?' && y == b'?'
    then untracked
    else if x == b'!' && y == b'!'
    then ignored
    else if x == b'R' || y == b'R'
    then rename
    else if x == b'C' || y == b'C'
    then copy
    else ordinary

abbrev pub has_original : StatusKind → Bool
has_original untracked = false
has_original ignored = false
has_original ordinary = false
has_original rename = true
has_original copy = true

-- The tests on a field, in the source's order.
unfoldable pub status_entry : ℕ → ℕ → Text → Result PorcelainError StatusEntry
unfolding contains_byte text_eq
status_entry x y path =
    if text_eq path []
    then err empty_path
    else if not (is_status x) || not (is_status y)
    then err invalid_status
    else if is_bad_pair x y
    then err invalid_pair
    else ok
        (record { kind = kind_of x y; index = x; worktree = y; path = path; original_path = [] })

unfoldable pub parse_entry : Text → Result PorcelainError StatusEntry
unfolding status_entry
parse_entry [] = err invalid_entry
parse_entry (x ∷ []) = err invalid_entry
parse_entry (x ∷ (y ∷ [])) = err invalid_entry
parse_entry (x ∷ (y ∷ (blank ∷ path))) =
    if not (blank == b' ') then err invalid_entry else status_entry x y path

abbrev pub onto_entries :
    StatusEntry
    → Result PorcelainError (List StatusEntry)
    → Result PorcelainError (List StatusEntry)
onto_entries e (err x) = err x
onto_entries e (ok es) = ok (e ∷ es)

abbrev pub is_end : List Text → Bool
is_end [] = true
is_end (f ∷ fs) = false

-- The loop over the fields. An entry that waits for its original path is carried to the next round,
-- which the source reads by `i++` in the same round. The last field is the one after the last NUL.
unfoldable pub parse_fields :
    Option StatusEntry → List Text → Result PorcelainError (List StatusEntry)
unfolding parse_entry text_eq
parse_fields waiting [] = err unterminated
parse_fields none (f ∷ fs) =
    if is_end fs then (if text_eq f [] then ok [] else err unterminated) else elim (parse_entry f) [
      | err x ↦ err x
      | ok e ↦
          if has_original e.kind
          then parse_fields (some e) fs
          else onto_entries e (parse_fields none fs)
    ]
parse_fields (some e) (f ∷ fs) =
    if is_end fs
    then err missing_original
    else if text_eq f []
    then err empty_original
    else onto_entries (record e { original_path = f }) (parse_fields none fs)

unfoldable pub parse_porcelain_v1 : Text → Result PorcelainError (List StatusEntry)
unfolding parse_fields split
parse_porcelain_v1 [] = ok []
parse_porcelain_v1 (c ∷ bytes) = parse_fields none (split 0 (c ∷ bytes))

pub record StatusFlags : Type 0 where
  pub rename_partial : Bool
  pub out_of_scope_uncommitted : Bool
  pub staged_out_of_scope : Bool

abbrev no_flags : StatusFlags
no_flags = record {
  rename_partial = false;
  out_of_scope_uncommitted = false;
  staged_out_of_scope = false;
}

abbrev is_untracked : StatusKind → Bool
is_untracked untracked = true
is_untracked _ = false

abbrev is_ignored : StatusKind → Bool
is_ignored ignored = true
is_ignored _ = false

abbrev same_bool : Bool → Bool → Bool
same_bool true b = b
same_bool false b = not b

-- An entry outside the scope.
abbrev pub flag_outside : StatusEntry → StatusFlags → StatusFlags
flag_outside e r = record r {
  staged_out_of_scope =
      r.staged_out_of_scope
      || not (e.index == b' ')
        && (not (e.index == b'.') && (not (e.index == b'?') && not (e.index == 0)));
  out_of_scope_uncommitted =
      r.out_of_scope_uncommitted
      || (not (e.worktree == b' ') && (not (e.worktree == b'.') && not (e.worktree == 0))
          || is_untracked e.kind);
}

unfoldable pub classify_entry : (Text → Bool) → StatusEntry → StatusFlags → StatusFlags
classify_entry owned e r =
    if is_ignored e.kind
    then r
    else if has_original e.kind && not (same_bool (owned e.original_path) (owned e.path))
    then record r { rename_partial = true }
    else if owned e.path
    then r
    else flag_outside e r

-- The flags of `ClassifyStatus`; the entries it returns are those it gets.
unfoldable pub classify_status : (Text → Bool) → List StatusEntry → StatusFlags → StatusFlags
unfolding classify_entry
classify_status owned [] r = r
classify_status owned (e ∷ es) r = classify_status owned es (classify_entry owned e r)
