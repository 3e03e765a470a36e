-- ===== src/Domain/NormalizedPath.antt =====
-- internal/domain/normalizedpath.go. `filepath.Clean` is the Go library's, here on an absolute path
-- on Unix: empty and `.` components are dropped, `..` removes the component before it.
use codex_runner.Prelude.{
  ℕ, ◌≡◌, refl, Bool, true, false, not, ◌&&◌, ◌||◌, List, [], ◌∷◌, ◌++◌, Text, text, text_eq, ◌==◌,
  if◌then◌else◌, Result, ok, err,
}
use codex_runner.Domain.Values.{Err, invalid_normalized_path}

-- A character in front of the first component, or a slash that begins a new one.
abbrev push_char : Bool → ℕ → List Text → List Text
push_char slash c [] = []
push_char true c (w ∷ ws) = [] ∷ w ∷ ws
push_char false c (w ∷ ws) = (c ∷ w) ∷ ws

split_slash : Text → List Text
split_slash [] = [] ∷ []
split_slash (c ∷ cs) = push_char (c == b'/') c (split_slash cs)

abbrev drop_last_component : List Text → List Text
drop_last_component [] = []
drop_last_component (w ∷ ws) = ws

-- The components kept so far stand in reverse.
clean_components : List Text → List Text → List Text
clean_components kept [] = kept
clean_components kept (w ∷ ws) =
    clean_components
      (if text_eq w [] || text_eq w (text ".")
        then kept
        else if text_eq w (text "..")
        then drop_last_component kept
        else w ∷ kept)
      ws

join_components : Text → List Text → Text
join_components tail [] = tail
join_components tail (w ∷ ws) = join_components (b'/' ∷ w ++ tail) ws

unfoldable pub clean_absolute : Text → Text
unfolding split_slash clean_components join_components text_eq
clean_absolute path =
    let cleaned = join_components [] (clean_components [] (split_slash path)) in
    if text_eq cleaned [] then text "/" else cleaned

abbrev is_absolute : Text → Bool
is_absolute [] = false
is_absolute (c ∷ cs) = c == b'/'

ends_in_slash : Text → Bool
ends_in_slash [] = false
ends_in_slash (c ∷ []) = c == b'/'
ends_in_slash (c ∷ d ∷ cs) = ends_in_slash (d ∷ cs)

abbrev pub NormalizedPath : Type 0
NormalizedPath = Text

unfoldable pub new_normalized_path : Text → Result Err Text
unfolding clean_absolute ends_in_slash text_eq
new_normalized_path value =
    if text_eq value []
      || not (is_absolute value)
      || not (text_eq (clean_absolute value) value)
      || not (text_eq value (text "/")) && ends_in_slash value
    then err invalid_normalized_path
    else ok value

clean_absolute_test : clean_absolute (text "/a//b/./../c/") ≡ text "/a/c"
unfolding clean_absolute
clean_absolute_test = refl
