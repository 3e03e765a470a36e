-- ===== src/Supervisor/Gitops/Names.antt =====
-- internal/supervisor/gitops/pushpolicy.go: the names that may stand on git's command line. Strings
-- are lists of bytes.
use codex_runner.Prelude.{
  split, ℕ, Bool, true, false, not, ◌&&◌, ◌||◌, List, [], ◌∷◌, Option, none, some, Text, text,
  text_eq, length, ltb, leb, ◌==◌, if◌then◌else◌,
}

-- `strings.HasPrefix`, with what follows the prefix.
unfoldable pub after_prefix : Text → Text → Option Text
after_prefix [] s = some s
after_prefix (c ∷ prefix) [] = none
after_prefix (c ∷ prefix) (d ∷ s) =
    let rest = after_prefix prefix s in if c == d then rest else none

abbrev pub starts_with : Text → Text → Bool
starts_with s prefix = elim (after_prefix prefix s) [ none ↦ false | some rest ↦ true ]

unfoldable pub ends_with : Text → Text → Bool
unfolding text_eq
ends_with [] suffix = text_eq [] suffix
ends_with (c ∷ s) suffix = text_eq (c ∷ s) suffix || ends_with s suffix

unfoldable pub has_substring : Text → Text → Bool
unfolding after_prefix
has_substring [] part = starts_with [] part
has_substring (c ∷ s) part = starts_with (c ∷ s) part || has_substring s part

unfoldable pub any_byte : (ℕ → Bool) → Text → Bool
any_byte p [] = false
any_byte p (c ∷ s) = p c || any_byte p s

unfoldable pub one_of : Text → ℕ → Bool
one_of [] c = false
one_of (d ∷ s) c = d == c || one_of s c

abbrev pub is_bad_part : Text → Bool
is_bad_part part = text_eq part [] || starts_with part (text ".") || ends_with part (text ".lock")

unfoldable pub any_part : List Text → Bool
unfolding text_eq after_prefix ends_with
any_part [] = false
any_part (w ∷ ws) = is_bad_part w || any_part ws

-- The bytes of `" ~^:?*[\\\x00\r\n"`
abbrev ref_specials : Text
ref_specials = b' ' ∷ b'~' ∷ b'^' ∷ b':' ∷ b'?' ∷ b'*' ∷ b'[' ∷ b'\\' ∷ 0 ∷ 13 ∷ 10 ∷ []

unfoldable pub valid_ref_name : Text → Bool
unfolding text_eq after_prefix ends_with has_substring any_byte one_of split any_part
valid_ref_name s =
    not (
      text_eq s []
      || (starts_with s (text "-")
          || (starts_with s (text ".")
              || (ends_with s (text ".")
                  || (ends_with s (text ".lock")
                      || (has_substring s (text "..")
                          || (has_substring s (text "//")
                              || (any_byte (one_of ref_specials) s
                                  || (has_substring s (text "@{") || text_eq s (text "@"))))))))))
    && (not (any_part (split b'/' s)) && not (any_byte (λ c. ltb c 0x20 || c == 0x7f) s))

abbrev pub is_remote_byte : ℕ → Bool
is_remote_byte c =
    leb b'A' c && leb c b'Z'
    || (leb b'a' c && leb c b'z'
        || (leb b'0' c && leb c b'9' || (c == b'.' || (c == b'_' || c == b'-'))))

-- `remotePattern` and the tests after it
unfoldable pub valid_remote : Text → Bool
unfolding text_eq after_prefix any_byte
valid_remote s =
    not (text_eq s [])
    && (not (any_byte (λ c. not (is_remote_byte c)) s)
        && (not (text_eq s (text "."))
            && (not (text_eq s (text "..")) && not (starts_with s (text "-")))))

-- `shaPattern`
unfoldable pub is_sha : Text → Bool
unfolding any_byte
is_sha s =
    length s == 40
    && not (any_byte (λ c. not (leb b'0' c && leb c b'9' || leb b'a' c && leb c b'f')) s)
