-- ===== src/Supervisor/Gitops/Argv/Shape.antt =====
-- The only command line that passes, and that it cannot force a push.
use codex_runner.Prelude.{
  ℕ, ◌≡◌, refl, ap, ◌∙◌, Bool, true, false, not, ◌&&◌, ◌||◌, List, [], ◌∷◌, Text, text, text_eq,
  text_eq_iff, ◌==◌, leb, arith,
}
use codex_runner.Supervisor.Gitops.Names.{
  any_byte, is_remote_byte, starts_with, after_prefix, valid_ref_name, valid_remote, is_sha,
}
use codex_runner.Supervisor.Gitops.Push.Stages.{second_branch, not_or}
use codex_runner.Supervisor.Gitops.Argv.{
  refspec, build_push_argv, argv_eq, is_clean_absolute, validate_push_argv,
}

-- The command line of a push, with the program in front; neither the remote nor the refspec can be
-- read as an option, and the refspec does not ask for a forced update.
pub record IsPushArgv (argv : List Text) (target branch sha : Text) : Type 0 where
  pub exe : Text
  pub absolute : is_clean_absolute exe ≡ true
  pub line : argv ≡ exe ∷ build_push_argv target branch sha
  pub remote : starts_with target (text "-") ≡ false
  pub no_option : starts_with (refspec branch sha) (text "-") ≡ false
  pub no_force : starts_with (refspec branch sha) (text "+") ≡ false

and-right : (a b : Bool) → (a && b) ≡ true → b ≡ true
and-right true b h = h
and-right false b h = cc

and-left : (a b : Bool) → (a && b) ≡ true → a ≡ true
and-left true b h = refl
and-left false b h = cc

not-true : (b : Bool) → not b ≡ true → b ≡ false
not-true true h = cc
not-true false h = refl

not-false : (b : Bool) → not b ≡ false → b ≡ true
not-false true h = refl
not-false false h = cc

argv_eq→eq : (a b : List Text) → argv_eq a b ≡ true → a ≡ b
unfolding argv_eq
argv_eq→eq [] [] h = refl
argv_eq→eq [] (y ∷ b) h = cc
argv_eq→eq (x ∷ a) [] h = cc
argv_eq→eq (x ∷ a) (y ∷ b) h =
    let same : x ≡ y = (text_eq_iff x y).0 (and-left (text_eq x y) (argv_eq a b) h) in
    let rest = argv_eq→eq a b (and-right (text_eq x y) (argv_eq a b) h) in
    ap (λ z. z ∷ a) same ∙ ap (λ l. y ∷ l) rest

other-first : (p c : ℕ) (s : Text) → (p == c) ≡ false → starts_with (c ∷ s) (p ∷ []) ≡ false
unfolding after_prefix
other-first p c s h = ground arith

abbrev is_hex : ℕ → Bool
is_hex c = leb b'0' c && leb c b'9' || leb b'a' c && leb c b'f'

hex-other : (c : ℕ) → is_hex c ≡ true → ((b'-' == c) ≡ false) × ((b'+' == c) ≡ false)
hex-other c h = (ground arith, ground arith)

is_sha-hex : (c : ℕ) (sha : Text) → is_sha (c ∷ sha) ≡ true → is_hex c ≡ true
unfolding is_sha any_byte
is_sha-hex c sha h = ground arith

empty-sha {ℓ} : {A : Type ℓ} → is_sha [] ≡ true → A
unfolding is_sha
empty-sha h = cc

is_sha-first :
    (branch sha : Text)
    → is_sha sha ≡ true
    → (starts_with (refspec branch sha) (text "-") ≡ false)
      × (starts_with (refspec branch sha) (text "+") ≡ false)
is_sha-first branch [] h = empty-sha h
is_sha-first branch (c ∷ sha) h =
    let other = hex-other c (is_sha-hex c sha h) in
    (
      other-first b'-' c (refspec branch sha) other.0,
      other-first b'+' c (refspec branch sha) other.1,
    )

valid_remote-option : (s : Text) → valid_remote s ≡ true → starts_with s (text "-") ≡ false
unfolding valid_remote
valid_remote-option s h = not-true (starts_with s (text "-")) (
    and-right (not (text_eq s (text ".."))) _ (
      and-right (not (text_eq s (text "."))) _ (
        and-right (not (any_byte (λ c. not (is_remote_byte c)) s)) _
          (and-right (not (text_eq s [])) _ h))))

validated-Shape :
    (exe : Text) (args : List Text) (target branch sha : Text)
    → is_sha sha ≡ true
    → is_clean_absolute exe ≡ true
    → valid_remote target ≡ true
    → argv_eq args (build_push_argv target branch sha) ≡ true
    → IsPushArgv (exe ∷ args) target branch sha
validated-Shape exe args target branch sha hex absolute remote same = record {
  exe = exe;
  absolute = absolute;
  line = ap (λ l. exe ∷ l) (argv_eq→eq args (build_push_argv target branch sha) same);
  remote = valid_remote-option target remote;
  no_option = (is_sha-first branch sha hex).0;
  no_force = (is_sha-first branch sha hex).1;
}

-- The only command line that `ValidatePushArgv` lets pass is the one that `BuildPushArgv` makes, with
-- the absolute clean path of a program in front; in it, neither the remote nor the refspec can be
-- read as an option, and the refspec does not ask for a forced update.
pub validate_push_argv-IsPushArgv :
    (argv : List Text) (target branch sha : Text)
    → validate_push_argv argv target branch sha ≡ true
    → IsPushArgv argv target branch sha
unfolding validate_push_argv
validate_push_argv-IsPushArgv [] target branch sha h = cc
validate_push_argv-IsPushArgv (exe ∷ []) target branch sha h = cc
validate_push_argv-IsPushArgv (exe ∷ (arg ∷ args)) target branch sha h =
    let s1 = second_branch (λ b. b) (not (is_sha sha)) _ _ refl h in
    let s2 =
      second_branch (λ b. b)
        (not (is_clean_absolute exe)
          || (starts_with branch (text "refs/") || text_eq branch (text "HEAD")))
        _ _ refl s1.1.1 in
    let s3 =
      second_branch (λ b. b) (not (valid_remote target) || not (valid_ref_name branch)) _ _ refl
        s2.1.1 in
    validated-Shape exe (arg ∷ args) target branch sha (not-false (is_sha sha) s1.0)
      (not_or (is_clean_absolute exe) _ s2.0) (not_or (valid_remote target) _ s3.0) s3.1.1
