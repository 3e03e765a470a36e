-- ===== src/Supervisor/Gitops/Argv.antt =====
-- internal/supervisor/gitops/pushpolicy.go: the command line of a push. `path.Clean` is what it does
-- to an absolute path.
pub mod Shape
use codex_runner.Prelude.{
  ℕ, Bool, true, false, not, ◌&&◌, ◌||◌, List, [], ◌∷◌, ◌++◌, Text, text, text_eq, ◌==◌,
  if◌then◌else◌,
}
use codex_runner.Domain.NormalizedPath.{clean_absolute}
use codex_runner.Supervisor.Text.Words.{fields, open_fields}
use codex_runner.Supervisor.Gitops.Names.{
  starts_with, after_prefix, valid_ref_name, valid_remote, is_sha,
}

abbrev pub supervisor_git_hardening_args : Text
supervisor_git_hardening_args =
    text
      "-c core.hooksPath=/dev/null -c core.fsmonitor=false -c core.sshCommand= -c push.recurseSubmodules=no -c push.pushOption= -c protocol.ext.allow=never -c commit.gpgsign=false -c push.gpgSign=false -c core.excludesFile=/dev/null -c core.attributesFile=/dev/null -c core.gitProxy= -c http.proxy= -c credential.helper="

unfoldable pub hardening_args : List Text
unfolding open_fields
hardening_args = fields (λ c. c == b' ') supervisor_git_hardening_args

abbrev pub refspec : Text → Text → Text
refspec branch sha = sha ++ (text ":refs/heads/" ++ branch)

abbrev pub push_options : Text → List Text
push_options remote =
    text "-c"
    ∷ (text "remote." ++ (remote ++ text ".proxy="))
    ∷ text "-c"
    ∷ text "push.followTags=false"
    ∷ text "push"
    ∷ text "--no-verify"
    ∷ text "--recurse-submodules=no"
    ∷ []

unfoldable pub build_push_argv : Text → Text → Text → List Text
unfolding hardening_args
build_push_argv remote branch sha =
    hardening_args ++ (push_options remote ++ text "--" ∷ remote ∷ refspec branch sha ∷ [])

unfoldable pub argv_eq : List Text → List Text → Bool
unfolding text_eq
argv_eq [] [] = true
argv_eq [] (b ∷ bs) = false
argv_eq (a ∷ as') [] = false
argv_eq (a ∷ as') (b ∷ bs) = text_eq a b && argv_eq as' bs

-- `path.IsAbs(exe) && path.Clean(exe) == exe`
abbrev pub is_clean_absolute : Text → Bool
is_clean_absolute exe = starts_with exe (text "/") && text_eq (clean_absolute exe) exe

-- `ValidatePushArgv`, true where it returns no error.
unfoldable pub validate_push_argv : List Text → Text → Text → Text → Bool
unfolding is_sha text_eq clean_absolute after_prefix valid_remote valid_ref_name argv_eq
    build_push_argv
validate_push_argv [] remote branch sha = false
validate_push_argv (exe ∷ []) remote branch sha = false
validate_push_argv (exe ∷ (arg ∷ args)) remote branch sha =
    if not (is_sha sha)
    then false
    else if not (is_clean_absolute exe)
        || (starts_with branch (text "refs/") || text_eq branch (text "HEAD"))
    then false
    else if not (valid_remote remote) || not (valid_ref_name branch)
    then false
    else argv_eq (arg ∷ args) (build_push_argv remote branch sha)
