-- ===== src/Tests/Pushes.antt =====
-- The push policy and the state of a work tree, at concrete inputs.
use codex_runner.Prelude.{
  ℕ, ◌≡◌, refl, true, false, [], ◌∷◌, List, contains_byte, text_eq, none, Text, text, replicate, ok,
}
use codex_runner.Supervisor.Gitops.Push.{PushInput, evaluate}
use codex_runner.Supervisor.Gitops.Push.Safety.{AllowedPush, evaluate-AllowedPush}
use codex_runner.Supervisor.Gitops.Argv.{build_push_argv, validate_push_argv}
use codex_runner.Supervisor.Gitops.Argv.Shape.{IsPushArgv, validate_push_argv-IsPushArgv}
use codex_runner.Supervisor.Gitops.Porcelain.{StatusEntry, rename, untracked, parse_porcelain_v1}
use codex_runner.Supervisor.Gitops.Porcelain.RoundTrip.{
  IsEntry, printed, parse_porcelain_v1-printed,
}

abbrev sha_of : ℕ → Text
sha_of c = replicate 40 c

abbrev an_url : Text
an_url = text "https://example.org/r.git"

abbrev a_push : PushInput
a_push = record {
  local_git_error = none;
  remote_head_local_error = none;
  commit_list_error = none;
  fetch_urls = an_url ∷ [];
  push_urls = an_url ∷ [];
  receivepack_configured = false;
  remote_helper_configured = false;
  current_ref = text "refs/heads/feature/x";
  protected_branches = text "release" ∷ [];
  allowlist =
      record {
        remote = text "origin";
        url = text "https://example.org/other.git";
        branch = text "feature/x";
      }
      ∷ record { remote = text "origin"; url = an_url; branch = text "feature/x" }
      ∷ [];
  remote_head_sha = sha_of b'a';
  remote_head_local = true;
  remote_head_unavailable = false;
  commit_shas = sha_of b'b' ∷ sha_of b'c' ∷ [];
  supervisor_commit_shas = sha_of b'b' ∷ sha_of b'c' ∷ [];
  head_sha = sha_of b'c';
  previous_failed_head = [];
  git_config_changed = false;
  git_config_include = false;
}

a_push-allowed : (evaluate a_push).allowed ≡ true
unfolding evaluate
a_push-allowed = refl

protected-denied :
    (evaluate (record a_push { current_ref = text "refs/heads/release" })).allowed ≡ false
unfolding evaluate
protected-denied = refl

evaluate-AllowedPush_example : AllowedPush a_push (evaluate a_push)
evaluate-AllowedPush_example = evaluate-AllowedPush a_push a_push-allowed

abbrev an_argv : List Text
an_argv = text "/usr/bin/git" ∷ build_push_argv (text "origin") (text "feature/x") (sha_of b'c')

an_argv-valid : validate_push_argv an_argv (text "origin") (text "feature/x") (sha_of b'c') ≡ true
unfolding validate_push_argv
an_argv-valid = refl

validate_push_argv-IsPushArgv_example :
    IsPushArgv an_argv (text "origin") (text "feature/x") (sha_of b'c')
validate_push_argv-IsPushArgv_example =
    validate_push_argv-IsPushArgv an_argv (text "origin") (text "feature/x") (sha_of b'c')
      an_argv-valid

abbrev renamed : StatusEntry
renamed = record {
  kind = rename;
  index = b'R';
  worktree = b'M';
  path = text "b.go";
  original_path = text "a b.go";
}

abbrev new_file : StatusEntry
new_file = record {
  kind = untracked;
  index = b'?';
  worktree = b'?';
  path = text "c";
  original_path = [];
}

renamed-IsEntry : IsEntry renamed
unfolding contains_byte text_eq
renamed-IsEntry = record {
  kind = refl;
  index = refl;
  worktree = refl;
  pair = refl;
  path = refl;
  plain = refl;
  original = refl;
  original_plain = refl;
}

new_file-IsEntry : IsEntry new_file
unfolding contains_byte text_eq
new_file-IsEntry = record {
  kind = refl;
  index = refl;
  worktree = refl;
  pair = refl;
  path = refl;
  plain = refl;
  original = refl;
  original_plain = refl;
}

parse_porcelain_v1-printed_example :
    parse_porcelain_v1 (printed (renamed ∷ new_file ∷ [])) ≡ ok (renamed ∷ new_file ∷ [])
parse_porcelain_v1-printed_example =
    parse_porcelain_v1-printed (renamed ∷ new_file ∷ []) (renamed-IsEntry, (new_file-IsEntry, tt))
