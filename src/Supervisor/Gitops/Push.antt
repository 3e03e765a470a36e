-- ===== src/Supervisor/Gitops/Push.antt =====
-- internal/supervisor/gitops/pushpolicy.go: whether a push is allowed, from what git said before.
pub mod Stages
pub mod Safety
use codex_runner.Prelude.{
  ℕ, zero, suc, ◌+◌, Bool, true, false, not, ◌&&◌, ◌||◌, List, [], ◌∷◌, ◌++◌, Option, none, some,
  Text, text, text_eq, length, ltb, ◌==◌, if◌then◌else◌,
}
use codex_runner.Supervisor.Gitops.Names.{
  after_prefix, starts_with, valid_ref_name, valid_remote, is_sha,
}

pub record PushAllowlistEntry : Type 0 where
  pub remote : Text
  pub url : Text
  pub branch : Text

-- The errors that `localGitFailureReason` tells apart.
pub data GitFailure : Type 0 where
  output_too_large : GitFailure
  other_failure : GitFailure

pub record PushInput : Type 0 where
  pub local_git_error : Option GitFailure
  pub remote_head_local_error : Option GitFailure
  pub commit_list_error : Option GitFailure
  pub fetch_urls : List Text
  pub push_urls : List Text
  pub receivepack_configured : Bool
  pub remote_helper_configured : Bool
  pub current_ref : Text
  pub protected_branches : List Text
  pub allowlist : List PushAllowlistEntry
  pub remote_head_sha : Text
  pub remote_head_local : Bool
  pub remote_head_unavailable : Bool
  pub commit_shas : List Text
  pub supervisor_commit_shas : List Text
  pub head_sha : Text
  pub previous_failed_head : Text
  pub git_config_changed : Bool
  pub git_config_include : Bool

-- The strings that `Reason` takes; `allowed_so_far` is the empty one.
pub data PushReason : Type 0 where
  allowed_so_far : PushReason
  git_output_too_large : PushReason
  git_failed : PushReason
  detached_head : PushReason
  argv_not_allowed : PushReason
  protected_branch : PushReason
  not_in_allowlist : PushReason
  multiple_urls : PushReason
  url_mismatch : PushReason
  receivepack : PushReason
  remote_helper : PushReason
  config_include : PushReason
  config_changed : PushReason
  remote_head_unknown : PushReason
  no_tracking_ref : PushReason
  remote_head_not_local : PushReason
  foreign_commits : PushReason

pub record PushDecision : Type 0 where
  pub allowed : Bool
  pub ready_for_remote : Bool
  pub ready_for_commits : Bool
  pub reason : PushReason
  pub remote : Text
  pub branch : Text
  pub noop : Bool
  pub no_pushes : Bool
  pub suppressed : Bool

abbrev pub no_decision : PushDecision
no_decision = record {
  allowed = false;
  ready_for_remote = false;
  ready_for_commits = false;
  reason = allowed_so_far;
  remote = [];
  branch = [];
  noop = false;
  no_pushes = false;
  suppressed = false;
}

abbrev pub deny : PushReason → PushDecision → PushDecision
deny r d = record d { reason = r }

abbrev pub failure_reason : GitFailure → PushReason
failure_reason output_too_large = git_output_too_large
failure_reason other_failure = git_failed

-- A failed command of git denies the push.
abbrev pub unless_failed : Option GitFailure → PushDecision → PushDecision → PushDecision
unless_failed none d next = next
unless_failed (some e) d next = deny (failure_reason e) d

-- `len(urls) == 1 && urls[0] == url`
abbrev pub is_only : Text → List Text → Bool
is_only url [] = false
is_only url (u ∷ []) = text_eq u url
is_only url (u ∷ (v ∷ urls)) = false

-- The variables of the loop in `ResolveAllowlistEntry`.
pub record Resolution : Type 0 where
  pub candidate : Option PushAllowlistEntry
  pub match_found : Option PushAllowlistEntry
  pub match_count : ℕ

unfoldable pub resolve_step :
    Text → List Text → List Text → PushAllowlistEntry → Resolution → Resolution
unfolding text_eq
resolve_step branch fetch_urls push_urls e r =
    if not (text_eq e.branch branch)
    then r
    else if is_only e.url fetch_urls && is_only e.url push_urls
    then record { candidate = some e; match_found = some e; match_count = r.match_count + 1 }
    else record r { candidate = some e }

unfoldable pub resolve_loop :
    Text → List Text → List Text → List PushAllowlistEntry → Resolution → Resolution
unfolding resolve_step
resolve_loop branch fetch_urls push_urls [] r = r
resolve_loop branch fetch_urls push_urls (e ∷ es) r =
    resolve_loop branch fetch_urls push_urls es (resolve_step branch fetch_urls push_urls e r)

abbrev pub resolved : Resolution → Option PushAllowlistEntry
resolved r =
    if r.match_count == 1 then r.match_found else if ltb 1 r.match_count then none else r.candidate

unfoldable pub resolve_allowlist_entry :
    List PushAllowlistEntry → Text → List Text → List Text → Option PushAllowlistEntry
unfolding resolve_loop
resolve_allowlist_entry entries branch fetch_urls push_urls = resolved (
    resolve_loop branch fetch_urls push_urls entries
      (record { candidate = none; match_found = none; match_count = 0 }))

unfoldable pub is_member : Text → List Text → Bool
unfolding text_eq
is_member s [] = false
is_member s (t ∷ ts) = text_eq t s || is_member s ts

abbrev pub protected_names : PushInput → List Text
protected_names p = text "main" ∷ text "master" ∷ text "develop" ∷ p.protected_branches

-- The remote of the branch's entries, with `none` when two of them differ.
unfoldable pub remote_of : Text → List PushAllowlistEntry → Text → Option Text
unfolding text_eq
remote_of branch [] remote = some remote
remote_of branch (e ∷ es) remote =
    let rest = remote_of branch es (if text_eq e.branch branch then e.remote else remote) in
    if not (text_eq e.branch branch)
    then rest
    else if not (text_eq remote []) && not (text_eq remote e.remote)
    then none
    else rest

abbrev pub with_remote : PushDecision → Option Text → PushDecision
with_remote d none = deny not_in_allowlist d
with_remote d (some remote) =
    if text_eq remote []
    then deny not_in_allowlist d
    else if not (valid_remote remote)
    then deny argv_not_allowed d
    else record d { remote = remote }

-- The checks of `EvaluateBeforeURLs` on the branch.
unfoldable pub check_branch : PushInput → Option Text → PushDecision
unfolding text_eq after_prefix valid_ref_name valid_remote is_member remote_of
check_branch p none = deny detached_head no_decision
check_branch p (some branch) =
    let d = record no_decision { branch = branch } in
    if not (valid_ref_name branch)
      || (starts_with branch (text "refs/") || text_eq branch (text "HEAD"))
    then deny argv_not_allowed d
    else if is_member branch (protected_names p)
    then deny protected_branch d
    else with_remote d (remote_of branch p.allowlist [])

unfoldable pub evaluate_before_urls : PushInput → PushDecision
unfolding check_branch
evaluate_before_urls p =
    if length p.allowlist == 0
    then record no_decision { noop = true }
    else unless_failed p.local_git_error no_decision
        (check_branch p (after_prefix (text "refs/heads/") p.current_ref))

abbrev pub passes : PushDecision → Bool
passes d = elim d.reason [ allowed_so_far ↦ true | _ ↦ false ]

-- The checks of `EvaluateLocal` once the entry is known.
unfoldable pub check_entry : PushInput → PushDecision → Option PushAllowlistEntry → PushDecision
unfolding text_eq
check_entry p d none = deny not_in_allowlist d
check_entry p d (some e) =
    if not (text_eq e.remote d.remote)
    then deny not_in_allowlist d
    else if not (length p.fetch_urls == 1) || not (length p.push_urls == 1)
    then deny multiple_urls d
    else if not (is_only e.url p.fetch_urls) || not (is_only e.url p.push_urls)
    then deny url_mismatch d
    else if p.receivepack_configured
    then deny receivepack d
    else if p.remote_helper_configured
    then deny remote_helper d
    else if p.git_config_include
    then deny config_include d
    else if p.git_config_changed
    then deny config_changed d
    else record d { ready_for_remote = true }

unfoldable pub evaluate_local : PushInput → PushDecision
unfolding evaluate_before_urls check_entry resolve_allowlist_entry
evaluate_local p =
    let d = evaluate_before_urls p in
    if d.noop || not (passes d)
    then d
    else check_entry p d (resolve_allowlist_entry p.allowlist d.branch p.fetch_urls p.push_urls)

unfoldable pub check_head : PushInput → PushDecision → PushDecision
unfolding text_eq is_sha
check_head p d =
    if p.remote_head_unavailable
    then deny remote_head_unknown d
    else if text_eq p.remote_head_sha []
    then deny no_tracking_ref d
    else if not (is_sha p.remote_head_sha)
    then deny remote_head_unknown d
    else unless_failed p.remote_head_local_error d (
        if not p.remote_head_local
        then deny remote_head_not_local d
        else record d { ready_for_commits = true })

unfoldable pub evaluate_remote : PushInput → PushDecision → PushDecision
unfolding check_head
evaluate_remote p local =
    if not local.ready_for_remote || not (passes local)
    then local
    else check_head p (record local { ready_for_remote = false })

unfoldable pub all_shas : List Text → Bool
unfolding is_sha
all_shas [] = true
all_shas (s ∷ shas) = is_sha s && all_shas shas

-- Every commit is one of the supervisor's.
unfoldable pub all_owned : List Text → List Text → Bool
unfolding is_sha is_member
all_owned own [] = true
all_owned own (s ∷ shas) = is_sha s && (is_member s own && all_owned own shas)

unfoldable pub is_last : Text → List Text → Bool
unfolding text_eq
is_last s [] = false
is_last s (t ∷ []) = text_eq t s
is_last s (t ∷ (u ∷ ts)) = is_last s (u ∷ ts)

unfoldable pub check_commits : PushInput → PushDecision → PushDecision
unfolding text_eq is_sha all_shas all_owned is_member is_last
check_commits p d =
    if not (is_sha p.head_sha)
    then deny foreign_commits d
    else if not (all_shas p.supervisor_commit_shas)
    then deny foreign_commits d
    else if not (all_owned p.supervisor_commit_shas p.commit_shas)
    then deny foreign_commits d
    else if length p.commit_shas == 0
    then record d { no_pushes = true }
    else if not (is_member p.head_sha p.supervisor_commit_shas)
        || not (is_last p.head_sha p.supervisor_commit_shas)
    then deny foreign_commits d
    else if text_eq p.head_sha p.previous_failed_head
    then record d { suppressed = true }
    else record d { allowed = true }

unfoldable pub evaluate_commits : PushInput → PushDecision → PushDecision
unfolding check_commits
evaluate_commits p remote =
    if not remote.ready_for_commits || not (passes remote)
    then remote
    else (let d = record remote { ready_for_commits = false } in
        unless_failed p.commit_list_error d (check_commits p d))

unfoldable pub evaluate : PushInput → PushDecision
unfolding evaluate_local evaluate_remote evaluate_commits
evaluate p =
    let d = evaluate_local p in
    if not d.ready_for_remote
    then d
    else (let e = evaluate_remote p d in
        if not e.ready_for_commits then e else evaluate_commits p e)
