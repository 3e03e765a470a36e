-- ===== src/Supervisor/Gitops/Push/Safety.antt =====
-- An allowed push is a safe one.
use codex_runner.Prelude.{
  ◌≡◌, refl, sym, ap, ◌∙◌, subst, Bool, true, false, not, ◌||◌, List, [], ◌∷◌, Option, none, some,
  Text, text, text_eq, text_eq_iff, length, ◌==◌, if◌then◌else◌, arith, branches,
}
use codex_runner.Supervisor.Gitops.Names.{
  after_prefix, starts_with, valid_ref_name, valid_remote, is_sha,
}
use codex_runner.Supervisor.Gitops.Push.{
  with_remote, check_branch, remote_of, is_member, PushAllowlistEntry, GitFailure, PushInput,
  PushReason, PushDecision, no_decision, deny, unless_failed, is_only, resolve_allowlist_entry,
  protected_names, passes, check_entry, check_head, evaluate_before_urls, evaluate_remote,
  evaluate_commits, evaluate,
}
use codex_runner.Supervisor.Gitops.Push.Stages.{
  OwnCommits, check_commits-allowed, KnownHead, check_head-ready, KnownEntry, check_entry-ready,
  KnownBranch, second_branch, not_failed, is_allowed, is_for_commits, is_for_remote, goes_on,
  evaluate_before_urls-passes, IsListed, resolve_allowlist_entry-IsListed,
}

-- An entry of the list for the branch, the remote and the only URL, which serves to fetch and to push.
pub record Permits (p : PushInput) (d : PushDecision) (e : PushAllowlistEntry) : Type 0 where
  pub listed : IsListed e p.allowlist
  pub branch : e.branch ≡ d.branch
  pub remote : e.remote ≡ d.remote
  pub fetch : p.fetch_urls ≡ e.url ∷ []
  pub push : p.push_urls ≡ e.url ∷ []

is_only-eq : (url : Text) (urls : List Text) → is_only url urls ≡ true → urls ≡ url ∷ []
is_only-eq url [] h = cc
is_only-eq url (u ∷ []) h = ap (λ x. x ∷ []) ((text_eq_iff u url).0 h)
is_only-eq url (u ∷ (v ∷ urls)) h = cc

-- The stages before the last leave `allowed` as it is.
abbrev Keeps : PushDecision → PushDecision → Type 0
Keeps d x = x.allowed ≡ d.allowed

unless_failed-Keeps :
    (e : Option GitFailure) (d c next : PushDecision)
    → Keeps c d
    → Keeps c next
    → Keeps c (unless_failed e d next)
unless_failed-Keeps none d c next h k = k
unless_failed-Keeps (some e) d c next h k = h

module _ (f : PushDecision → Bool) (p : PushInput) (d : PushDecision) where
  -- A field that neither the reason nor `ready_for_remote` is stays as it is.
  check_entry-field :
      (o : Option PushAllowlistEntry)
      → ((r : PushReason) → f (deny r d) ≡ f d)
      → f (record d { ready_for_remote = true }) ≡ f d
      → f (check_entry p d o) ≡ f d
  unfolding check_entry
  check_entry-field none denied ready = denied _
  check_entry-field (some e) denied ready =
      let K = λ (x : PushDecision). f x ≡ f d in
      branches K (not (text_eq e.remote d.remote)) _ _ (λ k. denied _)
        (λ k.
          branches K (not (length p.fetch_urls == 1) || not (length p.push_urls == 1)) _ _
            (λ k. denied _)
            (λ k.
              branches K (not (is_only e.url p.fetch_urls) || not (is_only e.url p.push_urls)) _ _
                (λ k. denied _)
                (λ k.
                  branches K p.receivepack_configured _ _ (λ k. denied _)
                    (λ k.
                      branches K p.remote_helper_configured _ _ (λ k. denied _)
                        (λ k.
                          branches K p.git_config_include _ _ (λ k. denied _)
                            (λ k.
                              branches K p.git_config_changed _ _ (λ k. denied _) (λ k. ready)))))))

check_head-Keeps : (p : PushInput) (d : PushDecision) → Keeps d (check_head p d)
unfolding check_head
check_head-Keeps p d =
    let K = Keeps d in
    branches K p.remote_head_unavailable _ _ (λ k. refl)
      (λ k.
        branches K (text_eq p.remote_head_sha []) _ _ (λ k. refl)
          (λ k.
            branches K (not (is_sha p.remote_head_sha)) _ _ (λ k. refl)
              (λ k.
                unless_failed-Keeps p.remote_head_local_error d d _ refl
                  (branches K (not p.remote_head_local) _ _ (λ k. refl) (λ k. refl)))))

evaluate_remote-Keeps : (p : PushInput) (d : PushDecision) → Keeps d (evaluate_remote p d)
unfolding evaluate_remote
evaluate_remote-Keeps p d =
    branches (Keeps d) (not d.ready_for_remote || not (passes d)) _ _ (λ k. refl)
      (λ k. check_head-Keeps p (record d { ready_for_remote = false }))

evaluate_remote-ready :
    (p : PushInput) (d : PushDecision)
    → d.ready_for_commits ≡ false
    → (evaluate_remote p d).ready_for_commits ≡ true
    → KnownHead p
      × (evaluate_remote p d ≡ record d { ready_for_remote = false; ready_for_commits = true })
unfolding evaluate_remote
evaluate_remote-ready p d n h =
    let s1 = second_branch is_for_commits (not d.ready_for_remote || not (passes d)) _ _ n h in
    let s2 = check_head-ready p (record d { ready_for_remote = false }) n s1.1.1 in
    (s2.0, s1.1.0 ∙ s2.1)

evaluate_commits-allowed :
    (p : PushInput) (d : PushDecision)
    → d.allowed ≡ false
    → (evaluate_commits p d).allowed ≡ true
    → OwnCommits p × (evaluate_commits p d ≡ record d { ready_for_commits = false; allowed = true })
unfolding evaluate_commits
evaluate_commits-allowed p d n h =
    let c = record d { ready_for_commits = false } in
    let s1 = second_branch is_allowed (not d.ready_for_commits || not (passes d)) _ _ n h in
    let s2 = not_failed is_allowed p.commit_list_error c _ (λ f. n) s1.1.1 in
    let s3 = check_commits-allowed p c n s2.1 in (s3.0, s1.1.0 ∙ (s2.0 ∙ s3.1))

-- `Evaluate` after `EvaluateLocal`, and from the decision of `EvaluateBeforeURLs` on.
abbrev after_local : PushInput → PushDecision → PushDecision
after_local p d =
    if not d.ready_for_remote
    then d
    else if not (evaluate_remote p d).ready_for_commits
    then evaluate_remote p d
    else evaluate_commits p (evaluate_remote p d)

abbrev local_of : PushInput → PushDecision → PushDecision
local_of p d =
    if d.noop || not (passes d)
    then d
    else check_entry p d (resolve_allowlist_entry p.allowlist d.branch p.fetch_urls p.push_urls)

evaluate-stages : (p : PushInput) → evaluate p ≡ after_local p (local_of p (evaluate_before_urls p))
unfolding evaluate
evaluate-stages p = refl

after_local-allowed :
    (p : PushInput) (d : PushDecision)
    → d.allowed ≡ false
    → d.ready_for_commits ≡ false
    → (after_local p d).allowed ≡ true
    → (d.ready_for_remote ≡ true)
      × KnownHead p
      × OwnCommits p
      × ((after_local p d).branch ≡ d.branch)
      × ((after_local p d).remote ≡ d.remote)
after_local-allowed p d n m h =
    let s1 = second_branch is_allowed (not d.ready_for_remote) _ _ n h in
    let e = evaluate_remote p d in
    let still : e.allowed ≡ false = evaluate_remote-Keeps p d ∙ n in
    let s2 = second_branch is_allowed (not e.ready_for_commits) _ _ still s1.1.1 in
    let s3 = evaluate_remote-ready p d m (ground (arith, s2.0)) in
    let s4 = evaluate_commits-allowed p e still s2.1.1 in
    let end = s1.1.0 ∙ (s2.1.0 ∙ s4.1) in
    (
      ground (arith, s1.0),
      s3.0,
      s4.0,
      ap (λ x. x.branch) end ∙ ap (λ x. x.branch) s3.1,
      ap (λ x. x.remote) end ∙ ap (λ x. x.remote) s3.1,
    )

-- What holds of a push that `Evaluate` allows.
pub record AllowedPush (p : PushInput) (d : PushDecision) : Type 0 where
  pub target : KnownBranch p d.branch d.remote
  pub entry : PushAllowlistEntry
  pub permits : Permits p d entry
  pub receive_pack : p.receivepack_configured ≡ false
  pub helper : p.remote_helper_configured ≡ false
  pub include : p.git_config_include ≡ false
  pub changed : p.git_config_changed ≡ false
  pub head : KnownHead p
  pub commits : OwnCommits p

abbrev Fresh : PushDecision → Type 0
Fresh d = (d.allowed ≡ false) × (d.ready_for_remote ≡ false) × (d.ready_for_commits ≡ false)

with_remote-Fresh : (d : PushDecision) (o : Option Text) → Fresh d → Fresh (with_remote d o)
with_remote-Fresh d none h = h
with_remote-Fresh d (some remote) h =
    branches Fresh (text_eq remote []) _ _ (λ e. h)
      (λ e. branches Fresh (not (valid_remote remote)) _ _ (λ k. h) (λ k. h))

check_branch-Fresh : (p : PushInput) (o : Option Text) → Fresh (check_branch p o)
unfolding check_branch
check_branch-Fresh p none = (refl, refl, refl)
check_branch-Fresh p (some branch) =
    let d = record no_decision { branch = branch } in
    branches Fresh
      (not (valid_ref_name branch)
        || (starts_with branch (text "refs/") || text_eq branch (text "HEAD")))
      _ _ (λ e. (refl, refl, refl))
      (λ e.
        branches Fresh (is_member branch (protected_names p)) _ _ (λ k. (refl, refl, refl))
          (λ k. with_remote-Fresh d (remote_of branch p.allowlist []) (refl, refl, refl)))

unless_failed-Fresh :
    (e : Option GitFailure) (d next : PushDecision)
    → Fresh d
    → Fresh next
    → Fresh (unless_failed e d next)
unless_failed-Fresh none d next h k = k
unless_failed-Fresh (some e) d next h k = h

evaluate_before_urls-Fresh : (p : PushInput) → Fresh (evaluate_before_urls p)
unfolding evaluate_before_urls
evaluate_before_urls-Fresh p =
    branches Fresh (length p.allowlist == 0) _ _ (λ e. (refl, refl, refl))
      (λ e.
        unless_failed-Fresh p.local_git_error no_decision _ (refl, refl, refl)
          (check_branch-Fresh p (after_prefix (text "refs/heads/") p.current_ref)))

going : (d : PushDecision) → (d.noop || not (passes d)) ≡ false → goes_on d ≡ true
going d h = ground (arith, h)

local_of-ready :
    (p : PushInput) (d : PushDecision)
    → Fresh d
    → (local_of p d).ready_for_remote ≡ true
    → (e : PushAllowlistEntry) × (goes_on d ≡ true)
      × (resolve_allowlist_entry p.allowlist d.branch p.fetch_urls p.push_urls ≡ some e)
      × KnownEntry p d e
      × (local_of p d ≡ record d { ready_for_remote = true })
local_of-ready p d fresh h =
    let o = resolve_allowlist_entry p.allowlist d.branch p.fetch_urls p.push_urls in
    let s1 = second_branch is_for_remote (d.noop || not (passes d)) _ _ fresh.1 h in
    let s2 = check_entry-ready p d o fresh.1 s1.1.1 in
    (s2.0, going d s1.0, s2.1.0, s2.1.1.0, s1.1.0 ∙ s2.1.1.1)

local_of-Fresh :
    (p : PushInput) (d : PushDecision)
    → Fresh d
    → ((local_of p d).allowed ≡ false) × ((local_of p d).ready_for_commits ≡ false)
local_of-Fresh p d h =
    let o = resolve_allowlist_entry p.allowlist d.branch p.fetch_urls p.push_urls in
    branches (λ x. (x.allowed ≡ false) × (x.ready_for_commits ≡ false)) (d.noop || not (passes d)) d
      _ (λ e. (h.0, h.2))
      (λ e. (
        check_entry-field is_allowed p d o (λ r. refl) refl ∙ h.0,
        check_entry-field is_for_commits p d o (λ r. refl) refl ∙ h.2,
      ))

-- A push that `Evaluate` allows is from a branch with a valid name that is neither one of the
-- protected ones nor main, master or develop, to a valid remote; an entry of the allowlist names
-- the branch, the remote and the one URL that the remote has for fetching and for pushing; git has
-- no receive-pack, helper, include or change in its configuration; the remote's head is a local
-- commit; there are commits to push, all of them the supervisor's; and the head is the last of the
-- commits that the supervisor has recorded, and not the head that failed before.
pub evaluate-AllowedPush :
    (p : PushInput) → (evaluate p).allowed ≡ true → AllowedPush p (evaluate p)
evaluate-AllowedPush p h =
    let d = evaluate_before_urls p in
    let fresh = evaluate_before_urls-Fresh p in
    let l = local_of p d in
    let kept = local_of-Fresh p d fresh in
    let last =
      after_local-allowed p l kept.0 kept.1 (subst (λ x. x.allowed ≡ true) (evaluate-stages p) h) in
    let local = local_of-ready p d fresh last.0 in
    let known = evaluate_before_urls-passes p local.1 in
    let branch_kept : (evaluate p).branch ≡ d.branch =
      ap (λ x. x.branch) (evaluate-stages p) ∙ (last.3 ∙ ap (λ x. x.branch) local.4) in
    let remote_kept : (evaluate p).remote ≡ d.remote =
      ap (λ x. x.remote) (evaluate-stages p) ∙ (last.4 ∙ ap (λ x. x.remote) local.4) in
    let listed =
      resolve_allowlist_entry-IsListed d.branch p.fetch_urls p.push_urls p.allowlist local.0
        local.2 in
    record {
      target =
          subst (λ r. KnownBranch p (evaluate p).branch r)
            (sym (remote_kept ∙ ap (λ x. x.remote) known.2.1))
            (subst (λ b. KnownBranch p b known.1) (sym (branch_kept ∙ ap (λ x. x.branch) known.2.1))
              known.2.0);
      entry = local.0;
      permits = record {
        listed = listed.0;
        branch = (text_eq_iff local.0.branch d.branch).0 listed.1 ∙ sym branch_kept;
        remote = (text_eq_iff local.0.remote d.remote).0 local.3.remote ∙ sym remote_kept;
        fetch = is_only-eq local.0.url p.fetch_urls local.3.fetch;
        push = is_only-eq local.0.url p.push_urls local.3.push;
      };
      receive_pack = local.3.receive_pack;
      helper = local.3.helper;
      include = local.3.include;
      changed = local.3.changed;
      head = last.1;
      commits = last.2;
    }
