-- ===== src/Supervisor/Gitops/Push/Stages.antt =====
-- What each stage of the push policy has checked when it lets a push go on.
use codex_runner.Prelude.{
  ◌≡◌, refl, ◌∙◌, Bool, true, false, not, ◌&&◌, ◌||◌, List, [], ◌∷◌, Option, none, some, Text, text,
  text_eq, length, ltb, ◌==◌, if◌then◌else◌, arith, branches, inl, inr, ◌⊎◌, subst, All, All-map,
}
use codex_runner.Supervisor.Gitops.Names.{
  after_prefix, starts_with, valid_ref_name, valid_remote, is_sha,
}
use codex_runner.Supervisor.Gitops.Push.{
  PushAllowlistEntry, GitFailure, output_too_large, other_failure, PushInput, PushDecision,
  no_decision, deny, failure_reason, unless_failed, is_only, Resolution, resolve_step, resolve_loop,
  resolve_allowlist_entry, is_member, protected_names, remote_of, with_remote, check_branch,
  evaluate_before_urls, passes, check_entry, check_head, all_shas, all_owned, is_last,
  check_commits,
}

-- A result that the test's first branch cannot give comes from the second one.
pub second_branch {ℓ} :
    {A : Type ℓ} (good : A → Bool) (b : Bool) (x y : A)
    → good x ≡ false
    → good (if b then x else y) ≡ true
    → (b ≡ false) × (((if b then x else y) ≡ y) × (good y ≡ true))
second_branch good true x y n h = cc
second_branch good false x y n h = (refl, (refl, h))

pub not_failed :
    (good : PushDecision → Bool) (e : Option GitFailure) (d next : PushDecision)
    → ((f : GitFailure) → good (deny (failure_reason f) d) ≡ false)
    → good (unless_failed e d next) ≡ true
    → (unless_failed e d next ≡ next) × (good next ≡ true)
not_failed good none d next n h = (refl, h)
not_failed good (some e) d next n h = let no = n e in cc

abbrev pub is_allowed : PushDecision → Bool
is_allowed d = d.allowed

abbrev pub is_for_commits : PushDecision → Bool
is_for_commits d = d.ready_for_commits

abbrev pub is_for_remote : PushDecision → Bool
is_for_remote d = d.ready_for_remote

-- The commits of an allowed push.
pub record OwnCommits (p : PushInput) : Type 0 where
  pub head : is_sha p.head_sha ≡ true
  pub own : all_owned p.supervisor_commit_shas p.commit_shas ≡ true
  pub some_commit : (length p.commit_shas == 0) ≡ false
  pub last : is_last p.head_sha p.supervisor_commit_shas ≡ true
  pub fresh : text_eq p.head_sha p.previous_failed_head ≡ false

pub check_commits-allowed :
    (p : PushInput) (d : PushDecision)
    → d.allowed ≡ false
    → (check_commits p d).allowed ≡ true
    → OwnCommits p × (check_commits p d ≡ record d { allowed = true })
unfolding check_commits
check_commits-allowed p d n h =
    let s1 = second_branch is_allowed (not (is_sha p.head_sha)) _ _ n h in
    let s2 = second_branch is_allowed (not (all_shas p.supervisor_commit_shas)) _ _ n s1.1.1 in
    let s3 =
      second_branch is_allowed (not (all_owned p.supervisor_commit_shas p.commit_shas)) _ _ n
        s2.1.1 in
    let s4 = second_branch is_allowed (length p.commit_shas == 0) _ _ n s3.1.1 in
    let s5 =
      second_branch is_allowed
        (not (is_member p.head_sha p.supervisor_commit_shas)
          || not (is_last p.head_sha p.supervisor_commit_shas))
        _ _ n s4.1.1 in
    let s6 = second_branch is_allowed (text_eq p.head_sha p.previous_failed_head) _ _ n s5.1.1 in
    (
      record {
        head = ground (arith, s1.0);
        own = ground (arith, s3.0);
        some_commit = s4.0;
        last = ground (arith, s5.0);
        fresh = s6.0;
      },
      s1.1.0 ∙ (s2.1.0 ∙ (s3.1.0 ∙ (s4.1.0 ∙ (s5.1.0 ∙ s6.1.0)))),
    )

-- The remote head of a push that goes on.
pub record KnownHead (p : PushInput) : Type 0 where
  pub sha : is_sha p.remote_head_sha ≡ true
  pub held : p.remote_head_local ≡ true

pub check_head-ready :
    (p : PushInput) (d : PushDecision)
    → d.ready_for_commits ≡ false
    → (check_head p d).ready_for_commits ≡ true
    → KnownHead p × (check_head p d ≡ record d { ready_for_commits = true })
unfolding check_head
check_head-ready p d n h =
    let s1 = second_branch is_for_commits p.remote_head_unavailable _ _ n h in
    let s2 = second_branch is_for_commits (text_eq p.remote_head_sha []) _ _ n s1.1.1 in
    let s3 = second_branch is_for_commits (not (is_sha p.remote_head_sha)) _ _ n s2.1.1 in
    let s4 = not_failed is_for_commits p.remote_head_local_error d _ (λ f. n) s3.1.1 in
    let s5 = second_branch is_for_commits (not p.remote_head_local) _ _ n s4.1 in
    (
      record { sha = ground (arith, s3.0); held = ground (arith, s5.0) },
      s1.1.0 ∙ (s2.1.0 ∙ (s3.1.0 ∙ (s4.0 ∙ s5.1.0))),
    )

-- The entry of the list that allows a push, and the configuration.
pub record KnownEntry (p : PushInput) (d : PushDecision) (e : PushAllowlistEntry) : Type 0 where
  pub remote : text_eq e.remote d.remote ≡ true
  pub fetch : is_only e.url p.fetch_urls ≡ true
  pub push : is_only e.url p.push_urls ≡ true
  pub receive_pack : p.receivepack_configured ≡ false
  pub helper : p.remote_helper_configured ≡ false
  pub include : p.git_config_include ≡ false
  pub changed : p.git_config_changed ≡ false

pub check_entry-ready :
    (p : PushInput) (d : PushDecision) (o : Option PushAllowlistEntry)
    → d.ready_for_remote ≡ false
    → (check_entry p d o).ready_for_remote ≡ true
    → (e : PushAllowlistEntry) × ((o ≡ some e)
        × (KnownEntry p d e × (check_entry p d o ≡ record d { ready_for_remote = true })))
unfolding check_entry
check_entry-ready p d none n h = cc
check_entry-ready p d (some e) n h =
    let s1 = second_branch is_for_remote (not (text_eq e.remote d.remote)) _ _ n h in
    let s2 =
      second_branch is_for_remote (not (length p.fetch_urls == 1) || not (length p.push_urls == 1))
        _ _ n s1.1.1 in
    let s3 =
      second_branch is_for_remote
        (not (is_only e.url p.fetch_urls) || not (is_only e.url p.push_urls)) _ _ n s2.1.1 in
    let s4 = second_branch is_for_remote p.receivepack_configured _ _ n s3.1.1 in
    let s5 = second_branch is_for_remote p.remote_helper_configured _ _ n s4.1.1 in
    let s6 = second_branch is_for_remote p.git_config_include _ _ n s5.1.1 in
    let s7 = second_branch is_for_remote p.git_config_changed _ _ n s6.1.1 in
    (
      e,
      (
        refl,
        (
          record {
            remote = ground (arith, s1.0);
            fetch = ground (arith, s3.0);
            push = ground (arith, s3.0);
            receive_pack = s4.0;
            helper = s5.0;
            include = s6.0;
            changed = s7.0;
          },
          s1.1.0 ∙ (s2.1.0 ∙ (s3.1.0 ∙ (s4.1.0 ∙ (s5.1.0 ∙ (s6.1.0 ∙ s7.1.0))))),
        ),
      ),
    )

pub not_or : (a b : Bool) → (not a || b) ≡ false → a ≡ true
not_or true b h = refl
not_or false b h = cc

abbrev pub goes_on : PushDecision → Bool
goes_on d = passes d && not d.noop

failed-stops : (d : PushDecision) (f : GitFailure) → goes_on (deny (failure_reason f) d) ≡ false
failed-stops d output_too_large = refl
failed-stops d other_failure = refl

with_remote-passes :
    (d : PushDecision) (o : Option Text)
    → goes_on (with_remote d o) ≡ true
    → (remote : Text) × ((valid_remote remote ≡ true)
        × (with_remote d o ≡ record d { remote = remote }))
with_remote-passes d none h = cc
with_remote-passes d (some remote) h =
    let s1 = second_branch goes_on (text_eq remote []) _ _ refl h in
    let s2 = second_branch goes_on (not (valid_remote remote)) _ _ refl s1.1.1 in
    (remote, (ground (arith, s2.0), s1.1.0 ∙ s2.1.0))

-- The branch and the remote of a push that goes on.
pub record KnownBranch (p : PushInput) (branch remote : Text) : Type 0 where
  pub ref : after_prefix (text "refs/heads/") p.current_ref ≡ some branch
  pub name : valid_ref_name branch ≡ true
  pub free : is_member branch (protected_names p) ≡ false
  pub target : valid_remote remote ≡ true

check_branch-passes :
    (p : PushInput) (o : Option Text)
    → after_prefix (text "refs/heads/") p.current_ref ≡ o
    → goes_on (check_branch p o) ≡ true
    → (branch : Text) × (remote : Text) × (KnownBranch p branch remote
        × (check_branch p o ≡ record no_decision { branch = branch; remote = remote }))
unfolding check_branch
check_branch-passes p none e h = cc
check_branch-passes p (some branch) e h =
    let d = record no_decision { branch = branch } in
    let s1 =
      second_branch goes_on
        (not (valid_ref_name branch)
          || (starts_with branch (text "refs/") || text_eq branch (text "HEAD")))
        _ _ refl h in
    let s2 = second_branch goes_on (is_member branch (protected_names p)) _ _ refl s1.1.1 in
    let s3 = with_remote-passes d (remote_of branch p.allowlist []) s2.1.1 in
    (
      branch,
      s3.0,
      (
        record {
          ref = e;
          name = not_or (valid_ref_name branch) _ s1.0;
          free = s2.0;
          target = s3.1.0;
        },
        s1.1.0 ∙ (s2.1.0 ∙ s3.1.1),
      ),
    )

pub evaluate_before_urls-passes :
    (p : PushInput)
    → goes_on (evaluate_before_urls p) ≡ true
    → (branch : Text) × (remote : Text) × (KnownBranch p branch remote
        × (evaluate_before_urls p ≡ record no_decision { branch = branch; remote = remote }))
unfolding evaluate_before_urls
evaluate_before_urls-passes p h =
    let s1 = second_branch goes_on (length p.allowlist == 0) _ _ refl h in
    let s2 = not_failed goes_on p.local_git_error no_decision _ (failed-stops no_decision) s1.1.1 in
    let s3 = check_branch-passes p (after_prefix (text "refs/heads/") p.current_ref) refl s2.1 in
    (s3.0, s3.1, (s3.2.0, s1.1.0 ∙ (s2.0 ∙ s3.2.1)))

-- The entry that is resolved is one of the list, for the branch.
abbrev pub IsListed : PushAllowlistEntry → List PushAllowlistEntry → Type 0
IsListed e [] = ⊥
IsListed e (x ∷ xs) = (e ≡ x) ⊎ IsListed e xs

module _ (P : PushAllowlistEntry → Type 0) where
  abbrev Fits : Option PushAllowlistEntry → Type 0
  Fits none = Unit
  Fits (some e) = P e

  abbrev BothFit : Resolution → Type 0
  BothFit r = Fits r.candidate × Fits r.match_found

  resolve_step-BothFit :
      (branch : Text) (fetch push : List Text) (e : PushAllowlistEntry) (r : Resolution)
      → (text_eq e.branch branch ≡ true → P e)
      → BothFit r
      → BothFit (resolve_step branch fetch push e r)
  unfolding resolve_step
  resolve_step-BothFit branch fetch push e r fits h =
      branches BothFit (not (text_eq e.branch branch)) _ _ (λ k. h)
        (λ k.
          branches BothFit (is_only e.url fetch && is_only e.url push) _ _
            (λ m. (fits (ground arith), fits (ground arith))) (λ m. (fits (ground arith), h.1)))

  resolve_loop-BothFit :
      (branch : Text) (fetch push : List Text) (es : List PushAllowlistEntry) (r : Resolution)
      → All (λ (e : PushAllowlistEntry). text_eq e.branch branch ≡ true → P e) es
      → BothFit r
      → BothFit (resolve_loop branch fetch push es r)
  unfolding resolve_loop
  resolve_loop-BothFit branch fetch push [] r fits h = h
  resolve_loop-BothFit branch fetch push (e ∷ es) r fits h =
      resolve_loop-BothFit branch fetch push es (resolve_step branch fetch push e r) fits.1
        (resolve_step-BothFit branch fetch push e r fits.0 h)

  resolve_allowlist_entry-Fits :
      (branch : Text) (fetch push : List Text) (es : List PushAllowlistEntry)
      → All (λ (e : PushAllowlistEntry). text_eq e.branch branch ≡ true → P e) es
      → Fits (resolve_allowlist_entry es branch fetch push)
  unfolding resolve_allowlist_entry
  resolve_allowlist_entry-Fits branch fetch push es fits =
      let start : Resolution = record { candidate = none; match_found = none; match_count = 0 } in
      let r = resolve_loop branch fetch push es start in
      let h = resolve_loop-BothFit branch fetch push es start fits (tt, tt) in
      branches Fits (r.match_count == 1) r.match_found _ (λ k. h.1)
        (λ k. branches Fits (ltb 1 r.match_count) none r.candidate (λ m. tt) (λ m. h.0))

All-IsListed :
    (branch : Text) (es : List PushAllowlistEntry)
    → All
        (λ (e : PushAllowlistEntry).
          text_eq e.branch branch ≡ true → IsListed e es × (text_eq e.branch branch ≡ true))
        es
All-IsListed branch [] = tt
All-IsListed branch (e ∷ es) =
    (λ h. (inl refl, h), All-map _ _ (λ x f k. (inr (f k).0, k)) es (All-IsListed branch es))

pub resolve_allowlist_entry-IsListed :
    (branch : Text) (fetch push : List Text) (es : List PushAllowlistEntry) (e : PushAllowlistEntry)
    → resolve_allowlist_entry es branch fetch push ≡ some e
    → IsListed e es × (text_eq e.branch branch ≡ true)
resolve_allowlist_entry-IsListed branch fetch push es e h =
    let P = λ (x : PushAllowlistEntry). IsListed x es × (text_eq x.branch branch ≡ true) in
    subst (Fits P) h (resolve_allowlist_entry-Fits P branch fetch push es (All-IsListed branch es))
