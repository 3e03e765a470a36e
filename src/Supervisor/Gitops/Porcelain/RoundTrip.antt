-- ===== src/Supervisor/Gitops/Porcelain/RoundTrip.antt =====
-- What git prints for a list of entries is read back as that list.
use codex_runner.Prelude.{
  ℕ, ◌≡◌, refl, sym, ap, subst, ◌∙◌, true, false, not, List, [], ◌∷◌, ◌++◌, none, some, Text,
  contains_byte, split, split-front, text_eq, text_eq_iff, Result, ok, err, ◌==◌, if◌then◌else◌,
  All, arith, branches, Bool-cases, inl, inr,
}
use codex_runner.Supervisor.Gitops.Porcelain.{
  StatusEntry, PorcelainError, is_status, is_bad_pair, kind_of, has_original, status_entry,
  parse_entry, onto_entries, is_end, parse_fields, parse_porcelain_v1,
}

-- An entry that git can print: no NUL in a path, and an original path exactly for a rename or a copy.
pub record IsEntry (e : StatusEntry) : Type 0 where
  pub kind : e.kind ≡ kind_of e.index e.worktree
  pub index : is_status e.index ≡ true
  pub worktree : is_status e.worktree ≡ true
  pub pair : is_bad_pair e.index e.worktree ≡ false
  pub path : text_eq e.path [] ≡ false
  pub plain : contains_byte 0 e.path ≡ false
  pub original : text_eq e.original_path [] ≡ not (has_original e.kind)
  pub original_plain : contains_byte 0 e.original_path ≡ false

abbrev line : StatusEntry → Text
line e = e.index ∷ (e.worktree ∷ (b' ' ∷ e.path))

-- The format of `git status --porcelain=v1 -z`
abbrev pub printed : List StatusEntry → Text
printed [] = []
printed (e ∷ es) =
    line e ++ 0 ∷ (if has_original e.kind then e.original_path ++ 0 ∷ printed es else printed es)

abbrev printed_fields : List StatusEntry → List Text
printed_fields [] = [] ∷ []
printed_fields (e ∷ es) =
    line e
    ∷ (if has_original e.kind then e.original_path ∷ printed_fields es else printed_fields es)

status-nonzero : (c : ℕ) → is_status c ≡ true → (c == 0) ≡ false
unfolding contains_byte
status-nonzero c h = elim (Bool-cases (c == 0)) [
  | inl zero ↦
      let same : c ≡ 0 = ground arith in
      let no : is_status 0 ≡ true = subst (λ x. is_status x ≡ true) same h in cc
  | inr other ↦ other
]

line-plain : (e : StatusEntry) → IsEntry e → contains_byte 0 (line e) ≡ false
unfolding contains_byte
line-plain e h = rw (status-nonzero e.index h.index, status-nonzero e.worktree h.worktree) h.plain

split-rest :
    (e : StatusEntry) (es : List StatusEntry)
    → IsEntry e
    → split 0 (printed es) ≡ printed_fields es
    → split 0 (if has_original e.kind then e.original_path ++ 0 ∷ printed es else printed es)
      ≡ (if has_original e.kind then e.original_path ∷ printed_fields es else printed_fields es)
split-rest e es h rest = elim (Bool-cases (has_original e.kind)) [
  | inl moved ↦ rw moved (
      split-front 0 e.original_path (printed es) h.original_plain
      ∙ ap (λ fs. e.original_path ∷ fs) rest)
  | inr stays ↦ rw stays rest
]

split-printed : (es : List StatusEntry) → All IsEntry es → split 0 (printed es) ≡ printed_fields es
unfolding split
split-printed [] h = refl
split-printed (e ∷ es) h =
    split-front 0 (line e)
      (if has_original e.kind then e.original_path ++ 0 ∷ printed es else printed es)
      (line-plain e h.0)
    ∙ ap (λ fs. line e ∷ fs) (split-rest e es h.0 (split-printed es h.1))

printed_fields-more : (es : List StatusEntry) → is_end (printed_fields es) ≡ false
printed_fields-more [] = refl
printed_fields-more (e ∷ es) = refl

-- An entry as it is read before its original path.
abbrev bare : StatusEntry → StatusEntry
bare e = record e { original_path = [] }

parse_entry-line : (e : StatusEntry) → IsEntry e → parse_entry (line e) ≡ ok (bare e)
unfolding parse_entry status_entry
parse_entry-line e h = rw (h.path, h.index, h.worktree, h.pair, h.kind) refl

parse_fields-original :
    (e : StatusEntry) (es : List StatusEntry)
    → IsEntry e
    → has_original e.kind ≡ true
    → parse_fields none (printed_fields es) ≡ ok es
    → parse_fields (some (bare e)) (e.original_path ∷ printed_fields es) ≡ ok (e ∷ es)
unfolding parse_fields
parse_fields-original e es h moved rest =
    let there : text_eq e.original_path [] ≡ false = h.original ∙ ap not moved in
    rw (printed_fields-more es, there, rest) refl

-- What is done with an entry that has been read.
abbrev continued : List Text → StatusEntry → Result PorcelainError (List StatusEntry)
continued fs e =
    if has_original e.kind then parse_fields (some e) fs else onto_entries e (parse_fields none fs)

parse_fields-step :
    (f : Text) (fs : List Text) (e : StatusEntry)
    → is_end fs ≡ false
    → parse_entry f ≡ ok e
    → parse_fields none (f ∷ fs) ≡ continued fs e
unfolding parse_fields
parse_fields-step f fs e more read =
    rw more (ap (λ r. elim r [ err x ↦ err x | ok d ↦ continued fs d ]) read)

continued-entry :
    (e : StatusEntry) (es : List StatusEntry)
    → IsEntry e
    → parse_fields none (printed_fields es) ≡ ok es
    → continued
        (if has_original e.kind then e.original_path ∷ printed_fields es else printed_fields es)
        (bare e)
      ≡ ok (e ∷ es)
continued-entry e es h rest = elim (Bool-cases (has_original e.kind)) [
  | inl moved ↦ rw moved (parse_fields-original e es h moved rest)
  | inr stays ↦
      let none_there : e.original_path ≡ [] =
        (text_eq_iff e.original_path []).0 (h.original ∙ ap not stays) in
      rw (stays, rest) (ap (λ o. ok (record e { original_path = o } ∷ es)) (sym none_there))
]

rest-more :
    (e : StatusEntry) (es : List StatusEntry)
    → is_end
        (if has_original e.kind then e.original_path ∷ printed_fields es else printed_fields es)
      ≡ false
rest-more e es =
    branches (λ fs. is_end fs ≡ false) (has_original e.kind) (e.original_path ∷ printed_fields es)
      (printed_fields es) (λ k. refl) (λ k. printed_fields-more es)

printed_step :
    (e : StatusEntry) (es : List StatusEntry)
    → IsEntry e
    → parse_fields none (printed_fields es) ≡ ok es
    → parse_fields none (printed_fields (e ∷ es)) ≡ ok (e ∷ es)
printed_step e es h rest =
    parse_fields-step (line e) _ (bare e) (rest-more e es) (parse_entry-line e h)
    ∙ continued-entry e es h rest

parse_fields-printed :
    (es : List StatusEntry) → All IsEntry es → parse_fields none (printed_fields es) ≡ ok es
unfolding parse_fields
parse_fields-printed [] h = refl
parse_fields-printed (e ∷ es) h = printed_step e es h.0 (parse_fields-printed es h.1)

-- The output of git for any list of entries is parsed to that list: paths with any byte but NUL,
-- renames and copies with their original path, and no entry at all.
pub parse_porcelain_v1-printed :
    (es : List StatusEntry) → All IsEntry es → parse_porcelain_v1 (printed es) ≡ ok es
unfolding parse_porcelain_v1
parse_porcelain_v1-printed [] h = refl
parse_porcelain_v1-printed (e ∷ es) h =
    ap (parse_fields none) (split-printed (e ∷ es) h) ∙ parse_fields-printed (e ∷ es) h
