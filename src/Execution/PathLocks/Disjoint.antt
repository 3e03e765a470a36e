-- ===== src/Execution/PathLocks/Disjoint.antt =====
-- Stores in which no path has two owners, and what deletions and a new lock make of them.
use codex_runner.Prelude.{
  ◌≡◌, refl, true, List, [], ◌∷◌, Text, text_eq, ok, Bool-cases, inl, inr, arith,
}
use codex_runner.Prelude.Dict
use codex_runner.Prelude.Dict.{AllValues}
use codex_runner.Domain.Values.{TaskId}
use codex_runner.Execution.PathLocks.{Locks, World, contains, delete_all, without}

abbrev pub Apart : List Text → List Text → Type 0
Apart ps qs = (p : Text) → contains p ps ≡ true → contains p qs ≡ true → ⊥

-- The paths of any two tasks are apart.
abbrev pub IsDisjoint : Locks → Type 0
IsDisjoint [] = Unit
IsDisjoint ((id, ps) ∷ rest) = AllValues (λ qs. Apart ps qs) rest × IsDisjoint rest

module _ {ℓ} {V : Type ℓ} where
  pub delete-AllValues :
      (P : V → Type 0) (k : Text) (d : Dict.Dict V) → AllValues P d → AllValues P (Dict.delete k d)
  unfolding Dict.delete
  delete-AllValues P k [] h = tt
  delete-AllValues P k ((j, v) ∷ d) h = elim (Bool-cases (text_eq j k)) [
    | inl same ↦ rw same h.1
    | inr other ↦ rw other (h.0, delete-AllValues P k d h.1)
  ]

  pub put-AllValues :
      (P : V → Type 0) (k : Text) (v : V) (d : Dict.Dict V)
      → P v
      → AllValues P d
      → AllValues P (Dict.put k v d)
  unfolding Dict.put
  put-AllValues P k v [] p h = (p, tt)
  put-AllValues P k v ((j, w) ∷ d) p h = elim (Bool-cases (text_eq j k)) [
    | inl same ↦ rw same (p, h.1)
    | inr other ↦ rw other (h.0, put-AllValues P k v d p h.1)
  ]

pub delete-IsDisjoint : (id : TaskId) (s : Locks) → IsDisjoint s → IsDisjoint (Dict.delete id s)
unfolding Dict.delete
delete-IsDisjoint id [] h = tt
delete-IsDisjoint id ((j, ps) ∷ s) h = elim (Bool-cases (text_eq j id)) [
  | inl same ↦ rw same h.1
  | inr other ↦ rw other (delete-AllValues (Apart ps) id s h.0, delete-IsDisjoint id s h.1)
]

pub put-IsDisjoint :
    (id : TaskId) (ps : List Text) (s : Locks)
    → AllValues (λ qs. Apart ps qs) s
    → IsDisjoint s
    → IsDisjoint (Dict.put id ps s)
unfolding Dict.put
put-IsDisjoint id ps [] a h = (tt, tt)
put-IsDisjoint id ps ((j, qs) ∷ s) a h = elim (Bool-cases (text_eq j id)) [
  | inl same ↦ rw same (a.1, h.1)
  | inr other ↦
      rw other
        (put-AllValues (Apart qs) id ps s (λ p k l. a.0 p l k) h.0, put-IsDisjoint id ps s a.1 h.1)
]

pub without-IsDisjoint : (ids : List TaskId) (s : Locks) → IsDisjoint s → IsDisjoint (without ids s)
unfolding without
without-IsDisjoint [] s h = h
without-IsDisjoint (id ∷ ids) s h =
    without-IsDisjoint ids (Dict.delete id s) (delete-IsDisjoint id s h)

pub without-AllValues :
    (P : List Text → Type 0) (ids : List TaskId) (s : Locks)
    → AllValues P s
    → AllValues P (without ids s)
unfolding without
without-AllValues P [] s h = h
without-AllValues P (id ∷ ids) s h =
    without-AllValues P ids (Dict.delete id s) (delete-AllValues P id s h)

pub delete_all-IsDisjoint :
    (w : World) (ids : List TaskId) (s : Locks) → IsDisjoint s → IsDisjoint (delete_all w ids s).1
unfolding delete_all
delete_all-IsDisjoint w [] s h = h
delete_all-IsDisjoint w (id ∷ ids) s h = elim (Bool-cases (w.delete_fails id)) [
  | inl fails ↦ rw fails h
  | inr works ↦ rw works (delete_all-IsDisjoint w ids (Dict.delete id s) (delete-IsDisjoint id s h))
]

pub delete_all-ok :
    (w : World) (ids : List TaskId) (s : Locks)
    → (delete_all w ids s).0 ≡ ok tt
    → (delete_all w ids s).1 ≡ without ids s
unfolding delete_all without
delete_all-ok w [] s h = refl
delete_all-ok w (id ∷ ids) s h = ground (arith, delete_all-ok w ids (Dict.delete id s))
