-- ===== src/Execution/Ownership/Leases.antt =====
-- A lease is never confused with another: generations ascend, and a stale release does nothing.
use codex_runner.Prelude.{
  ℕ, suc, ◌+◌, ◌<◌, ◌%◌, ◌≡◌, ◌≢◌, refl, subst, ◌∙◌, true, List, [], ◌∷◌, Option, none, some, All,
  length, arith, Option-cases, Bool-cases, inl, inr, ==_iff,
}
use Prim.Native.Nat.{◌^◌}
use codex_runner.Prelude.Dict
use codex_runner.Domain.Values.{TaskId}
use codex_runner.Execution.Ownership.{
  Registry, Lease, next_generation, acquire_lease, release_lease, is_current, current,
}

pub data LeaseOp : Type 0 where
  acquires : TaskId → LeaseOp
  releases : Lease → LeaseOp

abbrev pub with_granted : Option Lease → List Lease → List Lease
with_granted none ls = ls
with_granted (some l) ls = l ∷ ls

-- The leases that are granted over a run, in order.
unfoldable pub granted : Registry → List LeaseOp → List Lease
granted r [] = []
granted r (acquires id ∷ ops) =
    with_granted (acquire_lease id r).0 (granted (acquire_lease id r).1 ops)
granted r (releases l ∷ ops) = granted (release_lease l r) ops

abbrev pub Ascends : ℕ → List Lease → Type 0
Ascends n [] = Unit
Ascends n (l ∷ ls) = (n < l.generation) × Ascends l.generation ls

release_lease-generation :
    (l : Lease) (r : Registry) → (release_lease l r).generation ≡ r.generation
unfolding release_lease
release_lease-generation l r = ground arith

no_wrap : (n : ℕ) → suc n < 2 ^ 64 → (n + 1) % 2 ^ 64 ≡ suc n
no_wrap n h = omega arith

-- Generations are never given twice: over any run of acquisitions and releases, of any leases and
-- in any order, each lease that is granted has a greater generation than all before it, as long as
-- the 64-bit counter cannot wrap around.
pub granted-Ascends :
    (r : Registry) (ops : List LeaseOp)
    → r.generation + length ops < 2 ^ 64
    → Ascends r.generation (granted r ops)
unfolding granted acquire_lease
granted-Ascends r [] h = tt
granted-Ascends r (releases l ∷ ops) h =
    subst (λ n. Ascends n (granted (release_lease l r) ops)) (release_lease-generation l r)
      (granted-Ascends (release_lease l r) ops (omega (arith, release_lease-generation l r)))
granted-Ascends r (acquires id ∷ ops) h = elim (Option-cases (Dict.get id r.owners)) [
  | inr (g, owned) ↦ rw owned (granted-Ascends r ops (omega arith))
  | inl free ↦ rw free (
      let next = no_wrap r.generation (omega arith) in
      (
        omega (arith, next),
        granted-Ascends
            (record {
              owners = Dict.put id (next_generation r) r.owners;
              generation = next_generation r;
            })
            ops (omega (arith, next)),
      ))
]

abbrev pub release_all : List Lease → Registry → Registry
release_all [] r = r
release_all (l ∷ ls) r = release_all ls (release_lease l r)

release_lease-current :
    (l : Lease) (id : TaskId) (g : ℕ) (r : Registry)
    → current id r ≡ some g
    → l.generation ≢ g
    → current id (release_lease l r) ≡ some g
unfolding release_lease
release_lease-current l id g r h n =
    elim (Bool-cases (is_current (Dict.get l.task r.owners) l.generation)) [
      | inr stale ↦ rw stale h
      | inl live ↦ rw live (Dict.get-delete_other id l.task r.owners (other live) ∙ h)
    ]
  where
    other : is_current (Dict.get l.task r.owners) l.generation ≡ true → l.task ≢ id
    other e same = ground (arith, n, ==_iff g l.generation)

release_all-current :
    (ls : List Lease) (id : TaskId) (g : ℕ) (r : Registry)
    → current id r ≡ some g
    → All (λ l. l.generation ≢ g) ls
    → current id (release_all ls r) ≡ some g
release_all-current [] id g r h n = h
release_all-current (l ∷ ls) id g r h n =
    release_all-current ls id g (release_lease l r) (release_lease-current l id g r h n.0) n.1

-- The release of an old lease never takes a task away from its new owner: when a task without an
-- owner is acquired, the new lease stays the current one whatever leases of other generations are
-- released afterwards, its own task's earlier ones included.
pub acquire_lease-stays :
    (id : TaskId) (r : Registry) (old : List Lease)
    → current id r ≡ none
    → All (λ l. l.generation ≢ next_generation r) old
    → ((acquire_lease id r).0 ≡ some (record { task = id; generation = next_generation r }))
      × (current id (release_all old (acquire_lease id r).1) ≡ some (next_generation r))
unfolding acquire_lease
acquire_lease-stays id r old free n = rw free (
  refl,
  release_all-current old id (next_generation r)
      (record { owners = Dict.put id (next_generation r) r.owners; generation = next_generation r })
      (Dict.get-put id (next_generation r) r.owners) n,
)
