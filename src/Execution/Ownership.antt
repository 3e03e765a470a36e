-- ===== src/Execution/Ownership.antt =====
-- internal/execution/lifecycle_ownership.go: the leases on the life cycles of tasks. A release
-- function is the lease that it belongs to, and may be called any number of times: its `sync.Once`
-- cuts off calls that find the lease gone already. A generation is a `uint64`.
pub mod Leases
use codex_runner.Prelude.{
  ℕ, suc, ◌%◌, Bool, true, false, not, ◌&&◌, ◌||◌, List, [], ◌∷◌, Option, none, some, ◌==◌,
  if◌then◌else◌, is_some, ◌+◌,
}
use codex_runner.Prelude.Dict
use codex_runner.Prelude.Dict.{Dict}
use codex_runner.Domain.Values.{TaskId}
use Prim.Native.Nat.{◌^◌}

pub record Registry : Type 0 where
  pub owners : Dict ℕ
  pub generation : ℕ

pub record Lease : Type 0 where
  pub task : TaskId
  pub generation : ℕ

abbrev pub no_leases : Registry
no_leases = record { owners = []; generation = 0 }

-- `r.generation++`
abbrev pub next_generation : Registry → ℕ
next_generation r = (r.generation + 1) % 2 ^ 64

abbrev pub grant : TaskId → Option ℕ → Registry → Option Lease × Registry
grant id (some g) r = (none, r)
grant id none r = (
  some (record { task = id; generation = next_generation r }),
  record { owners = Dict.put id (next_generation r) r.owners; generation = next_generation r },
)

-- `Acquire`; `none` is `acquired == false`.
unfoldable pub acquire_lease : TaskId → Registry → Option Lease × Registry
acquire_lease id r = grant id (Dict.get id r.owners) r

abbrev pub is_current : Option ℕ → ℕ → Bool
is_current none g = false
is_current (some current) g = current == g

-- The body of the release function.
unfoldable pub release_lease : Lease → Registry → Registry
release_lease l r =
    if is_current (Dict.get l.task r.owners) l.generation
    then record r { owners = Dict.delete l.task r.owners }
    else r

-- `Current`
abbrev pub current : TaskId → Registry → Option ℕ
current id r = Dict.get id r.owners

-- `WithCurrent`: whether the action runs.
unfoldable pub runs_with : Lease → Registry → Bool
runs_with l r = is_current (current l.task r) l.generation

-- `IsOwned`
abbrev pub is_owned : TaskId → Registry → Bool
is_owned id r = is_some (current id r)
