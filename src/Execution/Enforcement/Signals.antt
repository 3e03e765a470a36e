-- ===== src/Execution/Enforcement/Signals.antt =====
-- Whom the signals reach, and when a recovery is started.
use codex_runner.Prelude.{◌≡◌, refl, true, false, ok, All}
use codex_runner.Domain.Enums.{is_impl}
use codex_runner.Domain.Snapshot.{TaskSnapshot}
use codex_runner.Execution.Signalling.{
  sends_terminate, sends_kill, EnforcementStep, recovers, TimeoutWorld,
}
use codex_runner.Execution.Enforcement.{TimeoutInput, execute_timeout}
use codex_runner.Execution.Enforcement.Authority.{IsAuthorized}
use codex_runner.Execution.Enforcement.Steps.{IsConfirmedDead, execute_timeout-All}

abbrev pub MaySend : TimeoutWorld → TaskSnapshot → EnforcementStep → Type 0
MaySend w s (sends_terminate pid) = IsAuthorized w.terminate s pid
MaySend w s (sends_kill pid) = IsAuthorized w.kill s pid
MaySend w s _ = Unit

-- Each signal goes to the process identifier that the timed-out task had when it was loaded, and is
-- sent only while the store has a snapshot of that task in the state timeout with the same process
-- identifier and the same start time, and the lease of the watcher is current.
pub execute_timeout-MaySend :
    (w : TimeoutWorld) (i : TimeoutInput) (s : TaskSnapshot)
    → w.loaded ≡ ok s
    → All (MaySend w s) (execute_timeout w i).1
execute_timeout-MaySend w i s h =
    execute_timeout-All (MaySend w s) w i s
      (record {
        of_save = λ n. tt;
        of_leave = tt;
        of_append = λ e. tt;
        of_terminate = λ pid a. a;
        of_kill = λ pid a. a;
        of_register = λ d a. tt;
        of_release = tt;
        of_recovery = λ dead released. tt;
      })
      h

abbrev pub MayRecover : TimeoutWorld → TaskSnapshot → EnforcementStep → Type 0
MayRecover w s (recovers session) =
    (session ≡ s.session_ref)
    × IsConfirmedDead w
    × (is_impl s.subcommand ≡ true → w.release_fails ≡ false)
MayRecover w s _ = Unit

-- A recovery is started, on the session of the timed-out task, only when the task was found dead
-- without an error, and for a task that writes only when the release of its path lock has not failed.
pub execute_timeout-MayRecover :
    (w : TimeoutWorld) (i : TimeoutInput) (s : TaskSnapshot)
    → w.loaded ≡ ok s
    → All (MayRecover w s) (execute_timeout w i).1
execute_timeout-MayRecover w i s h =
    execute_timeout-All (MayRecover w s) w i s
      (record {
        of_save = λ n. tt;
        of_leave = tt;
        of_append = λ e. tt;
        of_terminate = λ pid a. tt;
        of_kill = λ pid a. tt;
        of_register = λ d a. tt;
        of_release = tt;
        of_recovery = λ dead released. (refl, dead, released);
      })
      h
