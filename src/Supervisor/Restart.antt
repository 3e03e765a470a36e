-- ===== src/Supervisor/Restart.antt =====
-- internal/supervisor/restart.go: when a session may be restarted automatically. Durations are in
-- nanoseconds, as in Go.
use codex_runner.Prelude.{
  ℕ, zero, suc, ◌+◌, ◌-◌, ◌*◌, ◌≤◌, ◌≡◌, Bool, true, false, not, ◌&&◌, List, [], ◌∷◌, arith, ltb,
  if◌then◌else◌, Bool-cases, inl, inr, ap, ◌∙◌, ℤ, pos, negsuc, below, length,
}
use native.Mathlib.Nat.{pow-suc, one-le-pow}
use Prim.Native.Nat.{◌^◌, min, ◌<◌}
use codex_runner.Domain.Values.{Time, is_zero_time}

-- `no_reason` is the empty string; the other constants are those of session.go.
pub data StopReason : Type 0 where
  no_reason : StopReason
  stop_global stop_session supervisor_restarted send_not_confirmed send_aborted : StopReason
  process_exit_with_pending recommendation_forbidden recommendation_undetermined : StopReason
  recommendation_repeated auto_continue_limit rotate_step_failed respawn_failed : StopReason
  recovery_start_timeout claude_session_id_missing restart_limit_consecutive : StopReason
  restart_limit_daily orphan_child_alive state_file_corrupt : StopReason
  other : List ℕ → StopReason

abbrev pub restart_max_count : ℕ
restart_max_count = 3

abbrev pub restart_max_per_day : ℕ
restart_max_per_day = 10

abbrev pub restart_backoff_base : ℕ
restart_backoff_base = 10_000_000_000

abbrev pub restart_backoff_max : ℕ
restart_backoff_max = 300_000_000_000

abbrev pub restart_stable_duration : ℕ
restart_stable_duration = 600_000_000_000

abbrev pub restart_window : ℕ
restart_window = 86_400_000_000_000

-- The loop of `RestartBackoff`, over the rounds that are left.
backoff_loop : ℕ → ℕ → ℕ
backoff_loop zero delay = delay
backoff_loop (suc rounds) delay =
    let doubled = backoff_loop rounds (delay * 2) in
    if ltb delay restart_backoff_max then doubled else delay

abbrev rounds_of : ℤ → ℕ
rounds_of (pos n) = n
rounds_of (negsuc n) = 0

abbrev capped : ℕ → ℕ
capped delay = if ltb restart_backoff_max delay then restart_backoff_max else delay

unfoldable pub restart_backoff : ℤ → ℕ
unfolding backoff_loop
restart_backoff count = capped (backoff_loop (rounds_of count) restart_backoff_base)

-- `!at.Before(start) && !at.After(now)`
abbrev in_window : Time → Time → Bool
in_window now at = not (ltb at (now - restart_window)) && not (ltb now at)

unfoldable pub restart_count_in_window : List Time → Time → ℕ
restart_count_in_window [] now = 0
restart_count_in_window (at ∷ rest) now =
    (if in_window now at then 1 else 0) + restart_count_in_window rest now

unfoldable pub restart_limit_counts : ℤ → ℤ → StopReason
restart_limit_counts count daily =
    if not (below count restart_max_count)
    then restart_limit_consecutive
    else if not (below daily restart_max_per_day)
    then restart_limit_daily
    else no_reason

unfoldable pub restart_limit_reason : ℤ → List Time → Time → StopReason
unfolding restart_count_in_window restart_limit_counts
restart_limit_reason count times now =
    restart_limit_counts count (pos (restart_count_in_window times now))

unfoldable pub restart_stable : Time → Time → Bool
restart_stable started now =
    not (is_zero_time started)
    && not (ltb now started)
    && not (ltb (now - started) restart_stable_duration)

-- At or past the cap further doublings change nothing.
past_cap : (delay p : ℕ) → restart_backoff_max ≤ delay → 1 ≤ p → restart_backoff_max ≤ delay * p
past_cap delay p h k = grind arith

doubled_power : (delay n : ℕ) → delay * 2 * 2 ^ n ≡ delay * 2 ^ suc n
doubled_power delay n = rw (pow-suc 2 n) (omega arith)

backoff_capped :
    (n delay : ℕ) → capped (backoff_loop n delay) ≡ min (delay * 2 ^ n) restart_backoff_max
unfolding backoff_loop
backoff_capped zero delay = ground arith
backoff_capped (suc n) delay = elim (Bool-cases (ltb delay restart_backoff_max)) [
  | inl short ↦
      rw short
        (backoff_capped n (delay * 2) ∙ ap (λ d. min d restart_backoff_max) (doubled_power delay n))
  | inr long ↦ rw long (
      at_cap delay (delay * 2 ^ suc n) long (
        past_cap delay (2 ^ suc n) (not_ltb delay restart_backoff_max long)
          (one-le-pow (suc n) 2 (omega arith))))
]
  where
    not_ltb : (a b : ℕ) → ltb a b ≡ false → b ≤ a
    not_ltb a b h = ground arith

    at_cap :
        (d e : ℕ)
        → ltb d restart_backoff_max ≡ false
        → restart_backoff_max ≤ e
        → capped d ≡ min e restart_backoff_max
    at_cap d e h k = ground arith

-- The delay before attempt n is ten seconds doubled n times, and never more than five minutes.
pub restart_backoff-eq :
    (n : ℕ) → restart_backoff (pos n) ≡ min (restart_backoff_base * 2 ^ n) restart_backoff_max
unfolding restart_backoff
restart_backoff-eq n = backoff_capped n restart_backoff_base

restart_count_in_window-le :
    (times : List Time) (now : Time) → restart_count_in_window times now ≤ length times
unfolding restart_count_in_window
restart_count_in_window-le [] now = omega arith
restart_count_in_window-le (at ∷ rest) now = ground (arith, restart_count_in_window-le rest now)

-- With fewer than three attempts in a row and fewer than ten on record, whatever their times, no
-- limit is reached.
pub restart_limit_reason-none :
    (count : ℤ) (times : List Time) (now : Time)
    → below count restart_max_count ≡ true
    → length times < restart_max_per_day
    → restart_limit_reason count times now ≡ no_reason
unfolding restart_limit_reason
restart_limit_reason-none count times now h k = ground (arith, restart_count_in_window-le times now)
