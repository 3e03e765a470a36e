-- ===== src/Supervisor/Terminal/Write/Bounds.antt =====
-- Whatever is written, and however the terminal is resized in between, it stays in its bounds.
use codex_runner.Prelude.{
  ℕ, zero, suc, ◌≤◌, ◌<◌, ◌≡◌, refl, not, ◌&&◌, List, [], ◌∷◌, ◌++◌, length, ltb, leb, ℤ, pos,
  negsuc, arith, branches,
}
use codex_runner.Supervisor.Terminal.Grid.Repair.{repair_rows-IsGrid}
use codex_runner.Supervisor.Terminal.Grid.Scrolling.{resized-IsGrid}
use codex_runner.Supervisor.Terminal.Grid.{resized}
use codex_runner.Supervisor.Terminal.Screen.{TerminalScreen, put_rune}
use codex_runner.Supervisor.Terminal.Screen.Bounds.{IsScreen, new_screen-IsScreen}
use codex_runner.Supervisor.Terminal.Screen.Printing.{put_rune-IsScreen}
use codex_runner.Supervisor.Terminal.Emulator.{Emulator}
use codex_runner.Supervisor.Terminal.Emulator.Bounds.{IsEmulator, on_current-IsEmulator}
use codex_runner.Supervisor.Terminal.Escape.Bounds.{
  consume_escape-IsEmulator, consume_control_or_rune-IsEmulator,
}
use codex_runner.Supervisor.Terminal.Utf8.{Decoded, incomplete, invalid, rune, decode, decode-few}
use codex_runner.Supervisor.Terminal.Write.{
  VirtualTerminal, Round, stop, go, put_decoded, is_ground, round, consume, write, at_least_one,
  new_virtual_terminal, resize_screen, resize,
}
use codex_runner.Supervisor.Terminal.Write.Chunks.{resumed}

-- Both screens are in bounds, and fewer than four bytes of a rune are pending.
pub record IsTerminal (t : VirtualTerminal) : Type 0 where
  pub emulator : IsEmulator t.emulator
  pub pending : length t.utf8_pending ≤ 3

-- A round goes on with an emulator in bounds, or stops before the last bytes.
abbrev IsRound : ℕ → Round → Type 0
IsRound n stop = n < 3
IsRound n (go t k) = IsEmulator t

put_decoded-IsRound :
    (width : ℕ → ℕ) (u : Emulator) (d : Decoded) (n : ℕ)
    → IsEmulator u
    → (d ≡ incomplete → n < 3)
    → IsRound n (put_decoded width u d)
put_decoded-IsRound width u incomplete n h few = few refl
put_decoded-IsRound width u invalid n h few = h
put_decoded-IsRound width u (rune ch k) n h few =
    branches IsEmulator (leb 0x80 ch && leb ch 0x9f) _ _ (λ e. h)
      (λ e.
        on_current-IsEmulator (put_rune width u.cols u.rows ch) u h
          (put_rune-IsScreen u.cols u.rows width ch))

round-IsRound :
    (width : ℕ → ℕ) (u : Emulator) (b : ℕ) (bs : List ℕ)
    → IsEmulator u
    → IsRound (length bs) (round width u b bs)
unfolding round
round-IsRound width u b bs h =
    branches (IsRound (length bs)) (not (is_ground u.state)) _ _
      (λ e. consume_escape-IsEmulator width b u h)
      (λ e.
        branches (IsRound (length bs)) (ltb b 0x80) _ _
          (λ k. consume_control_or_rune-IsEmulator width b u h)
          (λ k. put_decoded-IsRound width u (decode b bs) (length bs) h (decode-few b bs)))

abbrev IsLeft : Emulator × List ℕ → Type 0
IsLeft left = IsEmulator left.0 × (length left.1 ≤ 3)

resumed-IsLeft :
    (width : ℕ → ℕ) (u : Emulator) (b : ℕ) (bs : List ℕ) (r : Round)
    → IsEmulator u
    → IsRound (length bs) r
    → ((t : Emulator) (k : ℕ) → IsEmulator t → IsLeft (consume width t k bs))
    → IsLeft (resumed width u (b ∷ bs) bs r)
resumed-IsLeft width u b bs stop h i next = (h, omega arith)
resumed-IsLeft width u b bs (go t k) h i next = next t k i

consume-IsLeft :
    (width : ℕ → ℕ) (u : Emulator) (skip : ℕ) (bs : List ℕ)
    → IsEmulator u
    → IsLeft (consume width u skip bs)
unfolding consume
consume-IsLeft width u skip [] h = (h, omega arith)
consume-IsLeft width u (suc skip) (b ∷ bs) h = consume-IsLeft width u skip bs h
consume-IsLeft width u zero (b ∷ bs) h =
    resumed-IsLeft width u b bs (round width u b bs) h (round-IsRound width u b bs h)
      (λ t k i. consume-IsLeft width t k bs i)

write-IsTerminal :
    (width : ℕ → ℕ) (bytes : List ℕ) (t : VirtualTerminal)
    → IsTerminal t
    → IsTerminal (write width bytes t)
unfolding write
write-IsTerminal width bytes t h =
    let left = consume-IsLeft width t.emulator 0 (t.utf8_pending ++ bytes) h.emulator in
    record { emulator = left.0; pending = left.1 }

at_least_one-positive : (n : ℤ) → 0 < at_least_one n
at_least_one-positive (pos n) = ground arith
at_least_one-positive (negsuc n) = omega arith

new_virtual_terminal-IsTerminal : (cols rows : ℤ) → IsTerminal (new_virtual_terminal cols rows)
unfolding new_virtual_terminal
new_virtual_terminal-IsTerminal cols rows =
    let fresh =
      new_screen-IsScreen (at_least_one cols) (at_least_one rows) (at_least_one-positive cols)
        (at_least_one-positive rows) in
    record {
      emulator = record { primary = fresh; alternate = fresh; sequence = omega arith };
      pending = omega arith;
    }

resize_screen-IsScreen :
    (width : ℕ → ℕ) (cols rows c r : ℕ) (s : TerminalScreen)
    → IsScreen cols rows s
    → 0 < c
    → 0 < r
    → IsScreen c r (resize_screen width c r s)
unfolding resize_screen
resize_screen-IsScreen width cols rows c r s h lc lr = record {
  grid =
      repair_rows-IsGrid c r width 0 r (resized c r s.grid) (resized-IsGrid c r s.grid h.grid.sound)
        (omega arith);
  row = omega arith;
  col = omega arith;
  saved_row = omega arith;
  saved_col = omega arith;
  region = omega arith;
  bottom = omega arith;
}

resize-IsTerminal :
    (width : ℕ → ℕ) (cols rows : ℤ) (t : VirtualTerminal)
    → IsTerminal t
    → IsTerminal (resize width cols rows t)
unfolding resize
resize-IsTerminal width cols rows t h =
    let c = at_least_one-positive cols in
    let r = at_least_one-positive rows in
    record {
      emulator = record {
        primary =
            resize_screen-IsScreen width t.emulator.cols t.emulator.rows (at_least_one cols)
              (at_least_one rows) t.emulator.primary h.emulator.primary c r;
        alternate =
            resize_screen-IsScreen width t.emulator.cols t.emulator.rows (at_least_one cols)
              (at_least_one rows) t.emulator.alternate h.emulator.alternate c r;
        sequence = h.emulator.sequence;
      };
      pending = h.pending;
    }

-- The calls that change a terminal.
pub data TerminalCall : Type 0 where
  writes : List ℕ → TerminalCall
  resizes : ℤ → ℤ → TerminalCall

unfoldable pub call : (ℕ → ℕ) → TerminalCall → VirtualTerminal → VirtualTerminal
unfolding write resize
call width (writes bytes) t = write width bytes t
call width (resizes cols rows) t = resize width cols rows t

unfoldable pub calls : (ℕ → ℕ) → List TerminalCall → VirtualTerminal → VirtualTerminal
unfolding call
calls width [] t = t
calls width (c ∷ cs) t = calls width cs (call width c t)

call-IsTerminal :
    (width : ℕ → ℕ) (c : TerminalCall) (t : VirtualTerminal)
    → IsTerminal t
    → IsTerminal (call width c t)
unfolding call
call-IsTerminal width (writes bytes) t h = write-IsTerminal width bytes t h
call-IsTerminal width (resizes cols rows) t h = resize-IsTerminal width cols rows t h

pub calls-keep :
    (width : ℕ → ℕ) (cs : List TerminalCall) (t : VirtualTerminal)
    → IsTerminal t
    → IsTerminal (calls width cs t)
unfolding calls
calls-keep width [] t h = h
calls-keep width (c ∷ cs) t h = calls-keep width cs (call width c t) (call-IsTerminal width c t h)

-- Whatever bytes are written to a new terminal of any size, with resizes in between and whatever
-- the width of each rune: no cell out of range is ever touched, each screen has its rows of equally
-- many cells, its cursor, saved cursor and scroll region lie on it, the text of a control sequence
-- has at most 4096 bytes, and at most three bytes are pending.
pub calls-IsTerminal :
    (width : ℕ → ℕ) (cols rows : ℤ) (cs : List TerminalCall)
    → IsTerminal (calls width cs (new_virtual_terminal cols rows))
calls-IsTerminal width cols rows cs =
    calls-keep width cs (new_virtual_terminal cols rows) (new_virtual_terminal-IsTerminal cols rows)
