-- ===== src/Supervisor/Terminal/Write/Chunks.antt =====
-- How the output is cut into chunks does not matter.
use codex_runner.Prelude.{
  ℕ, zero, suc, ◌≤◌, ◌≡◌, ◌≢◌, refl, sym, ap, subst, ◌∙◌, not, List, [], ◌∷◌, ◌++◌, length, ltb,
  arith, Bool-cases, inl, inr,
}
use codex_runner.Supervisor.Terminal.Emulator.{Emulator}
use codex_runner.Supervisor.Terminal.Utf8.{
  Decoded, incomplete, invalid, rune, decode, decode-stable, decode-length,
}
use codex_runner.Supervisor.Terminal.Write.{
  VirtualTerminal, Round, stop, go, put_decoded, is_ground, round, consume, write,
}

-- What a round goes on by is there.
abbrev Within : Round → ℕ → Type 0
Within stop n = Unit
Within (go t k) n = k ≤ n

put_decoded-Within :
    (width : ℕ → ℕ) (u : Emulator) (d : Decoded) (n : ℕ)
    → ((ch k : ℕ) → d ≡ rune ch k → k ≤ n)
    → Within (put_decoded width u d) n
put_decoded-Within width u incomplete n h = tt
put_decoded-Within width u invalid n h = omega arith
put_decoded-Within width u (rune ch k) n h = h ch k refl

round-Within :
    (width : ℕ → ℕ) (u : Emulator) (b : ℕ) (bs : List ℕ) → Within (round width u b bs) (length bs)
unfolding round
round-Within width u b bs = elim (Bool-cases (not (is_ground u.state))) [
  | inl inside ↦ rw inside (omega arith)
  | inr outside ↦ elim (Bool-cases (ltb b 0x80)) [
    | inl ascii ↦ rw (outside, ascii) (omega arith)
    | inr long ↦
        rw (outside, long)
          (put_decoded-Within width u (decode b bs) (length bs) (decode-length b bs))
  ]
]

put_decoded-stable :
    (width : ℕ → ℕ) (u : Emulator) (d e : Decoded)
    → (d ≢ incomplete → e ≡ d)
    → put_decoded width u d ≢ stop
    → put_decoded width u e ≡ put_decoded width u d
put_decoded-stable width u incomplete e h n = absurd (n refl)
put_decoded-stable width u invalid e h n = ap (put_decoded width u) (h (λ i. cc))
put_decoded-stable width u (rune ch k) e h n = ap (put_decoded width u) (h (λ i. cc))

round-stable :
    (width : ℕ → ℕ) (u : Emulator) (b : ℕ) (bs more : List ℕ)
    → round width u b bs ≢ stop
    → round width u b (bs ++ more) ≡ round width u b bs
unfolding round
round-stable width u b bs more = elim (Bool-cases (not (is_ground u.state))) [
  | inl inside ↦ rw inside (λ n. refl)
  | inr outside ↦ elim (Bool-cases (ltb b 0x80)) [
    | inl ascii ↦ rw (outside, ascii) (λ n. refl)
    | inr long ↦
        rw (outside, long)
          (put_decoded-stable width u (decode b bs) (decode b (bs ++ more))
            (decode-stable b bs more))
  ]
]

abbrev pub resumed : (ℕ → ℕ) → Emulator → List ℕ → List ℕ → Round → Emulator × List ℕ
resumed width u rest bs stop = (u, rest)
resumed width u rest bs (go t skip) = consume width t skip bs

pub consume-resumed :
    (width : ℕ → ℕ) (u : Emulator) (b : ℕ) (bs : List ℕ) (r : Round)
    → round width u b bs ≡ r
    → consume width u 0 (b ∷ bs) ≡ resumed width u (b ∷ bs) bs r
unfolding consume
consume-resumed width u b bs r e = ap (resumed width u (b ∷ bs) bs) e

abbrev pub then_more : (ℕ → ℕ) → List ℕ → Emulator × List ℕ → Emulator × List ℕ
then_more width more left = consume width left.0 0 (left.1 ++ more)

-- The round at the first byte of two chunks.
append_after :
    (width : ℕ → ℕ) (u : Emulator) (b : ℕ) (bs more : List ℕ) (r : Round)
    → round width u b bs ≡ r
    → ((t : Emulator) (k : ℕ)
        → k ≤ length bs
        → consume width t k (bs ++ more) ≡ then_more width more (consume width t k bs))
    → consume width u 0 (b ∷ (bs ++ more)) ≡ then_more width more (consume width u 0 (b ∷ bs))
append_after width u b bs more stop e next =
    sym (ap (then_more width more) (consume-resumed width u b bs stop e))
append_after width u b bs more (go t k) e next =
    let goes : round width u b bs ≢ stop = λ n. cc in
    let k_within : k ≤ length bs =
      subst (λ r. Within r (length bs)) e (round-Within width u b bs) in
    consume-resumed width u b (bs ++ more) (go t k) (round-stable width u b bs more goes ∙ e)
    ∙ next t k k_within
    ∙ sym (ap (then_more width more) (consume-resumed width u b bs (go t k) e))

consume-append :
    (width : ℕ → ℕ) (u : Emulator) (skip : ℕ) (bs more : List ℕ)
    → skip ≤ length bs
    → consume width u skip (bs ++ more) ≡ then_more width more (consume width u skip bs)
unfolding consume
consume-append width u zero [] more l = refl
consume-append width u (suc skip) [] more l = absurd (omega arith)
consume-append width u (suc skip) (b ∷ bs) more l =
    consume-append width u skip bs more (omega arith)
consume-append width u zero (b ∷ bs) more l =
    append_after width u b bs more (round width u b bs) refl
      (λ t k m. consume-append width t k bs more m)

append_assoc {ℓ} : {A : Type ℓ} (xs ys zs : List A) → xs ++ (ys ++ zs) ≡ (xs ++ ys) ++ zs
append_assoc [] ys zs = refl
append_assoc (x ∷ xs) ys zs = ap (λ l. x ∷ l) (append_assoc xs ys zs)

-- Output written in two chunks leaves the terminal as in one write, wherever the cut falls: within
-- a rune's bytes or within an escape sequence too.
pub write-append :
    (width : ℕ → ℕ) (first second : List ℕ) (t : VirtualTerminal)
    → write width (first ++ second) t ≡ write width second (write width first t)
unfolding write
write-append width first second t =
    ap (λ left. record { emulator = left.0; utf8_pending = left.1 })
      (ap (consume width t.emulator 0) (append_assoc t.utf8_pending first second)
        ∙ consume-append width t.emulator 0 (t.utf8_pending ++ first) second (omega arith))
