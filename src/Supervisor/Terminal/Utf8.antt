-- ===== src/Supervisor/Terminal/Utf8.antt =====
-- The Go library's `utf8.DecodeRune` and `utf8.FullRune`, on a first byte from 0x80 and those after
-- it, as internal/supervisor/vterm.go uses them.
use codex_runner.Prelude.{
  ℕ, zero, suc, ◌+◌, ◌-◌, ◌*◌, ◌≤◌, ◌<◌, ◌≡◌, ◌≢◌, refl, ◌&&◌, List, [], ◌∷◌, ◌++◌, length, leb,
  ◌==◌, if◌then◌else◌, Bool-cases, inl, inr, arith,
}

-- A rune comes with the number of bytes it takes after the first one.
pub data Decoded : Type 0 where
  incomplete : Decoded
  invalid : Decoded
  rune : ℕ → ℕ → Decoded

-- The bytes that the first one announces.
abbrev pub announced : ℕ → ℕ
announced b =
    if leb 0xc2 b && leb b 0xdf
    then 1
    else if leb 0xe0 b && leb b 0xef
    then 2
    else if leb 0xf0 b && leb b 0xf4
    then 3
    else 0

-- The bits of the first byte, whose mark depends on what it announces.
abbrev lead_bits : ℕ → ℕ
lead_bits b = if leb b 0xdf then b - 0xc0 else if leb b 0xef then b - 0xe0 else b - 0xf0

-- The second byte's range rules out the overlong forms, the surrogates and what is out of range.
abbrev lowest : ℕ → ℕ
lowest b = if b == 0xe0 then 0xa0 else if b == 0xf0 then 0x90 else 0x80

abbrev highest : ℕ → ℕ
highest b = if b == 0xed then 0x9f else if b == 0xf4 then 0x8f else 0xbf

unfoldable pub decode_tail : ℕ → ℕ → ℕ → ℕ → ℕ → List ℕ → Decoded
decode_tail lo hi value extra zero bs = rune value extra
decode_tail lo hi value extra (suc need) [] = incomplete
decode_tail lo hi value extra (suc need) (b ∷ bs) =
    let rest = decode_tail 0x80 0xbf (value * 64 + (b - 0x80)) extra need bs in
    if leb lo b && leb b hi then rest else invalid

unfoldable pub decode_announced : ℕ → ℕ → List ℕ → Decoded
unfolding decode_tail
decode_announced b zero bs = invalid
decode_announced b (suc n) bs = decode_tail (lowest b) (highest b) (lead_bits b) (suc n) (suc n) bs

unfoldable pub decode : ℕ → List ℕ → Decoded
unfolding decode_announced
decode b bs = decode_announced b (announced b) bs

-- Bytes that follow change nothing once the decision is made.
decode_tail-stable :
    (lo hi value extra need : ℕ) (bs more : List ℕ)
    → decode_tail lo hi value extra need bs ≢ incomplete
    → decode_tail lo hi value extra need (bs ++ more) ≡ decode_tail lo hi value extra need bs
unfolding decode_tail
decode_tail-stable lo hi value extra zero bs more h = refl
decode_tail-stable lo hi value extra (suc need) [] more h = absurd (h refl)
decode_tail-stable lo hi value extra (suc need) (b ∷ bs) more h =
    elim (Bool-cases (leb lo b && leb b hi)) [
      | inl inside ↦
          ground (arith, decode_tail-stable 0x80 0xbf (value * 64 + (b - 0x80)) extra need bs more)
      | inr outside ↦ rw outside refl
    ]

-- A rune's bytes are there.
decode_tail-length :
    (lo hi value extra need : ℕ) (bs : List ℕ) (ch k : ℕ)
    → decode_tail lo hi value extra need bs ≡ rune ch k
    → (need ≤ length bs) × (k ≡ extra)
unfolding decode_tail
decode_tail-length lo hi value extra zero bs ch k h = ground arith
decode_tail-length lo hi value extra (suc need) [] ch k h = cc
decode_tail-length lo hi value extra (suc need) (b ∷ bs) ch k h =
    ground (arith, decode_tail-length 0x80 0xbf (value * 64 + (b - 0x80)) extra need bs ch k)

decode_tail-few :
    (lo hi value extra need : ℕ) (bs : List ℕ)
    → decode_tail lo hi value extra need bs ≡ incomplete
    → length bs < need
unfolding decode_tail
decode_tail-few lo hi value extra zero bs h = cc
decode_tail-few lo hi value extra (suc need) [] h = omega arith
decode_tail-few lo hi value extra (suc need) (b ∷ bs) h =
    ground (arith, decode_tail-few 0x80 0xbf (value * 64 + (b - 0x80)) extra need bs)

decode_announced-stable :
    (b n : ℕ) (bs more : List ℕ)
    → decode_announced b n bs ≢ incomplete
    → decode_announced b n (bs ++ more) ≡ decode_announced b n bs
unfolding decode_announced
decode_announced-stable b zero bs more h = refl
decode_announced-stable b (suc n) bs more h =
    decode_tail-stable (lowest b) (highest b) (lead_bits b) (suc n) (suc n) bs more h

decode_announced-length :
    (b n : ℕ) (bs : List ℕ) (ch k : ℕ) → decode_announced b n bs ≡ rune ch k → k ≤ length bs
unfolding decode_announced
decode_announced-length b zero bs ch k h = cc
decode_announced-length b (suc n) bs ch k h =
    ground
      (arith, decode_tail-length (lowest b) (highest b) (lead_bits b) (suc n) (suc n) bs ch k h)

decode_announced-few :
    (b n : ℕ) (bs : List ℕ) → decode_announced b n bs ≡ incomplete → length bs < n
unfolding decode_announced
decode_announced-few b zero bs h = cc
decode_announced-few b (suc n) bs h =
    decode_tail-few (lowest b) (highest b) (lead_bits b) (suc n) (suc n) bs h

announced-small : (b : ℕ) → announced b ≤ 3
announced-small b = ground arith

pub decode-stable :
    (b : ℕ) (bs more : List ℕ) → decode b bs ≢ incomplete → decode b (bs ++ more) ≡ decode b bs
unfolding decode
decode-stable b bs more h = decode_announced-stable b (announced b) bs more h

pub decode-length : (b : ℕ) (bs : List ℕ) (ch k : ℕ) → decode b bs ≡ rune ch k → k ≤ length bs
unfolding decode
decode-length b bs ch k h = decode_announced-length b (announced b) bs ch k h

pub decode-few : (b : ℕ) (bs : List ℕ) → decode b bs ≡ incomplete → length bs < 3
unfolding decode
decode-few b bs h = omega (arith, decode_announced-few b (announced b) bs h, announced-small b)
