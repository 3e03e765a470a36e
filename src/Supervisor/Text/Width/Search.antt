-- ===== src/Supervisor/Text/Width/Search.antt =====
-- The binary search of `isWide` ends, and finds what a look at every range finds.
use codex_runner.Prelude.{
  ℕ, zero, suc, ◌+◌, ◌-◌, ◌/◌, ◌≤◌, ◌<◌, ◌≡◌, ◌∙◌, refl, ap, Bool, true, false, ◌&&◌, ◌||◌, List,
  [], ◌∷◌, some, length, ltb, leb, if◌then◌else◌, arith, Bool-cases, inl, inr,
}
use codex_runner.Supervisor.Text.WideRanges.{WideRange, wide_ranges}
use codex_runner.Supervisor.Text.Width.{range_at, search, found, is_wide}

-- The loop of `isWide` ends: with a round of fuel for each index between its bounds it comes to an
-- index, which lies between the bounds, whatever the table and the rune.
pub search-ends :
    (table : List WideRange) (r fuel lo hi : ℕ)
    → lo ≤ hi
    → hi - lo ≤ fuel
    → (i : ℕ) × ((search table r fuel lo hi ≡ some i) × ((lo ≤ i) × (i ≤ hi)))
unfolding search
search-ends table r zero lo hi l enough =
    let e : ltb lo hi ≡ false = ground arith in (lo, (rw e refl, (omega arith, l)))
search-ends table r (suc fuel) lo hi l enough = elim (Bool-cases (ltb lo hi)) [
  | inr met ↦ (lo, (rw met refl, (omega arith, l)))
  | inl apart ↦
      let mid = lo + (hi - lo) / 2 in
      let inside : (lo ≤ mid) × (mid < hi) = ground arith in
      elim (Bool-cases (ltb (range_at table mid).1 r)) [
        | inl below ↦
            let next =
              search-ends table r fuel (mid + 1) hi (omega (arith, inside))
                (omega (arith, inside)) in
            (next.0, (rw (apart, below) next.1.0, ground (arith, next.1.1)))
        | inr above ↦
            let next =
              search-ends table r fuel lo mid (omega (arith, inside)) (omega (arith, inside)) in
            (next.0, (rw (apart, above) next.1.0, ground (arith, next.1.1)))
      ]
]

-- The ranges at the front that end before the rune.
abbrev passed : ℕ → List WideRange → ℕ
passed r [] = 0
passed r (w ∷ table) = if ltb w.1 r then suc (passed r table) else 0

-- Each range ends before the next one begins; the first begins at `low` or later.
abbrev sorted_from : ℕ → List WideRange → Bool
sorted_from low [] = true
sorted_from low (w ∷ table) = leb low w.0 && (leb w.0 w.1 && sorted_from (suc w.1) table)

-- The rune is in one of the ranges.
abbrev pub listed : ℕ → List WideRange → Bool
listed r [] = false
listed r (w ∷ table) = (leb w.0 r && leb r w.1) || listed r table

passed-few : (r : ℕ) (table : List WideRange) → passed r table ≤ length table
passed-few r [] = omega arith
passed-few r (w ∷ table) = ground (arith, passed-few r table)

passed-below :
    (r : ℕ) (table : List WideRange) (i : ℕ) → i < passed r table → (range_at table i).1 < r
passed-below r [] i l = absurd (omega arith)
passed-below r (w ∷ table) zero l = ground arith
passed-below r (w ∷ table) (suc i) l = ground (arith, passed-below r table i)

sorted-low :
    (low : ℕ) (table : List WideRange) (i : ℕ)
    → sorted_from low table ≡ true
    → i < length table
    → (low ≤ (range_at table i).0) × ((range_at table i).0 ≤ (range_at table i).1)
sorted-low low [] i h l = absurd (omega arith)
sorted-low low (w ∷ table) zero h l = ground arith
sorted-low low (w ∷ table) (suc i) h l =
    let next = sorted-low (suc w.1) table i (ground arith) (omega arith) in ground (arith, next)

passed-above :
    (r low : ℕ) (table : List WideRange) (i : ℕ)
    → sorted_from low table ≡ true
    → passed r table ≤ i
    → i < length table
    → r ≤ (range_at table i).1
passed-above r low [] i h p l = absurd (omega arith)
passed-above r low (w ∷ table) zero h p l = ground arith
passed-above r low (w ∷ table) (suc i) h p l = elim (Bool-cases (ltb w.1 r)) [
  | inl below ↦ passed-above r (suc w.1) table i (ground arith) (ground arith) (omega arith)
  | inr above ↦
      let next = sorted-low (suc w.1) table i (ground arith) (omega arith) in ground (arith, next)
]

-- The loop comes to the number of the ranges that end before the rune.
search-passed :
    (table : List WideRange) (r fuel lo hi : ℕ)
    → sorted_from 0 table ≡ true
    → hi ≤ length table
    → lo ≤ passed r table
    → passed r table ≤ hi
    → hi - lo ≤ fuel
    → search table r fuel lo hi ≡ some (passed r table)
unfolding search
search-passed table r zero lo hi h l p q enough =
    let e : ltb lo hi ≡ false = ground arith in
    let same : lo ≡ passed r table = omega arith in rw e (ap some same)
search-passed table r (suc fuel) lo hi h l p q enough = elim (Bool-cases (ltb lo hi)) [
  | inr met ↦ let same : lo ≡ passed r table = ground arith in rw met (ap some same)
  | inl apart ↦
      let mid = lo + (hi - lo) / 2 in
      let inside : (lo ≤ mid) × (mid < hi) = ground arith in
      elim (Bool-cases (ltb (range_at table mid).1 r)) [
        | inl below ↦
            rw (apart, below)
              (search-passed table r fuel (mid + 1) hi h l
                (ground (arith, passed-above r 0 table mid h, inside)) q (omega (arith, inside)))
        | inr above ↦
            rw (apart, above)
              (search-passed table r fuel lo mid h (omega (arith, inside)) p
                (ground (arith, passed-below r table mid)) (omega (arith, inside)))
      ]
]

listed-low :
    (r low : ℕ) (table : List WideRange)
    → sorted_from low table ≡ true
    → r < low
    → listed r table ≡ false
listed-low r low [] h l = refl
listed-low r low (w ∷ table) h l =
    let next = listed-low r (suc w.1) table (ground arith) (ground arith) in ground (arith, next)

found-listed :
    (r low : ℕ) (table : List WideRange)
    → sorted_from low table ≡ true
    → found table r (some (passed r table)) ≡ listed r table
found-listed r low [] h = refl
found-listed r low (w ∷ table) h = elim (Bool-cases (ltb w.1 r)) [
  | inl below ↦ let next = found-listed r (suc w.1) table (ground arith) in ground (arith, next)
  | inr above ↦ elim (Bool-cases (leb w.0 r)) [
    | inl inside ↦ ground arith
    | inr before ↦
        let next = listed-low r (suc w.1) table (ground arith) (ground arith) in
        ground (arith, next)
  ]
]

-- A rune is wide exactly when one of the ranges of the table holds it.
pub is_wide-listed : (r : ℕ) → is_wide r ≡ listed r wide_ranges
unfolding is_wide
is_wide-listed r =
    ap (found wide_ranges r) (
      search-passed wide_ranges r (length wide_ranges) 0 (length wide_ranges) refl (omega arith)
        (omega arith) (passed-few r wide_ranges) (omega arith))
    ∙ found-listed r 0 wide_ranges refl
