-- ===== src/Supervisor/Text/Width.antt =====
-- internal/supervisor/textpolicy/east_asian_width.go: the columns that a rune takes. The Unicode
-- tables of the marks (categories Mn and Me) are the Go library's: an argument.
pub mod Search
use codex_runner.Prelude.{
  ℕ, zero, suc, ◌+◌, ◌-◌, ◌/◌, Bool, true, false, ◌&&◌, ◌||◌, List, [], ◌∷◌, Option, none, some,
  length, get_or, ltb, leb, ◌==◌, if◌then◌else◌,
}
use codex_runner.Supervisor.Text.WideRanges.{WideRange, wide_ranges}

-- `wideRanges[i]`
abbrev pub range_at : List WideRange → ℕ → WideRange
range_at table i = get_or table i (0, 0)

-- The loop of `isWide`, with `none` when the fuel does not reach.
unfoldable pub search : List WideRange → ℕ → ℕ → ℕ → ℕ → Option ℕ
search table r zero lo hi = if ltb lo hi then none else some lo
search table r (suc fuel) lo hi =
    let mid = lo + (hi - lo) / 2 in
    let below = ltb (range_at table mid).1 r in
    let rest = search table r fuel (if below then mid + 1 else lo) (if below then hi else mid) in
    if ltb lo hi then rest else some lo

-- What `isWide` makes of the index.
abbrev pub found : List WideRange → ℕ → Option ℕ → Bool
found table r none = false
found table r (some lo) = ltb lo (length table) && leb (range_at table lo).0 r

unfoldable pub is_wide : ℕ → Bool
unfolding search
is_wide r = found wide_ranges r (search wide_ranges r (length wide_ranges) 0 (length wide_ranges))

unfoldable pub rune_width : (ℕ → Bool) → ℕ → ℕ
unfolding is_wide
rune_width is_mark r =
    if is_mark r || r == 0x200d || leb 0xfe00 r && leb r 0xfe0f || leb 0x1f3fb r && leb r 0x1f3ff
    then 0
    else if is_wide r
    then 2
    else 1

-- `DisplayWidth` of a string's runes
unfoldable pub display_width : (ℕ → Bool) → List ℕ → ℕ
unfolding rune_width
display_width is_mark [] = 0
display_width is_mark (r ∷ text) = rune_width is_mark r + display_width is_mark text
