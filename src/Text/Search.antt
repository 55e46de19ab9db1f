-- ===== src/Text/Search.antt =====
-- `str::find`, `str::rfind` and the slices of a `str`, on bytes.
pub mod Laws
use nyanpasu_utils.Prelude.{
  ℕ, zero, suc, ◌+◌, ◌-◌, ◌≤◌, ◌≡◌, refl, Bool, true, false, not, ◌&&◌, Option, none, some, [], ◌∷◌,
  ◌++◌, Bytes, codes, length, take, drop, ltb, leb, ◌==◌, if◌then◌else◌,
}

-- `s.starts_with(needle)`
pub starts_with : Bytes → Bytes → Bool
starts_with [] s = true
starts_with (c ∷ needle) [] = false
starts_with (c ∷ needle) (b ∷ s) = c == b && starts_with needle s

-- `s.find(needle)`: where the first occurrence starts.
unfoldable pub find : Bytes → Bytes → Option ℕ
unfolding starts_with
find needle [] = if starts_with needle [] then some 0 else none
find needle (b ∷ s) =
    if starts_with needle (b ∷ s)
    then some 0
    else elim (find needle s) [ none ↦ none | some i ↦ some (suc i) ]

-- `s.rfind(c)`: where the last occurrence of a character of one byte is.
unfoldable pub rfind : ℕ → Bytes → Option ℕ
rfind c [] = none
rfind c (b ∷ s) = elim (rfind c s) [
  | some i ↦ some (suc i)
  | none ↦ if b == c then some 0 else none
]

-- `s.contains(needle)`
unfoldable pub contains : Bytes → Bytes → Bool
unfolding find
contains needle s = elim (find needle s) [ none ↦ false | some _ ↦ true ]

-- The rest starts with no continuation byte.
abbrev pub at_boundary : Bytes → Bool
at_boundary [] = true
at_boundary (b ∷ _) = not (leb 0x80 b && ltb b 0xc0)

-- `s[start..end]`; none where it panics: out of order, out of range, or within a character.
unfoldable pub slice : Bytes → ℕ → ℕ → Option Bytes
slice s start end =
    if leb start end
      && (leb end (length s) && (at_boundary (drop start s) && at_boundary (drop end s)))
    then some (take (end - start) (drop start s))
    else none

find_runs : find (codes "ab") (codes "aaab") ≡ some 2
unfolding find
find_runs = refl

slice_runs : slice (codes "abcd") 1 3 ≡ some (codes "bc")
unfolding slice
slice_runs = refl
