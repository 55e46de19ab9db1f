-- ===== src/Text/Words.antt =====
-- `str::split_whitespace`, `trim` and the search for the last occurrence of a character, on UTF-8.
pub mod Laws
use nyanpasu_utils.Prelude.{
  ℕ, zero, suc, ◌≡◌, refl, Bool, true, false, ◌&&◌, ◌||◌, Option, none, some, List, [], ◌∷◌, ◌++◌,
  Bytes, codes, leb, ◌==◌, if◌then◌else◌,
}
use nyanpasu_utils.Text.Lines.{push_front, is_empty}

abbrev one_byte : ℕ → Bool
one_byte a = (leb 9 a && leb a 13) || a == 32

abbrev two_bytes : ℕ → ℕ → Bool
two_bytes a b = a == 0xc2 && (b == 0x85 || b == 0xa0)

abbrev three_bytes : ℕ → ℕ → ℕ → Bool
three_bytes a b c =
    (a == 0xe1 && (b == 0x9a && c == 0x80))
    || ((a == 0xe2
          && (b == 0x80
              && ((leb 0x80 c && leb c 0x8a) || ((leb 0xa8 c && leb c 0xa9) || c == 0xaf))))
        || ((a == 0xe2 && (b == 0x81 && c == 0x9f)) || (a == 0xe3 && (b == 0x80 && c == 0x80))))

-- The number of bytes of the white space character (`White_Space`) that the text begins with, or 0.
abbrev pub space_len : ℕ → Bytes → ℕ
space_len a [] = if one_byte a then 1 else 0
space_len a (b ∷ []) = if one_byte a then 1 else if two_bytes a b then 2 else 0
space_len a (b ∷ c ∷ s) =
    if one_byte a then 1 else if two_bytes a b then 2 else if three_bytes a b c then 3 else 0

-- The pieces between white space characters; the first number is of bytes still to skip.
unfoldable pub pieces : ℕ → Bytes → List Bytes
pieces k [] = [] ∷ []
pieces (suc k) (c ∷ s) = pieces k s
pieces zero (c ∷ s) = elim (space_len c s) [
  | zero ↦ push_front c (pieces zero s)
  | suc k ↦ [] ∷ pieces k s
]

abbrev pub nonempty : List Bytes → List Bytes
nonempty [] = []
nonempty ([] ∷ ps) = nonempty ps
nonempty ((c ∷ p) ∷ ps) = (c ∷ p) ∷ nonempty ps

-- `s.split_whitespace()`
unfoldable pub split_whitespace : Bytes → List Bytes
unfolding pieces
split_whitespace s = nonempty (pieces 0 s)

unfoldable pub all_space : Bytes → Bool
unfolding split_whitespace
all_space s = elim (split_whitespace s) [ [] ↦ true | _ ∷ _ ↦ false ]

unfoldable pub trim_start : ℕ → Bytes → Bytes
trim_start k [] = []
trim_start (suc k) (c ∷ s) = trim_start k s
trim_start zero (c ∷ s) = elim (space_len c s) [ zero ↦ c ∷ s | suc k ↦ trim_start k s ]

unfoldable pub trim_end : Bytes → Bytes
unfolding all_space
trim_end [] = []
trim_end (c ∷ s) = if all_space (c ∷ s) then [] else c ∷ trim_end s

-- `s.trim()`
unfoldable pub trim : Bytes → Bytes
unfolding trim_start trim_end
trim s = trim_end (trim_start 0 s)

-- What follows the last `sep`: `s[s.rfind(sep)? + 1..]`.
unfoldable pub after_last : ℕ → Bytes → Option Bytes
after_last sep [] = none
after_last sep (c ∷ s) = elim (after_last sep s) [
  | some t ↦ some t
  | none ↦ if c == sep then some s else none
]

trim_runs : trim (codes " \t7 8\r\n") ≡ codes "7 8"
unfolding trim
trim_runs = refl
