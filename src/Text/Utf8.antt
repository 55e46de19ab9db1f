-- ===== src/Text/Utf8.antt =====
-- `std::str::from_utf8`: which byte strings are UTF-8 (table 3-7 of the Unicode standard).
use nyanpasu_utils.Prelude.{
  ℕ, zero, suc, ◌≡◌, refl, Bool, true, false, ◌&&◌, Option, none, some, [], ◌∷◌, arith, ltb, leb,
  All, ◌<◌, ◌==◌, if◌then◌else◌, Bytes, ◌++◌, Option-cases, inl, inr, append_assoc, ◌∙◌, ap,
}

-- What may come next: a first byte, or one continuation byte of a range and then more of 80..BF.
pub data Utf8State : Type 0 where
  start : Utf8State
  tail : ℕ → ℕ → ℕ → Utf8State

first_byte : ℕ → Option Utf8State
first_byte b =
    if ltb b 0x80
    then some start
    else if ltb b 0xc2
    then none
    else if ltb b 0xe0
    then some (tail 0x80 0xbf 0)
    else if b == 0xe0
    then some (tail 0xa0 0xbf 1)
    else if b == 0xed
    then some (tail 0x80 0x9f 1)
    else if ltb b 0xf0
    then some (tail 0x80 0xbf 1)
    else if b == 0xf0
    then some (tail 0x90 0xbf 2)
    else if ltb b 0xf4
    then some (tail 0x80 0xbf 2)
    else if b == 0xf4
    then some (tail 0x80 0x8f 2)
    else none

next_state : Utf8State → ℕ → Option Utf8State
unfolding first_byte
next_state start b = first_byte b
next_state (tail lo hi zero) b = if leb lo b && leb b hi then some start else none
next_state (tail lo hi (suc k)) b = if leb lo b && leb b hi then some (tail 0x80 0xbf k) else none

pub accepts : Utf8State → Bytes → Bool
accepts start [] = true
accepts (tail lo hi k) [] = false
accepts st (b ∷ s) = elim (next_state st b) [ none ↦ false | some st' ↦ accepts st' s ]

unfoldable pub is_utf8 : Bytes → Bool
unfolding accepts next_state
is_utf8 s = accepts start s

abbrev pub IsAscii : ℕ → Type 0
IsAscii b = b < 128

-- ASCII text is UTF-8.
pub is_utf8_ascii : (s : Bytes) → All IsAscii s → is_utf8 s ≡ true
unfolding is_utf8
is_utf8_ascii [] h = refl
is_utf8_ascii (b ∷ s) h = ground (arith, is_utf8_ascii s h.1)

utf8_runs : is_utf8 (0x6d ∷ 0xe7 ∷ 0x8c ∷ 0xab ∷ []) ≡ true
unfolding is_utf8
utf8_runs = refl

surrogate : is_utf8 (0xed ∷ 0xa0 ∷ 0x80 ∷ []) ≡ false
unfolding is_utf8
surrogate = refl

-- U+FFFD, the replacement character.
abbrev pub replacement : Bytes
replacement = 0xef ∷ 0xbf ∷ 0xbd ∷ []

-- The bytes read since the last character, and the text to come: each maximal part of a character
-- that does not go on is replaced.
pub lossy : Utf8State → Bytes → Bytes → Bytes
lossy start acc [] = acc
lossy (tail lo hi k) acc [] = replacement
lossy start acc (b ∷ s) = elim (next_state start b) [
  | none ↦ replacement ++ lossy start [] s
  | some st ↦ elim st [
    | start ↦ b ∷ lossy start [] s
    | tail lo hi k ↦ lossy (tail lo hi k) (b ∷ []) s
  ]
]
lossy (tail lo hi k) acc (b ∷ s) = elim (next_state (tail lo hi k) b) [
  | some st ↦ elim st [
    | start ↦ acc ++ (b ∷ lossy start [] s)
    | tail lo' hi' k' ↦ lossy (tail lo' hi' k') (acc ++ b ∷ []) s
  ]
  | none ↦ replacement ++ elim (next_state start b) [
    | none ↦ replacement ++ lossy start [] s
    | some st ↦ elim st [
      | start ↦ b ∷ lossy start [] s
      | tail lo' hi' k' ↦ lossy (tail lo' hi' k') (b ∷ []) s
    ]
  ]
]

-- `String::from_utf8_lossy`
unfoldable pub from_utf8_lossy : Bytes → Bytes
unfolding lossy next_state
from_utf8_lossy s = lossy start [] s

lossy_runs : from_utf8_lossy (0x41 ∷ 0xe7 ∷ 0x8c ∷ 0x42 ∷ []) ≡ 0x41 ∷ (replacement ++ 0x42 ∷ [])
unfolding from_utf8_lossy
lossy_runs = refl

lossy_valid :
    (s : Bytes) (st : Utf8State) (acc : Bytes)
    → accepts st s ≡ true
    → (st ≡ start → acc ≡ [])
    → lossy st acc s ≡ acc ++ s
unfolding lossy accepts
lossy_valid [] start acc h e = rw (e refl) refl
lossy_valid [] (tail lo hi k) acc h e = cc
lossy_valid (b ∷ s) start acc h e = elim (Option-cases (next_state start b)) [
  | inl n ↦ cc
  | inr (start, n) ↦
      rw (n, e refl, lossy)
        (ap (λ t. b ∷ t) (lossy_valid s start [] (rw (n, accepts) at h) (λ _. refl)))
  | inr (tail lo hi k, n) ↦
      rw (n, e refl, lossy) (lossy_valid s (tail lo hi k) (b ∷ []) (rw (n, accepts) at h) (λ q. cc))
]
lossy_valid (b ∷ s) (tail lo hi k) acc h e = elim (Option-cases (next_state (tail lo hi k) b)) [
  | inl n ↦ cc
  | inr (start, n) ↦
      rw (n, lossy)
        (ap (λ t. acc ++ b ∷ t) (lossy_valid s start [] (rw (n, accepts) at h) (λ _. refl)))
  | inr (tail lo' hi' k', n) ↦
      rw (n, lossy)
        (lossy_valid s (tail lo' hi' k') (acc ++ b ∷ []) (rw (n, accepts) at h) (λ q. cc)
          ∙ append_assoc acc (b ∷ []) s)
]

-- UTF-8 text stays as it is.
pub from_utf8_lossy_valid : (s : Bytes) → is_utf8 s ≡ true → from_utf8_lossy s ≡ s
from_utf8_lossy_valid s h = unfold is_utf8 from_utf8_lossy in lossy_valid s start [] h (λ _. refl)
