-- ===== src/Text/Decimal.antt =====
-- `ToString` of unsigned integers and `str::parse` into them, on bytes.
pub mod RoundTrip
use nyanpasu_utils.Prelude.{
  ℕ, zero, suc, ◌+◌, ◌-◌, ◌*◌, ◌/◌, ◌%◌, ◌^◌, ◌≤◌, ◌<◌, ◌≡◌, refl, ap, ◌∙◌, Bool, true, false, ◌&&◌,
  Option, none, some, List, [], ◌∷◌, ◌++◌, append_assoc, arith, ltb, leb, ◌==◌, if◌then◌else◌,
  Bytes, codes, All, Bool-cases,
}

-- The digits of `n`, last first; `f` bounds their number.
unfoldable pub rev_digits : ℕ → ℕ → Bytes
rev_digits zero n = []
rev_digits (suc f) n =
    let more = rev_digits f (n / 10) in (b'0' + n % 10) ∷ (if ltb n 10 then [] else more)

unfoldable pub reverse_onto : Bytes → Bytes → Bytes
reverse_onto [] out = out
reverse_onto (c ∷ s) out = reverse_onto s (c ∷ out)

-- `n.to_string()`. Every `n` has at most `n + 1` digits.
unfoldable pub decimal : ℕ → Bytes
unfolding rev_digits reverse_onto
decimal n = reverse_onto (rev_digits (n + 1) n) []

abbrev pub is_digit : ℕ → Bool
is_digit c = leb b'0' c && leb c b'9'

-- The digits of a number below `bound`: an overflow or another character is an error.
pub scan : ℕ → ℕ → Bytes → Option ℕ
scan bound acc [] = some acc
scan bound acc (c ∷ s) =
    let acc' = acc * 10 + (c - b'0') in
    let rest = scan bound acc' s in if is_digit c && ltb acc' bound then rest else none

-- `parse` after the sign: no digit at all is an error.
pub parse_digits : ℕ → Bytes → Option ℕ
parse_digits bound [] = none
parse_digits bound (c ∷ s) = scan bound 0 (c ∷ s)

-- `str::parse::<u32>()` and the like: one leading `+` is allowed, a `-` is not.
unfoldable pub parse_uint : ℕ → Bytes → Option ℕ
unfolding parse_digits scan
parse_uint bound [] = none
parse_uint bound (c ∷ s) = if c == b'+' then parse_digits bound s else parse_digits bound (c ∷ s)

decimal_runs : decimal 20417 ≡ codes "20417"
unfolding decimal
decimal_runs = refl

parse_runs : parse_uint (2 ^ 32) (codes "+0042") ≡ some 42
unfolding parse_uint
parse_runs = refl

parse_overflows : parse_uint (2 ^ 32) (codes "4294967296") ≡ none
unfolding parse_uint
parse_overflows = refl
