-- ===== src/Text/Decimal/RoundTrip.antt =====
-- Decimal text: `to_string` and `parse` of integers.
use nyanpasu_utils.Prelude.{
  ℕ, zero, suc, ◌+◌, ◌-◌, ◌*◌, ◌/◌, ◌%◌, ◌<◌, ◌≡◌, refl, ap, ◌≢◌, ◌∙◌, true, some, [], ◌∷◌, arith,
  ltb, if◌then◌else◌, Bytes, All, Bool-cases, inl, inr,
}
use nyanpasu_utils.Text.Decimal.{
  rev_digits, reverse_onto, decimal, is_digit, scan, parse_digits, parse_uint,
}

abbrev pub IsDigit : ℕ → Type 0
IsDigit c = is_digit c ≡ true

scan-cons :
    (bound n d : ℕ) (s : Bytes)
    → d < 10
    → n * 10 + d < bound
    → scan bound n ((b'0' + d) ∷ s) ≡ scan bound (n * 10 + d) s
unfolding scan
scan-cons bound n d s h k = ground arith

scan-rev_digits :
    (bound f n : ℕ) (s : Bytes)
    → n < f
    → n < bound
    → scan bound 0 (reverse_onto (rev_digits f n) s) ≡ scan bound n s
unfolding rev_digits reverse_onto
scan-rev_digits bound zero n s h k = absurd (omega arith)
scan-rev_digits bound (suc f) n s h k = elim (Bool-cases (ltb n 10)) [
  | inl small ↦ rw small (
      scan-cons bound 0 (n % 10) s (omega arith) (ground arith)
      ∙ ap (λ t. scan bound t s) (ground arith))
  | inr large ↦ rw large (
      scan-rev_digits bound f (n / 10) ((b'0' + n % 10) ∷ s) (ground arith) (ground arith)
      ∙ scan-cons bound (n / 10) (n % 10) s (omega arith) (omega arith)
      ∙ ap (λ t. scan bound t s) (omega arith))
]

All-reverse_onto :
    (s out : Bytes) → All IsDigit s → All IsDigit out → All IsDigit (reverse_onto s out)
unfolding reverse_onto
All-reverse_onto [] out h k = k
All-reverse_onto (c ∷ s) out h k = All-reverse_onto s (c ∷ out) h.1 (h.0, k)

digit_lem : (n : ℕ) → IsDigit (b'0' + n % 10)
digit_lem n = ground arith

All-rev_digits : (f n : ℕ) → All IsDigit (rev_digits f n)
unfolding rev_digits
All-rev_digits zero n = tt
All-rev_digits (suc f) n = elim (Bool-cases (ltb n 10)) [
  | inl e ↦ rw e (digit_lem n, tt)
  | inr e ↦ rw e (digit_lem n, All-rev_digits f (n / 10))
]

pub decimal-All : (n : ℕ) → All IsDigit (decimal n)
unfolding decimal
decimal-All n = All-reverse_onto (rev_digits (n + 1) n) [] (All-rev_digits (n + 1) n) tt

pub parse_uint-digits :
    (bound : ℕ) (s : Bytes) → s ≢ [] → All IsDigit s → parse_uint bound s ≡ scan bound 0 s
unfolding parse_uint parse_digits
parse_uint-digits bound [] h k = absurd (h refl)
parse_uint-digits bound (c ∷ s) h k = ground (arith, k.0)

reverse_onto-ne : (s : Bytes) (c : ℕ) (out : Bytes) → reverse_onto s (c ∷ out) ≢ []
unfolding reverse_onto
reverse_onto-ne [] c out e = cc
reverse_onto-ne (d ∷ s) c out e = reverse_onto-ne s d (c ∷ out) e

rev_digits_ne : (f n : ℕ) → 0 < f → reverse_onto (rev_digits f n) [] ≢ []
unfolding rev_digits reverse_onto
rev_digits_ne zero n h = absurd (omega arith)
rev_digits_ne (suc f) n h =
    reverse_onto-ne (if ltb n 10 then [] else rev_digits f (n / 10)) (b'0' + n % 10) []

pub decimal-ne-nil : (n : ℕ) → decimal n ≢ []
unfolding decimal
decimal-ne-nil n = rev_digits_ne (n + 1) n (omega arith)

-- Reading what was written gives the number back.
pub parse_uint-decimal : (bound n : ℕ) → n < bound → parse_uint bound (decimal n) ≡ some n
parse_uint-decimal bound n h =
    parse_uint-digits bound (decimal n) (decimal-ne-nil n) (decimal-All n)
    ∙ unfold decimal scan in scan-rev_digits bound (n + 1) n [] (omega arith) h

scan_bounded : (bound acc n : ℕ) (s : Bytes) → acc < bound → scan bound acc s ≡ some n → n < bound
unfolding scan
scan_bounded bound acc n [] h e = ground arith
scan_bounded bound acc n (c ∷ s) h e =
    ground (arith, scan_bounded bound (acc * 10 + (c - b'0')) n s)

-- What is read lies in the range of its type.
pub parse_uint_bounded :
    (bound n : ℕ) (s : Bytes) → 0 < bound → parse_uint bound s ≡ some n → n < bound
unfolding parse_uint parse_digits
parse_uint_bounded bound n [] h e = cc
parse_uint_bounded bound n (c ∷ []) h e = ground (arith, scan_bounded bound 0 n (c ∷ []))
parse_uint_bounded bound n (c ∷ d ∷ s) h e =
    ground (arith, scan_bounded bound 0 n (c ∷ d ∷ s), scan_bounded bound 0 n (d ∷ s))
