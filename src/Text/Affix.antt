-- ===== src/Text/Affix.antt =====
-- `str::strip_prefix`, `strip_suffix`, on bytes.
use nyanpasu_utils.Prelude.{
  ℕ, ◌≡◌, refl, ap, false, Option, none, some, [], ◌∷◌, ◌++◌, Bytes, bytes_eq, bytes_eq_iff,
  bytes_eq_refl, length, length-append, ◌==◌, ==_refl, if◌then◌else◌, arith, Bool-cases, inl, inr,
}
use mathlib.Core.Option

unfoldable pub strip_prefix : Bytes → Bytes → Option Bytes
strip_prefix [] s = some s
strip_prefix (p ∷ ps) [] = none
strip_prefix (p ∷ ps) (c ∷ s) = if c == p then strip_prefix ps s else none

unfoldable pub strip_suffix : Bytes → Bytes → Option Bytes
strip_suffix suf [] = if bytes_eq [] suf then some [] else none
strip_suffix suf (c ∷ s) =
    if bytes_eq (c ∷ s) suf then some [] else Option.map (λ t. c ∷ t) (strip_suffix suf s)

-- A prefix is taken off what it stands before.
pub strip_prefix-append : (p s : Bytes) → strip_prefix p (p ++ s) ≡ some s
unfolding strip_prefix
strip_prefix-append [] s = refl
strip_prefix-append (c ∷ p) s = rw (==_refl c) (strip_prefix-append p s)

longer : (d suf : Bytes) (c : ℕ) → bytes_eq (c ∷ d ++ suf) suf ≡ false
longer d suf c = elim (Bool-cases (bytes_eq (c ∷ d ++ suf) suf)) [
  | inl e ↦
      absurd (omega (arith, ap length ((bytes_eq_iff (c ∷ d ++ suf) suf).0 e), length-append d suf))
  | inr e ↦ e
]

strip_suffix_self : (suf : Bytes) → strip_suffix suf suf ≡ some []
unfolding strip_suffix
strip_suffix_self [] = unfold bytes_eq in refl
strip_suffix_self (c ∷ s) = rw (bytes_eq_refl (c ∷ s))

-- A suffix is taken off what it stands behind.
pub strip_suffix-append : (d suf : Bytes) → strip_suffix suf (d ++ suf) ≡ some d
unfolding strip_suffix
strip_suffix-append [] suf = strip_suffix_self suf
strip_suffix-append (c ∷ d) suf = rw (longer d suf c, strip_suffix-append d suf)
