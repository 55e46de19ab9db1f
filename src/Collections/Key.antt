-- ===== src/Collections/Key.antt =====
-- The interface of a key of an ordered map (`Ord`), with the instances for integers and texts.
use nyanpasu_utils.Prelude.{
  ℕ, ◌≡◌, refl, ◌↔◌, Bool, true, false, ◌&&◌, ◌||◌, [], ◌∷◌, arith, ltb, ◌==◌, ==_iff, Bytes,
  bytes_eq, bytes_eq_iff,
}

pub record Key (K : Type 0) : Type 0 where
  pub beq : K → K → Bool
  pub blt : K → K → Bool
  pub beq_iff : (a b : K) → (beq a b ≡ true) ↔ (a ≡ b)
  pub blt_irrefl : (a : K) → blt a a ≡ false
  pub blt_trans : (a b c : K) → blt a b ≡ true → blt b c ≡ true → blt a c ≡ true
  pub blt_total : (a b : K) → blt a b ≡ false → beq a b ≡ false → blt b a ≡ true

pub nat_irrefl : (a : ℕ) → ltb a a ≡ false
nat_irrefl a = ground arith

pub nat_trans : (a b c : ℕ) → ltb a b ≡ true → ltb b c ≡ true → ltb a c ≡ true
nat_trans a b c h k = ground arith

pub nat_total : (a b : ℕ) → ltb a b ≡ false → (a == b) ≡ false → ltb b a ≡ true
nat_total a b h k = ground arith

abbrev pub nat_beq : ℕ → ℕ → Bool
nat_beq a b = a == b

instance abbrev pub nat_key : Key ℕ
nat_key = record {
  beq = nat_beq;
  blt = ltb;
  beq_iff = ==_iff;
  blt_irrefl = nat_irrefl;
  blt_trans = nat_trans;
  blt_total = nat_total;
}

-- The lexicographic order of byte strings.
unfoldable pub bytes_lt : Bytes → Bytes → Bool
bytes_lt [] [] = false
bytes_lt [] (y ∷ ys) = true
bytes_lt (x ∷ xs) [] = false
bytes_lt (x ∷ xs) (y ∷ ys) = ltb x y || (x == y && bytes_lt xs ys)

pub bytes_irrefl : (a : Bytes) → bytes_lt a a ≡ false
unfolding bytes_lt
bytes_irrefl [] = refl
bytes_irrefl (x ∷ xs) = ground (arith, bytes_irrefl xs)

pub bytes_trans : (a b c : Bytes) → bytes_lt a b ≡ true → bytes_lt b c ≡ true → bytes_lt a c ≡ true
unfolding bytes_lt
bytes_trans [] [] c h k = k
bytes_trans [] (y ∷ ys) [] h k = k
bytes_trans [] (y ∷ ys) (z ∷ zs) h k = refl
bytes_trans (x ∷ xs) [] c h k = cc
bytes_trans (x ∷ xs) (y ∷ ys) [] h k = k
bytes_trans (x ∷ xs) (y ∷ ys) (z ∷ zs) h k = ground (arith, bytes_trans xs ys zs)

pub bytes_total : (a b : Bytes) → bytes_lt a b ≡ false → bytes_eq a b ≡ false → bytes_lt b a ≡ true
unfolding bytes_lt bytes_eq
bytes_total [] [] h k = cc
bytes_total [] (y ∷ ys) h k = cc
bytes_total (x ∷ xs) [] h k = refl
bytes_total (x ∷ xs) (y ∷ ys) h k = ground (arith, bytes_total xs ys)

instance abbrev pub bytes_key : Key Bytes
bytes_key = record {
  beq = bytes_eq;
  blt = bytes_lt;
  beq_iff = bytes_eq_iff;
  blt_irrefl = bytes_irrefl;
  blt_trans = bytes_trans;
  blt_total = bytes_total;
}
