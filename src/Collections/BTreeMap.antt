-- ===== src/Collections/BTreeMap.antt =====
-- `std::collections::BTreeMap` as the list of its entries in the order of their keys.
use nyanpasu_utils.Prelude.{
  ◌≡◌, refl, true, false, Option, none, some, List, [], ◌∷◌, arith, if◌then◌else◌, All, Bool-cases,
  inl, inr,
}
use mathlib.Core.Path.{subst}
use nyanpasu_utils.Collections.Key.{Key}

beq_flip : {K : Type 0} ⦃k : Key K⦄ (a b : K) → k.beq a b ≡ false → k.beq b a ≡ false
beq_flip ⦃k⦄ a b h = ground (arith, k.beq_iff a b, k.beq_iff b a)

module _ {K V : Type 0} ⦃k : Key K⦄ where
  -- `map.get(&key)`
  unfoldable pub get : K → List (K × V) → Option V
  get a [] = none
  get a ((b, v) ∷ m) = if k.beq b a then some v else get a m

  -- `map.insert(key, value)`, whose result, the former value, is `get` before it.
  unfoldable pub insert : K → V → List (K × V) → List (K × V)
  insert a v [] = (a, v) ∷ []
  insert a v ((b, w) ∷ m) =
      let later = insert a v m in
      if k.beq b a then (a, v) ∷ m else if k.blt a b then (a, v) ∷ (b, w) ∷ m else (b, w) ∷ later

  -- `map.remove(&key)`
  unfoldable pub remove : K → List (K × V) → List (K × V)
  remove a [] = []
  remove a ((b, w) ∷ m) = let later = remove a m in if k.beq b a then m else (b, w) ∷ later

  -- The keys of `m` are all above `a`.
  abbrev pub Above : K → List (K × V) → Type 0
  Above a m = All (λ (e : K × V). k.blt a e.0 ≡ true) m

  -- The entries stand in strictly increasing order of their keys.
  abbrev pub IsOrdered : List (K × V) → Type 0
  IsOrdered [] = Unit
  IsOrdered (e ∷ m) = Above e.0 m × IsOrdered m

  -- `get` after `insert`: the new value at its key, the old ones elsewhere.
  pub get-insert :
      (a b : K) (v : V) (m : List (K × V))
      → get b (insert a v m) ≡ (if k.beq a b then some v else get b m)
  unfolding get insert
  get-insert a b v [] = refl
  get-insert a b v ((c, w) ∷ m) =
      ground (arith, get-insert a b v m, k.beq_iff a b, k.beq_iff c a, k.beq_iff c b)

  pub Above-get : (a : K) (m : List (K × V)) → Above a m → get a m ≡ none
  unfolding get
  Above-get a [] h = refl
  Above-get a ((b, w) ∷ m) h = ground (arith, Above-get a m h.1, k.beq_iff b a, k.blt_irrefl a, h.0)

  Above-trans : (a b : K) (m : List (K × V)) → k.blt a b ≡ true → Above b m → Above a m
  Above-trans a b [] h q = tt
  Above-trans a b ((c, w) ∷ m) h q = (k.blt_trans a b c h q.0, Above-trans a b m h q.1)

  Above-insert :
      (a b : K) (v : V) (m : List (K × V)) → k.blt a b ≡ true → Above a m → Above a (insert b v m)
  unfolding insert
  Above-insert a b v [] h q = (h, tt)
  Above-insert a b v ((c, w) ∷ m) h q = elim (Bool-cases (k.beq c b)) [
    | inl e ↦ rw e (h, q.1)
    | inr e ↦ elim (Bool-cases (k.blt b c)) [
      | inl l ↦ rw (e, l) (h, q)
      | inr l ↦ rw (e, l) (q.0, Above-insert a b v m h q.1)
    ]
  ]

  -- `insert` keeps the order.
  pub insert-IsOrdered : (a : K) (v : V) (m : List (K × V)) → IsOrdered m → IsOrdered (insert a v m)
  unfolding insert
  insert-IsOrdered a v [] h = (tt, tt)
  insert-IsOrdered a v ((c, w) ∷ m) h = elim (Bool-cases (k.beq c a)) [
    | inl e ↦ rw e (subst (λ x. Above x m) ((k.beq_iff c a).0 e) h.0, h.1)
    | inr e ↦ elim (Bool-cases (k.blt a c)) [
      | inl l ↦ rw (e, l) ((l, Above-trans a c m l h.0), h)
      | inr l ↦
          rw (e, l)
            (
              Above-insert c a v m (k.blt_total a c l (beq_flip c a e)) h.0,
              insert-IsOrdered a v m h.1,
            )
    ]
  ]

  -- `get` after `remove`: nothing at its key, the old ones elsewhere.
  pub get-remove :
      (a b : K) (m : List (K × V))
      → IsOrdered m
      → get b (remove a m) ≡ (if k.beq a b then none else get b m)
  unfolding get remove
  get-remove a b [] h = ground arith
  get-remove a b ((c, w) ∷ m) h =
      ground (
        arith,
        get-remove a b m h.1,
        Above-get c m h.0,
        k.beq_iff a b,
        k.beq_iff c a,
        k.beq_iff c b,
      )

  Above-remove : (a b : K) (m : List (K × V)) → Above a m → Above a (remove b m)
  unfolding remove
  Above-remove a b [] q = tt
  Above-remove a b ((c, w) ∷ m) q = elim (Bool-cases (k.beq c b)) [
    | inl e ↦ rw e q.1
    | inr e ↦ rw e (q.0, Above-remove a b m q.1)
  ]

  -- `remove` keeps the order.
  pub remove-IsOrdered : (a : K) (m : List (K × V)) → IsOrdered m → IsOrdered (remove a m)
  unfolding remove
  remove-IsOrdered a [] h = tt
  remove-IsOrdered a ((c, w) ∷ m) h = elim (Bool-cases (k.beq c a)) [
    | inl e ↦ rw e h.1
    | inr e ↦ rw e (Above-remove c a m h.0, remove-IsOrdered a m h.1)
  ]

  -- What holds of all entries, and of the new one, holds after `insert`.
  pub All-insert {κ} :
      (P : K × V → Type κ) (a : K) (v : V) (m : List (K × V))
      → P (a, v)
      → All P m
      → All P (insert a v m)
  unfolding insert
  All-insert P a v [] p h = (p, tt)
  All-insert P a v ((b, w) ∷ m) p h = elim (Bool-cases (k.beq b a)) [
    | inl e ↦ rw e (p, h.1)
    | inr e ↦ elim (Bool-cases (k.blt a b)) [
      | inl l ↦ rw (e, l) (p, h)
      | inr l ↦ rw (e, l) (h.0, All-insert P a v m p h.1)
    ]
  ]

  pub All-remove {κ} :
      (P : K × V → Type κ) (a : K) (m : List (K × V)) → All P m → All P (remove a m)
  unfolding remove
  All-remove P a [] h = tt
  All-remove P a ((b, w) ∷ m) h = elim (Bool-cases (k.beq b a)) [
    | inl e ↦ rw e h.1
    | inr e ↦ rw e (h.0, All-remove P a m h.1)
  ]
