-- ===== src/Text/Search/Laws.antt =====
-- `find`, `rfind` and slices: where a piece of a text that was put together is found.
use nyanpasu_utils.Prelude.{
  ℕ, zero, suc, ◌+◌, ◌-◌, ◌≤◌, ◌≡◌, refl, sym, ap, ◌∙◌, true, none, some, [], ◌∷◌, ◌++◌, Bytes,
  append_assoc, length, length-append, take, drop, arith, ==_refl, le→leb, Bool-cases, inl, inr,
}
use nyanpasu_utils.Text.Search.{starts_with, find, rfind, at_boundary, slice}
use nyanpasu_utils.Text.Lines.Laws.{Lacks}
use nyanpasu_utils.Text.Utf8.{is_utf8}

pub starts_with-append : (needle rest : Bytes) → starts_with needle (needle ++ rest) ≡ true
unfolding starts_with
starts_with-append [] rest = refl
starts_with-append (c ∷ needle) rest = rw (==_refl c) (starts_with-append needle rest)

pub find_lacking : (c : ℕ) (needle s : Bytes) → Lacks c s → find (c ∷ needle) s ≡ none
unfolding find
find_lacking c needle [] h = refl
find_lacking c needle (b ∷ s) h = ground (arith, find_lacking c needle s h.1, h.0)

-- A needle is found behind a text that lacks its first character.
pub find_first :
    (c : ℕ) (needle pre rest : Bytes)
    → Lacks c pre
    → find (c ∷ needle) (pre ++ (c ∷ needle ++ rest)) ≡ some (length pre)
unfolding find
find_first c needle [] rest h = rw (==_refl c, starts_with-append needle rest) refl
find_first c needle (b ∷ pre) rest h = ground (arith, find_first c needle pre rest h.1, h.0)

-- A needle that stands somewhere is found there or before.
pub find_before :
    (c : ℕ) (needle pre rest : Bytes)
    → (i : ℕ) × (find (c ∷ needle) (pre ++ (c ∷ needle ++ rest)) ≡ some i) × (i ≤ length pre)
unfolding find
find_before c needle [] rest = (0, rw (==_refl c, starts_with-append needle rest) refl, omega arith)
find_before c needle (b ∷ pre) rest =
    let (i, e, le) = find_before c needle pre rest in
    elim (Bool-cases (starts_with (c ∷ needle) (b ∷ pre ++ (c ∷ needle ++ rest)))) [
      | inl t ↦ (0, rw t refl, omega arith)
      | inr f ↦ (suc i, rw (f, e) refl, omega arith)
    ]

pub rfind_lacking : (c : ℕ) (s : Bytes) → Lacks c s → rfind c s ≡ none
unfolding rfind
rfind_lacking c [] h = refl
rfind_lacking c (b ∷ s) h = rw (rfind_lacking c s h.1, h.0) refl

-- The last occurrence of a character is the one behind which it is lacking.
pub rfind_last :
    (c : ℕ) (pre post : Bytes) → Lacks c post → rfind c (pre ++ c ∷ post) ≡ some (length pre)
unfolding rfind
rfind_last c [] post h = rw (rfind_lacking c post h, ==_refl c) refl
rfind_last c (b ∷ pre) post h = rw (rfind_last c pre post h) refl

drop-append : (s t : Bytes) → drop (length s) (s ++ t) ≡ t
drop-append [] t = refl
drop-append (b ∷ s) t = drop-append s t

take-append : (s t : Bytes) → take (length s) (s ++ t) ≡ s
take-append [] t = refl
take-append (b ∷ s) t = ap (λ u. b ∷ u) (take-append s t)

drop_middle : (pre msg post : Bytes) → drop (length pre + length msg) (pre ++ (msg ++ post)) ≡ post
drop_middle pre msg post =
    ap (λ n. drop n (pre ++ (msg ++ post))) (sym (length-append pre msg))
    ∙ ap (λ t. drop (length (pre ++ msg)) t) (sym (append_assoc pre msg post))
    ∙ drop-append (pre ++ msg) post

take_middle :
    (pre msg post : Bytes)
    → take (length pre + length msg - length pre) (drop (length pre) (pre ++ (msg ++ post))) ≡ msg
take_middle pre msg post =
    ap (λ n. take n (drop (length pre) (pre ++ (msg ++ post)))) (sub_self (length pre) (length msg))
    ∙ ap (λ t. take (length msg) t) (drop-append pre (msg ++ post))
    ∙ take-append msg post
  where
    sub_self : (m n : ℕ) → m + n - m ≡ n
    sub_self m n = omega arith

-- A slice of a text that was put together, at characters' boundaries.
pub slice_middle :
    (pre msg post : Bytes)
    → at_boundary (msg ++ post) ≡ true
    → at_boundary post ≡ true
    → slice (pre ++ (msg ++ post)) (length pre) (length pre + length msg) ≡ some msg
unfolding slice
slice_middle pre msg post h k =
    rw
      (
        le→leb (length pre) (length pre + length msg) (omega arith),
        le→leb (length pre + length msg) (length (pre ++ (msg ++ post)))
            (omega (arith, length-append pre (msg ++ post), length-append msg post)),
        drop_middle pre msg post,
        k,
      )
      (rw (ap at_boundary (drop-append pre (msg ++ post)) ∙ h) (ap some (take_middle pre msg post)))

-- UTF-8 text starts with no continuation byte.
pub at_boundary-append :
    (s t : Bytes) → is_utf8 s ≡ true → at_boundary t ≡ true → at_boundary (s ++ t) ≡ true
unfolding is_utf8
at_boundary-append [] t h k = k
at_boundary-append (b ∷ s) t h k = ground arith

-- An occurrence starts within the text.
pub find-le-length : (needle s : Bytes) (i : ℕ) → find needle s ≡ some i → i ≤ length s
unfolding find
find-le-length needle [] i h = ground arith
find-le-length needle (b ∷ s) zero h = omega arith
find-le-length needle (b ∷ s) (suc i) h = ground (arith, find-le-length needle s i)
