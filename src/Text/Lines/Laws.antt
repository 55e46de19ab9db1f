-- ===== src/Text/Lines/Laws.antt =====
-- `split`, `lines` and `join`: what splitting gives back of what was joined.
use nyanpasu_utils.Prelude.{
  ℕ, ◌≡◌, refl, sym, ap, ◌∙◌, Bool, true, false, none, List, [], ◌∷◌, ◌++◌, arith, not, ◌&&◌, ◌==◌,
  ==_refl, Bytes, All, Bool-cases, inl, inr, ==_iff,
}
use nyanpasu_utils.Text.Lines.{
  lf, cr, push_front, lines_of, split, strip_cr, lines, join, unlines, split_once,
}

-- The text has no character `sep`.
abbrev pub Lacks : ℕ → Bytes → Type 0
Lacks sep = All (λ c. (c == sep) ≡ false)

split-append : (sep : ℕ) (l s : Bytes) → Lacks sep l → split sep (l ++ sep ∷ s) ≡ l ∷ split sep s
unfolding split
split-append sep [] s h = rw (==_refl sep)
split-append sep (c ∷ l) s h = ground (arith, split-append sep l s h.1, h.0)

split_lacking : (sep : ℕ) (l : Bytes) → Lacks sep l → split sep l ≡ l ∷ []
unfolding split
split_lacking sep [] h = refl
split_lacking sep (c ∷ l) h = ground (arith, split_lacking sep l h.1, h.0)

-- Splitting what was joined gives the pieces back, if there is one and none holds the separator.
pub split-join :
    (sep : ℕ) (l : Bytes) (ls : List Bytes)
    → All (Lacks sep) (l ∷ ls)
    → split sep (join sep (l ∷ ls)) ≡ l ∷ ls
unfolding join
split-join sep l [] h = split_lacking sep l h.0
split-join sep l (m ∷ ls) h =
    split-append sep l (join sep (m ∷ ls)) h.0 ∙ ap (λ t. l ∷ t) (split-join sep m ls h.1)

split_some : (sep : ℕ) (s : Bytes) → (p : Bytes) × (ps : List Bytes) × (split sep s ≡ p ∷ ps)
unfolding split
split_some sep [] = ([], [], refl)
split_some sep (c ∷ s) =
    let (p, ps, e) = split_some sep s in
    elim (Bool-cases (c == sep)) [
      | inl q ↦ ([], split sep s, rw q)
      | inr q ↦ (c ∷ p, ps, rw (q, e))
    ]

join-push_front :
    (sep c : ℕ) (p : Bytes) (ps : List Bytes)
    → join sep (push_front c (p ∷ ps)) ≡ c ∷ join sep (p ∷ ps)
unfolding join
join-push_front sep c p [] = refl
join-push_front sep c p (q ∷ ps) = refl

join_empty :
    (sep : ℕ) (p : Bytes) (ps : List Bytes) → join sep ([] ∷ p ∷ ps) ≡ sep ∷ join sep (p ∷ ps)
unfolding join
join_empty sep p ps = refl

-- Joining the pieces gives the text back.
pub join-split : (sep : ℕ) (s : Bytes) → join sep (split sep s) ≡ s
unfolding split join
join-split sep [] = refl
join-split sep (c ∷ s) =
    let (p, ps, e) = split_some sep s in
    let ih : join sep (p ∷ ps) ≡ s = rw e at (join-split sep s) in
    elim (Bool-cases (c == sep)) [
      | inl q ↦
          rw (q, e)
            (join_empty sep p ps
              ∙ ap (λ t. sep ∷ t) ih
              ∙ ap (λ t. t ∷ s) (sym ((==_iff c sep).0 q)))
      | inr q ↦ rw (q, e) (join-push_front sep c p ps ∙ ap (λ t. c ∷ t) ih)
    ]

-- The text has neither a newline nor a carriage return.
abbrev pub IsPlain : Bytes → Type 0
IsPlain l = Lacks lf l × Lacks cr l

strip_cr_lacking : (l : Bytes) → Lacks cr l → strip_cr l ≡ l
unfolding strip_cr
strip_cr_lacking [] h = refl
strip_cr_lacking (c ∷ []) h = rw h.0
strip_cr_lacking (c ∷ d ∷ l) h = ap (λ t. c ∷ t) (strip_cr_lacking (d ∷ l) h.1)

-- The lines of a text of plain lines, each ended by a newline.
pub lines-unlines : (ls : List Bytes) → All IsPlain ls → lines (unlines ls) ≡ ls
unfolding lines unlines
lines-unlines [] h = refl
lines-unlines (l ∷ ls) h =
    let (q, qs, e) = split_some lf (unlines ls) in
    let ih : lines_of (q ∷ qs) ≡ ls = rw e at (lines-unlines ls h.1) in
    rw (split-append lf l (unlines ls) h.0.0, e, strip_cr_lacking l h.0.1) (ap (λ t. l ∷ t) ih)

abbrev pub lacks : ℕ → Bytes → Bool
lacks sep [] = true
lacks sep (c ∷ s) = not (c == sep) && lacks sep s

Lacks-of_test : (sep : ℕ) (s : Bytes) → lacks sep s ≡ true → Lacks sep s
Lacks-of_test sep [] h = tt
Lacks-of_test sep (c ∷ s) h = (ground arith, Lacks-of_test sep s (ground arith))

-- A literal is seen to be plain by evaluation.
pub IsPlain-of_test : (s : Bytes) → lacks lf s ≡ true → lacks cr s ≡ true → IsPlain s
IsPlain-of_test s h k = (Lacks-of_test lf s h, Lacks-of_test cr s k)

push_front-Lacks :
    (sep c : ℕ) (ps : List Bytes)
    → (c == sep) ≡ false
    → All (Lacks sep) ps
    → All (Lacks sep) (push_front c ps)
push_front-Lacks sep c [] h k = ((h, tt), tt)
push_front-Lacks sep c (p ∷ ps) h k = ((h, k.0), k.1)

split-Lacks : (by sep : ℕ) (s : Bytes) → Lacks sep s → All (Lacks sep) (split by s)
unfolding split
split-Lacks by sep [] h = (tt, tt)
split-Lacks by sep (c ∷ s) h = elim (Bool-cases (c == by)) [
  | inl e ↦ rw e (tt, split-Lacks by sep s h.1)
  | inr e ↦ rw e (push_front-Lacks sep c (split by s) h.0 (split-Lacks by sep s h.1))
]

strip_cr-Lacks : (sep : ℕ) (l : Bytes) → Lacks sep l → Lacks sep (strip_cr l)
unfolding strip_cr
strip_cr-Lacks sep [] h = tt
strip_cr-Lacks sep (c ∷ []) h = elim (Bool-cases (c == cr)) [ inl e ↦ rw e tt | inr e ↦ rw e h ]
strip_cr-Lacks sep (c ∷ d ∷ l) h = (h.0, strip_cr-Lacks sep (d ∷ l) h.1)

lines_of-Lacks : (sep : ℕ) (ps : List Bytes) → All (Lacks sep) ps → All (Lacks sep) (lines_of ps)
lines_of-Lacks sep [] h = tt
lines_of-Lacks sep ([] ∷ []) h = tt
lines_of-Lacks sep ((c ∷ p) ∷ []) h = h
lines_of-Lacks sep (p ∷ q ∷ ps) h = (strip_cr-Lacks sep p h.0, lines_of-Lacks sep (q ∷ ps) h.1)

-- The lines of a text have no character that the text lacks.
pub lines-Lacks : (sep : ℕ) (s : Bytes) → Lacks sep s → All (Lacks sep) (lines s)
unfolding lines
lines-Lacks sep s h = lines_of-Lacks sep (split lf s) (split-Lacks lf sep s h)

pub split_once_lacking : (sep : ℕ) (s : Bytes) → Lacks sep s → split_once sep s ≡ none
unfolding split_once
split_once_lacking sep [] h = refl
split_once_lacking sep (c ∷ s) h = ground (arith, h.0, split_once_lacking sep s h.1)
