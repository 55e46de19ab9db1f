-- ===== src/Text/Words/Laws.antt =====
-- Text split at white space.
use nyanpasu_utils.Prelude.{
  ℕ, ◌<◌, ◌≡◌, refl, ap, ◌∙◌, false, none, some, List, [], ◌∷◌, ◌++◌, Bytes, All, arith, ==_refl,
  append_assoc,
}
use nyanpasu_utils.Text.Lines.{join}
use nyanpasu_utils.Text.Lines.Laws.{Lacks}
use nyanpasu_utils.Text.Words.{
  space_len, pieces, nonempty, split_whitespace, after_last, all_space, trim_start, trim_end, trim,
}

after_last_lacking : (sep : ℕ) (s : Bytes) → Lacks sep s → after_last sep s ≡ none
unfolding after_last
after_last_lacking sep [] h = refl
after_last_lacking sep (c ∷ s) h = ground (arith, after_last_lacking sep s h.1, h.0)

-- The last separator is the one behind which there is none.
pub after_last-append :
    (sep : ℕ) (s t : Bytes) → Lacks sep t → after_last sep (s ++ sep ∷ t) ≡ some t
unfolding after_last
after_last-append sep [] t h = ground (arith, after_last_lacking sep t h, ==_refl sep)
after_last-append sep (c ∷ s) t h = ground (arith, after_last-append sep s t h)

-- A visible ASCII character.
abbrev pub IsVisible : ℕ → Type 0
IsVisible c = (32 < c) × (c < 127)

-- A word of visible characters.
abbrev pub IsWord : Bytes → Type 0
IsWord [] = ⊥
IsWord (c ∷ s) = IsVisible c × All IsVisible s

space_len_visible : (c : ℕ) (s : Bytes) → IsVisible c → space_len c s ≡ 0
space_len_visible c [] h = ground arith
space_len_visible c (a ∷ []) h = ground arith
space_len_visible c (a ∷ b ∷ s) h = ground arith

space_len_space : (s : Bytes) → space_len 32 s ≡ 1
space_len_space [] = refl
space_len_space (a ∷ []) = refl
space_len_space (a ∷ b ∷ s) = refl

space_len_newline : (s : Bytes) → space_len 10 s ≡ 1
space_len_newline [] = refl
space_len_newline (a ∷ []) = refl
space_len_newline (a ∷ b ∷ s) = refl

pieces_word : (w : Bytes) → All IsVisible w → pieces 0 w ≡ w ∷ []
unfolding pieces
pieces_word [] h = refl
pieces_word (c ∷ w) h = ground (arith, space_len_visible c w h.0, pieces_word w h.1)

visible-all_space : (c : ℕ) (s : Bytes) → All IsVisible (c ∷ s) → all_space (c ∷ s) ≡ false
unfolding all_space split_whitespace
visible-all_space c s h = ground (arith, pieces_word (c ∷ s) h)

trim_end_visible : (s : Bytes) → All IsVisible s → trim_end s ≡ s
unfolding trim_end
trim_end_visible [] h = refl
trim_end_visible (c ∷ s) h = ground (arith, visible-all_space c s h, trim_end_visible s h.1)

trim_start_visible : (s : Bytes) → All IsVisible s → trim_start 0 s ≡ s
unfolding trim_start
trim_start_visible [] h = refl
trim_start_visible (c ∷ s) h = ground (arith, space_len_visible c s h.0)

-- A text of visible characters has nothing to trim.
pub trim_visible : (s : Bytes) → All IsVisible s → trim s ≡ s
unfolding trim
trim_visible s h = ap trim_end (trim_start_visible s h) ∙ trim_end_visible s h

-- The two separators of a line.
abbrev Separates : ℕ → Type 0
Separates sep = (s : Bytes) → space_len sep s ≡ 1

pieces-append :
    (sep : ℕ) (w s : Bytes)
    → Separates sep
    → All IsVisible w
    → pieces 0 (w ++ sep ∷ s) ≡ w ∷ pieces 0 s
unfolding pieces
pieces-append sep [] s e h = ground (arith, e s)
pieces-append sep (c ∷ w) s e h =
    ground (arith, space_len_visible c (w ++ sep ∷ s) h.0, pieces-append sep w s e h.1)

pieces-join :
    (w : Bytes) (ws : List Bytes)
    → All IsWord (w ∷ ws)
    → pieces 0 (join 32 (w ∷ ws) ++ 10 ∷ []) ≡ (w ∷ ws) ++ [] ∷ []
unfolding join pieces
pieces-join [] ws h = elim h.0 [ ]
pieces-join (c ∷ w) [] h = pieces-append 10 (c ∷ w) [] space_len_newline h.0
pieces-join (c ∷ w) (v ∷ ws) h =
    ap (pieces 0) (append_assoc (c ∷ w) (32 ∷ join 32 (v ∷ ws)) (10 ∷ []))
    ∙ pieces-append 32 (c ∷ w) (join 32 (v ∷ ws) ++ 10 ∷ []) space_len_space h.0
    ∙ ap (λ t. (c ∷ w) ∷ t) (pieces-join v ws h.1)

-- What follows the newline is blank.
nonempty_words : (ws : List Bytes) → All IsWord ws → nonempty (ws ++ [] ∷ []) ≡ ws
nonempty_words [] h = refl
nonempty_words ([] ∷ ws) h = elim h.0 [ ]
nonempty_words ((c ∷ w) ∷ ws) h = ap (λ t. (c ∷ w) ∷ t) (nonempty_words ws h.1)

-- Words joined by spaces, with a space before them and a newline after them, are split again.
pub split_whitespace-join :
    (w : Bytes) (ws : List Bytes)
    → All IsWord (w ∷ ws)
    → split_whitespace (32 ∷ (join 32 (w ∷ ws) ++ 10 ∷ [])) ≡ w ∷ ws
unfolding split_whitespace
split_whitespace-join w ws h =
    ap nonempty (pieces-append 32 [] (join 32 (w ∷ ws) ++ 10 ∷ []) space_len_space tt)
    ∙ ap (λ t. nonempty ([] ∷ t)) (pieces-join w ws h)
    ∙ nonempty_words (w ∷ ws) h
