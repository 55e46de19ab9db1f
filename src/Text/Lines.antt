-- ===== src/Text/Lines.antt =====
-- `str::split`, `lines`, `split_once`, and `join`, on bytes.
pub mod Laws
use nyanpasu_utils.Prelude.{
  ℕ, zero, suc, ◌≡◌, refl, ◌≢◌, ap, ◌∙◌, Bool, true, false, Option, none, some, List, [], ◌∷◌, ◌++◌,
  append_assoc, arith, ◌==◌, if◌then◌else◌, Bytes, codes, All, Bool-cases, inl, inr,
}
use mathlib.Core.Option

abbrev pub lf : ℕ
lf = 10

abbrev pub cr : ℕ
cr = 13

abbrev pub is_empty : Bytes → Bool
is_empty [] = true
is_empty (_ ∷ _) = false

-- Puts a character in front of the first piece.
abbrev pub push_front : ℕ → List Bytes → List Bytes
push_front c [] = (c ∷ []) ∷ []
push_front c (p ∷ ps) = (c ∷ p) ∷ ps

-- `s.split(sep)`: at least one piece.
unfoldable pub split : ℕ → Bytes → List Bytes
split sep [] = [] ∷ []
split sep (c ∷ s) = if c == sep then [] ∷ split sep s else push_front c (split sep s)

-- `line.strip_suffix('\r').unwrap_or(line)`
unfoldable pub strip_cr : Bytes → Bytes
strip_cr [] = []
strip_cr (c ∷ []) = if c == cr then [] else c ∷ []
strip_cr (c ∷ d ∷ s) = c ∷ strip_cr (d ∷ s)

-- The pieces that a newline ends lose a carriage return; the last piece counts if it has a character.
abbrev pub lines_of : List Bytes → List Bytes
lines_of [] = []
lines_of (p ∷ []) = if is_empty p then [] else p ∷ []
lines_of (p ∷ q ∷ ps) = strip_cr p ∷ lines_of (q ∷ ps)

-- `s.lines()`
unfoldable pub lines : Bytes → List Bytes
unfolding split strip_cr
lines s = lines_of (split lf s)

-- `s.split_once(sep)`
unfoldable pub split_once : ℕ → Bytes → Option (Bytes × Bytes)
split_once sep [] = none
split_once sep (c ∷ s) =
    if c == sep
    then some ([], s)
    else Option.map (λ (p : Bytes × Bytes). (c ∷ p.0, p.1)) (split_once sep s)

-- `lines.join("\n")`
unfoldable pub join : ℕ → List Bytes → Bytes
join sep [] = []
join sep (l ∷ []) = l
join sep (l ∷ m ∷ ls) = l ++ sep ∷ join sep (m ∷ ls)

-- Each line with the newline that ends it.
unfoldable pub unlines : List Bytes → Bytes
unlines [] = []
unlines (l ∷ ls) = l ++ lf ∷ unlines ls

lines_runs : lines (codes "a" ++ cr ∷ lf ∷ lf ∷ codes "b") ≡ codes "a" ∷ [] ∷ codes "b" ∷ []
unfolding lines
lines_runs = refl
