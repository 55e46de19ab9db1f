-- ===== src/Io/ReadLine/Laws.antt =====
-- `read_line` of io/mod.rs: what it takes of the stream, and the lines it cuts.
use nyanpasu_utils.Prelude.{
  ℕ, zero, suc, ◌+◌, ◌≡◌, refl, sym, ap, ◌∙◌, true, false, none, some, List, [], ◌∷◌, ◌++◌,
  append-nil, append_assoc, arith, Bytes, length, length-append, take, drop, take-append-drop, ◌==◌,
  if◌then◌else◌, Bool-cases, inl, inr, Option-cases,
}
use nyanpasu_utils.Io.{ok}
use nyanpasu_utils.Io.ReadLine.{
  Answer, filled, interrupted, failed, Reader, memchr, split_available, LineRead, line_ends, refill,
  read_from, read_line,
}
use nyanpasu_utils.Text.Lines.{lf, cr}
use nyanpasu_utils.Text.Lines.Laws.{Lacks}

-- The bytes that answers bring.
abbrev pub content : List Answer → Bytes
content [] = []
content (filled b s ∷ rest) = (b ∷ s) ++ content rest
content (interrupted ∷ rest) = content rest
content (failed e ∷ rest) = content rest

-- The bytes that a reader has yet to give.
abbrev pub pending : Reader → Bytes
pending r = r.buffered ++ content r.answers

-- The buffer and what the reader has yet to give, after a read.
abbrev joined : LineRead → Bytes
joined out = out.buf ++ pending out.reader

line_ends-joined :
    (buf s : Bytes) (n : ℕ) (rest : List Answer)
    → joined (line_ends buf s n rest) ≡ buf ++ (s ++ content rest)
line_ends-joined buf s n rest =
    let used = (split_available s).1 in
    (append_assoc buf (take used s) (drop used s ++ content rest))
    ∙ ap (λ t. buf ++ t)
        (sym (append_assoc (take used s) (drop used s) (content rest))
          ∙ ap (λ t. t ++ content rest) (take-append-drop used s))

refill-joined :
    (answers : List Answer) (buf : Bytes) (n : ℕ)
    → joined (refill answers buf n) ≡ buf ++ content answers
unfolding refill
refill-joined [] buf n = refl
refill-joined (failed e ∷ rest) buf n = refl
refill-joined (interrupted ∷ rest) buf n = refill-joined rest buf n
refill-joined (filled b s ∷ rest) buf n = elim (Bool-cases (split_available (b ∷ s)).0) [
  | inl e ↦ rw e (line_ends-joined buf (b ∷ s) n rest)
  | inr e ↦ rw e (
      refill-joined rest (buf ++ b ∷ s) (n + length (b ∷ s))
      ∙ append_assoc buf (b ∷ s) (content rest))
]

read_from-joined :
    (buffered : Bytes) (answers : List Answer) (buf : Bytes)
    → joined (read_from buffered answers buf) ≡ buf ++ (buffered ++ content answers)
unfolding read_from
read_from-joined [] answers buf = refill-joined answers buf 0
read_from-joined (b ∷ s) answers buf = elim (Bool-cases (split_available (b ∷ s)).0) [
  | inl e ↦ rw e (line_ends-joined buf (b ∷ s) 0 answers)
  | inr e ↦ rw e (
      refill-joined answers (buf ++ b ∷ s) (0 + length (b ∷ s))
      ∙ append_assoc buf (b ∷ s) (content answers))
]

-- No byte is lost, doubled or moved, whatever the reader answers, errors and interruptions
-- included: the buffer followed by what the reader has yet to give is what it was before.
pub read_line-keeps :
    (r : Reader) (buf : Bytes)
    → (read_line r buf).buf ++ pending (read_line r buf).reader ≡ buf ++ pending r
unfolding read_line
read_line-keeps r buf = read_from-joined r.buffered r.answers buf

-- The abstract reader: the text up to its first newline, and the rest.
pub next_line : Bytes → Bytes × Bytes
next_line [] = ([], [])
next_line (c ∷ s) = let rest = next_line s in if c == lf then (c ∷ [], s) else (c ∷ rest.0, rest.1)

memchr_lacking : (c : ℕ) (s : Bytes) → Lacks c s → memchr c s ≡ none
unfolding memchr
memchr_lacking c [] h = refl
memchr_lacking c (b ∷ s) h = rw (h.0, memchr_lacking c s h.1) refl

-- A newline among the available bytes is the end of the line.
next_line_found :
    (s rest : Bytes) (i : ℕ)
    → memchr lf s ≡ some i
    → next_line (s ++ rest) ≡ (take (suc i) s, drop (suc i) s ++ rest)
unfolding memchr next_line
next_line_found [] rest i h = cc
next_line_found (b ∷ s) rest zero h = ground arith
next_line_found (b ∷ s) rest (suc i) h = ground (arith, next_line_found s rest i)

next_line_passed :
    (s rest : Bytes)
    → memchr lf s ≡ none
    → next_line (s ++ rest) ≡ (s ++ (next_line rest).0, (next_line rest).1)
unfolding memchr next_line
next_line_passed [] rest h = refl
next_line_passed (b ∷ s) rest h = ground (arith, next_line_passed s rest)

pub memchr-length :
    (c : ℕ) (s : Bytes) (i : ℕ) → memchr c s ≡ some i → length (take (suc i) s) ≡ suc i
unfolding memchr
memchr-length c [] i h = cc
memchr-length c (b ∷ s) zero h = refl
memchr-length c (b ∷ s) (suc i) h = ground (arith, memchr-length c s i)

-- No answer is an error.
abbrev pub Unfailing : List Answer → Type 0
Unfailing [] = Unit
Unfailing (failed e ∷ rest) = ⊥
Unfailing (interrupted ∷ rest) = Unfailing rest
Unfailing (filled b s ∷ rest) = Unfailing rest

-- A read that had `n` bytes and `buf` before has cut a line off, and left a rest.
pub record Cuts (cut : Bytes × Bytes) (buf : Bytes) (n : ℕ) (out : LineRead) : Type 0 where
  pub counted : out.result ≡ ok (n + length cut.0)
  pub line : out.buf ≡ buf ++ cut.0
  pub left : pending out.reader ≡ cut.1

Lacks-append : (c : ℕ) (s t : Bytes) → Lacks c (s ++ t) → Lacks c s × Lacks c t
Lacks-append c [] t h = (tt, h)
Lacks-append c (b ∷ s) t h = ((h.0, (Lacks-append c s t h.1).0), (Lacks-append c s t h.1).1)

split_found : (s : Bytes) (i : ℕ) → memchr lf s ≡ some i → split_available s ≡ (true, suc i)
unfolding split_available
split_found s i h = ground arith

found_split : (s : Bytes) (i : ℕ) → memchr lf s ≡ some i → (split_available s).0 ≡ true
found_split s i h = rw (split_found s i h)

passed_split : (s : Bytes) → memchr lf s ≡ none → Lacks cr s → (split_available s).0 ≡ false
unfolding split_available
passed_split s h l = ground (arith, memchr_lacking cr s l)

-- A newline among the available bytes.
found-Cuts :
    (s buf : Bytes) (n i : ℕ) (answers : List Answer)
    → memchr lf s ≡ some i
    → Cuts (next_line (s ++ content answers)) buf n (line_ends buf s n answers)
found-Cuts s buf n i answers h = rw (next_line_found s (content answers) i h) (record {
  counted = rw (split_found s i h) (ap (λ k. ok (n + k)) (sym (memchr-length lf s i h)));
  line = rw (split_found s i h);
  left = rw (split_found s i h);
})

passed-Cuts :
    (s buf rest : Bytes) (n : ℕ) (out : LineRead)
    → memchr lf s ≡ none
    → Cuts (next_line rest) (buf ++ s) (n + length s) out
    → Cuts (next_line (s ++ rest)) buf n out
passed-Cuts s buf rest n out h r = rw (next_line_passed s rest h) (record {
  counted = r.counted ∙ ap ok (omega (arith, length-append s (next_line rest).0));
  line = r.line ∙ append_assoc buf s (next_line rest).0;
  left = r.left;
})

refill-Cuts :
    (answers : List Answer) (buf : Bytes) (n : ℕ)
    → Unfailing answers
    → Lacks cr (content answers)
    → Cuts (next_line (content answers)) buf n (refill answers buf n)
unfolding refill next_line
refill-Cuts [] buf n u l = record {
  counted = ap ok (omega arith);
  line = sym (append-nil buf);
  left = refl;
}
refill-Cuts (failed e ∷ rest) buf n u l = absurd u
refill-Cuts (interrupted ∷ rest) buf n u l = refill-Cuts rest buf n u l
refill-Cuts (filled b s ∷ rest) buf n u l = elim (Option-cases (memchr lf (b ∷ s))) [
  | inl h ↦ rw (passed_split (b ∷ s) h (Lacks-append cr (b ∷ s) (content rest) l).0) (
      passed-Cuts (b ∷ s) buf (content rest) n _ h (
        refill-Cuts rest (buf ++ b ∷ s) (n + length (b ∷ s)) u
          (Lacks-append cr (b ∷ s) (content rest) l).1))
  | inr (i, h) ↦ rw (found_split (b ∷ s) i h) (found-Cuts (b ∷ s) buf n i rest h)
]

read_from-Cuts :
    (buffered : Bytes) (answers : List Answer) (buf : Bytes)
    → Unfailing answers
    → Lacks cr (buffered ++ content answers)
    → Cuts (next_line (buffered ++ content answers)) buf 0 (read_from buffered answers buf)
unfolding read_from
read_from-Cuts [] answers buf u l = refill-Cuts answers buf 0 u l
read_from-Cuts (b ∷ s) answers buf u l = elim (Option-cases (memchr lf (b ∷ s))) [
  | inl h ↦ rw (passed_split (b ∷ s) h (Lacks-append cr (b ∷ s) (content answers) l).0) (
      passed-Cuts (b ∷ s) buf (content answers) 0 _ h (
        refill-Cuts answers (buf ++ b ∷ s) (0 + length (b ∷ s)) u
          (Lacks-append cr (b ∷ s) (content answers) l).1))
  | inr (i, h) ↦ rw (found_split (b ∷ s) i h) (found-Cuts (b ∷ s) buf 0 i answers h)
]

-- Over a stream without carriage returns whose reader does not fail, a read is that of the abstract
-- reader, however the stream comes in pieces: it takes the text up to and with the first newline,
-- or all of it, counts it, and leaves the rest.
pub read_line-refines :
    (r : Reader) (buf : Bytes)
    → Unfailing r.answers
    → Lacks cr (pending r)
    → Cuts (next_line (pending r)) buf 0 (read_line r buf)
unfolding read_line
read_line-refines r buf u l = read_from-Cuts r.buffered r.answers buf u l
