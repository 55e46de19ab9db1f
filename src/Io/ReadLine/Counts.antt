-- ===== src/Io/ReadLine/Counts.antt =====
-- `read_line` of io/mod.rs: the number it returns, and the end of the stream.
use nyanpasu_utils.Prelude.{
  ℕ, suc, ◌+◌, ◌≤◌, ◌≡◌, refl, ap, Bool, true, false, some, List, [], ◌∷◌, ◌++◌, arith, Bytes,
  length, length-append, take, inl, inr, Option-cases, if◌then◌else◌,
}
use nyanpasu_utils.Io.{ok, ok_inj}
use nyanpasu_utils.Io.ReadLine.{
  Answer, filled, interrupted, failed, Reader, memchr, split_available, LineRead, line_ends, refill,
  read_from, read_line,
}
use nyanpasu_utils.Io.ReadLine.Laws.{pending, memchr-length, Unfailing, read_line-keeps}
use nyanpasu_utils.Text.Lines.{lf, cr}

take_all : (s : Bytes) → take (length s) s ≡ s
take_all [] = refl
take_all (b ∷ s) = ap (λ t. b ∷ t) (take_all s)

memchr_taken : (c : ℕ) (s : Bytes) (i : ℕ) → memchr c s ≡ some i → length (take (i + 1) s) ≡ i + 1
memchr_taken c s i h = let e : i + 1 ≡ suc i = omega arith in rw e (memchr-length c s i h)

-- A round takes as many bytes as it counts.
taken_length : (s : Bytes) → length (take (split_available s).1 s) ≡ (split_available s).1
unfolding split_available
taken_length s = elim (Option-cases (memchr lf s)) [
  | inr (i, h) ↦ rw (h, split_available) (memchr_taken lf s i h)
  | inl h ↦ elim (Option-cases (memchr cr s)) [
    | inr (i, k) ↦ rw (h, k, split_available) (memchr_taken cr s i k)
    | inl k ↦ rw (h, k, split_available) (ap length (take_all s))
  ]
]

-- A round that ends a line takes one byte at least.
ended_takes : (s : Bytes) → (split_available s).0 ≡ true → 1 ≤ (split_available s).1
unfolding split_available
ended_takes s e = ground arith

-- What a read that started with `read` bytes in `buf` says of its count.
pub record Counts (buf : Bytes) (read n : ℕ) (out : LineRead) : Type 0 where
  pub added : length out.buf + read ≡ length buf + n
  pub grown : read ≤ n
  pub at_end : n ≡ 0 → pending out.reader ≡ []

line_ends-Counts :
    (s buf : Bytes) (read n : ℕ) (rest : List Answer)
    → (split_available s).0 ≡ true
    → (line_ends buf s read rest).result ≡ ok n
    → Counts buf read n (line_ends buf s read rest)
line_ends-Counts s buf read n rest e h = record {
  added = omega (arith, ok_inj h, length-append buf (take (split_available s).1 s), taken_length s);
  grown = omega (arith, ok_inj h);
  at_end = λ z. absurd (omega (arith, ok_inj h, ended_takes s e));
}

passed-Counts :
    (s buf : Bytes) (read n b : ℕ) (out : LineRead)
    → Counts (buf ++ b ∷ s) (read + length (b ∷ s)) n out
    → Counts buf read n out
passed-Counts s buf read n b out c = record {
  added = omega (arith, c.added, length-append buf (b ∷ s));
  grown = omega (arith, c.grown);
  at_end = c.at_end;
}

either-Counts :
    (c : Bool) (x y : LineRead) (buf : Bytes) (read n : ℕ)
    → (c ≡ true → x.result ≡ ok n → Counts buf read n x)
    → (c ≡ false → y.result ≡ ok n → Counts buf read n y)
    → (if c then x else y).result ≡ ok n
    → Counts buf read n (if c then x else y)
either-Counts true x y buf read n f g h = f refl h
either-Counts false x y buf read n f g h = g refl h

refill-Counts :
    (answers : List Answer) (buf : Bytes) (read n : ℕ)
    → (refill answers buf read).result ≡ ok n
    → Counts buf read n (refill answers buf read)
unfolding refill
refill-Counts [] buf read n h = record {
  added = omega (arith, ok_inj h);
  grown = omega (arith, ok_inj h);
  at_end = λ z. refl;
}
refill-Counts (failed e ∷ rest) buf read n h = cc
refill-Counts (interrupted ∷ rest) buf read n h = refill-Counts rest buf read n h
refill-Counts (filled b s ∷ rest) buf read n h =
    either-Counts (split_available (b ∷ s)).0 (line_ends buf (b ∷ s) read rest)
      (refill rest (buf ++ b ∷ s) (read + length (b ∷ s))) buf read n
      (line_ends-Counts (b ∷ s) buf read n rest)
      (λ _ k.
        passed-Counts s buf read n b _
          (refill-Counts rest (buf ++ b ∷ s) (read + length (b ∷ s)) n k))
      h

read_from-Counts :
    (buffered : Bytes) (answers : List Answer) (buf : Bytes) (n : ℕ)
    → (read_from buffered answers buf).result ≡ ok n
    → Counts buf 0 n (read_from buffered answers buf)
unfolding read_from
read_from-Counts [] answers buf n h = refill-Counts answers buf 0 n h
read_from-Counts (b ∷ s) answers buf n h =
    either-Counts (split_available (b ∷ s)).0 (line_ends buf (b ∷ s) 0 answers)
      (refill answers (buf ++ b ∷ s) (0 + length (b ∷ s))) buf 0 n
      (line_ends-Counts (b ∷ s) buf 0 n answers)
      (λ _ k.
        passed-Counts s buf 0 n b _ (refill-Counts answers (buf ++ b ∷ s) (0 + length (b ∷ s)) n k))
      h

-- A read that succeeds counts the bytes that it adds, and counts none only at the end of the stream.
pub read_line-Counts :
    (r : Reader) (buf : Bytes) (n : ℕ)
    → (read_line r buf).result ≡ ok n
    → Counts buf 0 n (read_line r buf)
unfolding read_line
read_line-Counts r buf n h = read_from-Counts r.buffered r.answers buf n h

-- A read of a byte or more leaves less of the stream.
pub read_line-shrinks :
    (r : Reader) (n : ℕ)
    → (read_line r []).result ≡ ok n
    → length (pending (read_line r []).reader) + n ≡ length (pending r)
read_line-shrinks r n h = omega (
  arith,
  (read_line-Counts r [] n h).added,
  ap length (read_line-keeps r []),
  length-append (read_line r []).buf (pending (read_line r []).reader),
)

either-Unfailing :
    (c : Bool) (x y : LineRead)
    → Unfailing x.reader.answers
    → Unfailing y.reader.answers
    → Unfailing (if c then x else y).reader.answers
either-Unfailing true x y f g = f
either-Unfailing false x y f g = g

refill-Unfailing :
    (answers : List Answer) (buf : Bytes) (read : ℕ)
    → Unfailing answers
    → Unfailing (refill answers buf read).reader.answers
unfolding refill
refill-Unfailing [] buf read u = tt
refill-Unfailing (failed e ∷ rest) buf read u = absurd u
refill-Unfailing (interrupted ∷ rest) buf read u = refill-Unfailing rest buf read u
refill-Unfailing (filled b s ∷ rest) buf read u =
    either-Unfailing (split_available (b ∷ s)).0 (line_ends buf (b ∷ s) read rest)
      (refill rest (buf ++ b ∷ s) (read + length (b ∷ s))) u
      (refill-Unfailing rest (buf ++ b ∷ s) (read + length (b ∷ s)) u)

read_from-Unfailing :
    (buffered : Bytes) (answers : List Answer) (buf : Bytes)
    → Unfailing answers
    → Unfailing (read_from buffered answers buf).reader.answers
unfolding read_from
read_from-Unfailing [] answers buf u = refill-Unfailing answers buf 0 u
read_from-Unfailing (b ∷ s) answers buf u =
    either-Unfailing (split_available (b ∷ s)).0 (line_ends buf (b ∷ s) 0 answers)
      (refill answers (buf ++ b ∷ s) (0 + length (b ∷ s))) u
      (refill-Unfailing answers (buf ++ b ∷ s) (0 + length (b ∷ s)) u)

-- A reader that does not fail does not fail after a read either.
pub read_line-Unfailing :
    (r : Reader) (buf : Bytes) → Unfailing r.answers → Unfailing (read_line r buf).reader.answers
unfolding read_line
read_line-Unfailing r buf u = read_from-Unfailing r.buffered r.answers buf u

either-succeeds :
    (c : Bool) (x y : LineRead)
    → (n : ℕ) × (x.result ≡ ok n)
    → (n : ℕ) × (y.result ≡ ok n)
    → (n : ℕ) × ((if c then x else y).result ≡ ok n)
either-succeeds true x y f g = f
either-succeeds false x y f g = g

refill-succeeds :
    (answers : List Answer) (buf : Bytes) (read : ℕ)
    → Unfailing answers
    → (n : ℕ) × ((refill answers buf read).result ≡ ok n)
unfolding refill
refill-succeeds [] buf read u = (read, refl)
refill-succeeds (failed e ∷ rest) buf read u = absurd u
refill-succeeds (interrupted ∷ rest) buf read u = refill-succeeds rest buf read u
refill-succeeds (filled b s ∷ rest) buf read u =
    either-succeeds (split_available (b ∷ s)).0 (line_ends buf (b ∷ s) read rest)
      (refill rest (buf ++ b ∷ s) (read + length (b ∷ s))) (_, refl)
      (refill-succeeds rest (buf ++ b ∷ s) (read + length (b ∷ s)) u)

read_from-succeeds :
    (buffered : Bytes) (answers : List Answer) (buf : Bytes)
    → Unfailing answers
    → (n : ℕ) × ((read_from buffered answers buf).result ≡ ok n)
unfolding read_from
read_from-succeeds [] answers buf u = refill-succeeds answers buf 0 u
read_from-succeeds (b ∷ s) answers buf u =
    either-succeeds (split_available (b ∷ s)).0 (line_ends buf (b ∷ s) 0 answers)
      (refill answers (buf ++ b ∷ s) (0 + length (b ∷ s))) (_, refl)
      (refill-succeeds answers (buf ++ b ∷ s) (0 + length (b ∷ s)) u)

-- A reader that does not fail reads.
pub read_line-succeeds :
    (r : Reader) (buf : Bytes) → Unfailing r.answers → (n : ℕ) × ((read_line r buf).result ≡ ok n)
unfolding read_line
read_line-succeeds r buf u = read_from-succeeds r.buffered r.answers buf u
