-- ===== src/Core/PipeReader/Complete.antt =====
-- The loop of `spawn_pipe_reader` in core/utils.rs: its end, and the lines that it sends.
use nyanpasu_utils.Prelude.{
  ℕ, zero, suc, ◌<◌, ◌≡◌, ◌⊎◌, refl, sym, ap, ◌∙◌, true, false, some, List, [], ◌∷◌, ◌++◌, Bytes,
  arith, length, ◌==◌, Bool-cases, inl, inr, ==_iff,
}
use nyanpasu_utils.Io.{IoError, Result, ok, err}
use nyanpasu_utils.Io.ReadLine.{Reader, read_line}
use nyanpasu_utils.Io.ReadLine.Laws.{pending, Unfailing, read_line-keeps}
use nyanpasu_utils.Io.ReadLine.Counts.{
  read_line-shrinks, read_line-Counts, read_line-Unfailing, read_line-succeeds,
}
use nyanpasu_utils.Core.PipeReader.{PipeRead, line, broken, pipe_reads}

Result-cases : (r : Result IoError ℕ) → ((e : IoError) × (r ≡ err e)) ⊎ ((n : ℕ) × (r ≡ ok n))
Result-cases (err e) = inl (e, refl)
Result-cases (ok n) = inr (n, refl)

-- A round that read something leaves a shorter stream.
shorter :
    (fuel : ℕ) (r : Reader) (n : ℕ)
    → length (pending r) < suc fuel
    → (read_line r []).result ≡ ok n
    → (n == 0) ≡ false
    → length (pending (read_line r []).reader) < fuel
shorter fuel r n h p z = ground (arith, read_line-shrinks r n p)

nil_of_length : (s : Bytes) → length s ≡ 0 → s ≡ []
nil_of_length [] h = refl
nil_of_length (b ∷ s) h = absurd (omega (arith, h))

-- A round that read nothing was at the end of the stream.
nothing_read :
    (r : Reader) (n : ℕ) → (read_line r []).result ≡ ok n → (n == 0) ≡ true → pending r ≡ []
nothing_read r n p z =
    let c = read_line-Counts r [] n p in
    let e = (==_iff n 0).0 z in
    nil_of_length (pending r) (omega (arith, read_line-shrinks r n p, e, ap length (c.at_end e)))

-- The loop ends by itself: a round for each byte of the stream, and one more, are enough, whatever
-- errors the reader meets.
pub pipe_reads-total :
    (fuel : ℕ) (r : Reader)
    → length (pending r) < fuel
    → (l : List PipeRead) × (pipe_reads fuel r ≡ some l)
unfolding pipe_reads
pipe_reads-total zero r h = absurd (omega arith)
pipe_reads-total (suc fuel) r h = elim (Result-cases (read_line r []).result) [
  | inl (e, p) ↦ (broken e ∷ [], rw p refl)
  | inr (n, p) ↦ elim (Bool-cases (n == 0)) [
    | inl z ↦ ([], rw (p, z) refl)
    | inr z ↦
        let (l, q) = pipe_reads-total fuel (read_line r []).reader (shorter fuel r n h p z) in
        (line (read_line r []).buf ∷ l, rw (p, z, q) refl)
  ]
]

-- The bytes of the lines.
abbrev pub text_of : List PipeRead → Bytes
text_of [] = []
text_of (line s ∷ l) = s ++ text_of l
text_of (broken e ∷ l) = text_of l

-- Over a reader that does not fail, the lines put together are the whole stream, when there is a
-- round for each of its bytes and one more.
pub pipe_reads_complete :
    (fuel : ℕ) (r : Reader)
    → length (pending r) < fuel
    → Unfailing r.answers
    → (l : List PipeRead) × (pipe_reads fuel r ≡ some l) × (text_of l ≡ pending r)
unfolding pipe_reads
pipe_reads_complete zero r h u = absurd (omega arith)
pipe_reads_complete (suc fuel) r h u =
    let (n, p) = read_line-succeeds r [] u in
    elim (Bool-cases (n == 0)) [
      | inl z ↦ ([], rw (p, z) refl, sym (nothing_read r n p z))
      | inr z ↦
          let (l, q, t) =
            pipe_reads_complete fuel (read_line r []).reader (shorter fuel r n h p z)
              (read_line-Unfailing r [] u) in
          (
            line (read_line r []).buf ∷ l,
            rw (p, z, q) refl,
            ap (λ s. (read_line r []).buf ++ s) t ∙ read_line-keeps r [],
          )
    ]
