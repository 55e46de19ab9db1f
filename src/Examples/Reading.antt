-- ===== src/Examples/Reading.antt =====
-- The line reader and the pipe reader at concrete inputs.
use nyanpasu_utils.Prelude.{◌≡◌, refl, some, List, [], ◌∷◌, ◌++◌, codes, arith}
use nyanpasu_utils.Io.ReadLine.{Reader, filled, interrupted, read_line}
use nyanpasu_utils.Io.ReadLine.Laws.{Cuts, next_line, pending, read_line-refines}
use nyanpasu_utils.Text.Lines.{lf}
use nyanpasu_utils.Core.PipeReader.{PipeRead, pipe_reads}
use nyanpasu_utils.Core.PipeReader.Complete.{text_of, pipe_reads-total, pipe_reads_complete}

-- Two lines, the second without its newline, in three pieces with an interruption.
abbrev two_lines : Reader
two_lines = record {
  buffered = codes "in";
  answers = filled b'f' (codes "o") ∷ interrupted ∷ filled lf (codes "warn") ∷ filled b'!' [] ∷ [];
}

read_line-refines_example : Cuts (next_line (pending two_lines)) [] 0 (read_line two_lines [])
read_line-refines_example = read_line-refines two_lines [] tt (ground arith)

pipe_reads-total_example : (l : List PipeRead) × (pipe_reads 11 two_lines ≡ some l)
pipe_reads-total_example = pipe_reads-total 11 two_lines (omega arith)

pipe_reads_complete_example :
    (l : List PipeRead) × (pipe_reads 11 two_lines ≡ some l) × (text_of l ≡ pending two_lines)
pipe_reads_complete_example = pipe_reads_complete 11 two_lines (omega arith) tt

reads_a_line :
    (read_line
      (record {
        buffered = [];
        answers = filled b'a' [] ∷ interrupted ∷ filled b'b' (lf ∷ codes "c") ∷ [];
      })
      []).buf
    ≡ codes "ab" ++ lf ∷ []
unfolding read_line
reads_a_line = refl
