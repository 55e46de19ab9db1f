-- ===== src/Engine/Finish.antt =====
-- The result of a process: `split_stderr_tail`, `normalize_finish` and the terminal events of `pump`.
use nyanpasu_utils.Prelude.{
  ℕ, ◌≡◌, ◌≢◌, refl, Option, none, some, List, [], ◌∷◌, ◌++◌, Bytes, codes, ltb, if◌then◌else◌, All,
}
use nyanpasu_utils.Io.{Result, ok, err}
use nyanpasu_utils.Text.Decimal.{decimal}
use nyanpasu_utils.Text.Lines.{lf, is_empty, split, join}
use nyanpasu_utils.Text.Lines.Laws.{Lacks, split-join}
use nyanpasu_utils.Process.{TerminatedPayload, ProcessEvent, stderr, error, terminated}

-- `split_stderr_tail`
unfoldable pub split_stderr_tail : Bytes → List Bytes
unfolding split
split_stderr_tail s = if is_empty s then [] else split lf s

-- `FinishOutput`
pub record FinishOutput : Type 0 where
  pub payload : TerminatedPayload
  pub stderr_tail : List Bytes
  pub failure : Option Bytes

-- What `run.finish()` gives: the outcome and the rest of the error output, or a message.
abbrev pub FinishResult : Type 0
FinishResult = Result Bytes (TerminatedPayload × Bytes)

-- `normalize_finish`, with `map_outcome`
unfoldable pub normalize_finish : FinishResult → FinishOutput
unfolding split_stderr_tail
normalize_finish (ok (payload, tail)) = record {
  payload = payload;
  stderr_tail = split_stderr_tail tail;
  failure = none;
}
normalize_finish (err message) = record {
  payload = record { code = none; signal = none };
  stderr_tail = [];
  failure = some message;
}

-- What is sent to those who wait for the process.
abbrev pub watched : FinishOutput → Result Bytes TerminatedPayload
watched out = elim out.failure [ none ↦ ok out.payload | some message ↦ err message ]

abbrev pub dropped_message : ℕ → Bytes
dropped_message n =
    codes "dropped " ++ (decimal n ++ codes " buffered output events: receiver not draining")

abbrev stderr_events : List Bytes → List ProcessEvent → List ProcessEvent
stderr_events [] rest = rest
stderr_events (line ∷ ls) rest = stderr line ∷ stderr_events ls rest

abbrev failure_events : Option Bytes → List ProcessEvent → List ProcessEvent
failure_events none rest = rest
failure_events (some message) rest = error message ∷ rest

-- `terminal_events`, when so many events were dropped.
unfoldable pub terminal_events : FinishOutput → ℕ → List ProcessEvent
terminal_events out dropped = stderr_events out.stderr_tail (
    let rest = failure_events out.failure (terminated out.payload ∷ []) in
    if ltb 0 dropped then error (dropped_message dropped) ∷ rest else rest)

-- The lines of the error output that were joined come back, one at least, but for a single empty
-- one.
pub split_stderr_tail-join :
    (l : Bytes) (ls : List Bytes)
    → All (Lacks lf) (l ∷ ls)
    → l ∷ ls ≢ [] ∷ []
    → split_stderr_tail (join lf (l ∷ ls)) ≡ l ∷ ls
unfolding split_stderr_tail join
split_stderr_tail-join (c ∷ l) [] h ne = split-join lf (c ∷ l) [] h
split_stderr_tail-join [] [] h ne = absurd (ne refl)
split_stderr_tail-join [] (m ∷ ls) h ne = split-join lf [] (m ∷ ls) h
split_stderr_tail-join (c ∷ l) (m ∷ ls) h ne = split-join lf (c ∷ l) (m ∷ ls) h
