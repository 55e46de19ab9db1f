-- ===== src/Core/PipeReader.antt =====
-- `spawn_pipe_reader` of core/utils.rs: the thread that turns the output of a core into events. Each
-- event is sent by a task of its own; what follows is the order in which the tasks are spawned.
pub mod Complete
use nyanpasu_utils.Prelude.{
  ℕ, zero, suc, ◌≡◌, refl, Bool, true, false, Option, none, some, List, [], ◌∷◌, Bytes, codes, ◌==◌,
  if◌then◌else◌,
}
use mathlib.Core.Option
use mathlib.Core.List.{map}
use nyanpasu_utils.Io.{IoError, Result, ok, err}
use nyanpasu_utils.Io.ReadLine.{Reader, filled, read_line}
use nyanpasu_utils.Text.Utf8.{is_utf8}
use nyanpasu_utils.Text.Lines.{lf}
use nyanpasu_utils.Core.Definition.{CommandEvent, stdout}

-- What one round of the loop has for the receiver.
pub data PipeRead : Type 0 where
  line : Bytes → PipeRead
  broken : IoError → PipeRead

-- What a round adds to the rounds to come: an error ends the loop, and so does a read of nothing.
abbrev pub read_round : Result IoError ℕ → Bytes → Option (List PipeRead) → Option (List PipeRead)
read_round (err e) buf more = some (broken e ∷ [])
read_round (ok n) buf more = if n == 0 then some [] else Option.map (λ l. line buf ∷ l) more

-- The loop; none when the fuel runs out.
unfoldable pub pipe_reads : ℕ → Reader → Option (List PipeRead)
unfolding read_line
pipe_reads zero r = none
pipe_reads (suc fuel) r =
    let out = read_line r [] in
    let more = pipe_reads fuel out.reader in read_round out.result out.buf more

-- The wrapper of a line, the decoder, if an encoding was given, and the texts of two errors.
pub record PipeStyle : Type 0 where
  pub wrapper : Bytes → CommandEvent
  pub decode : Option (Bytes → Bytes)
  pub utf8_error : Bytes → Bytes
  pub io_error_text : IoError → Bytes

abbrev pub decoded_event : PipeStyle → Option (Bytes → Bytes) → Bytes → CommandEvent
decoded_event style (some decode) buf = style.wrapper (decode buf)
decoded_event style none buf =
    if is_utf8 buf then style.wrapper buf else CommandEvent.error (style.utf8_error buf)

-- The event that a round sends.
unfoldable pub pipe_event : PipeStyle → PipeRead → CommandEvent
pipe_event style (line buf) = decoded_event style style.decode buf
pipe_event style (broken e) = CommandEvent.error (style.io_error_text e)

-- `spawn_pipe_reader`
unfoldable pub spawn_pipe_reader : ℕ → PipeStyle → Reader → Option (List CommandEvent)
unfolding pipe_reads pipe_event
spawn_pipe_reader fuel style r = Option.map (map (pipe_event style)) (pipe_reads fuel r)

abbrev plain : PipeStyle
plain = record { wrapper = stdout; decode = none; utf8_error = λ b. []; io_error_text = λ e. [] }

reader_runs :
    spawn_pipe_reader 5 plain
      (record { buffered = []; answers = filled b'a' (lf ∷ []) ∷ filled b'b' [] ∷ [] })
    ≡ some (stdout (b'a' ∷ lf ∷ []) ∷ stdout (codes "b") ∷ [])
unfolding spawn_pipe_reader is_utf8
reader_runs = refl
