-- ===== src/Engine/Handle.antt =====
-- `ProcessHandle` of process/handle.rs: requests to the pump of a process, and the wait for its end.
pub mod Published
pub mod Waiting
use nyanpasu_utils.Prelude.{
  ℕ, ◌≡◌, refl, Bool, true, false, Option, none, some, List, [], ◌∷◌, Bytes, codes, ◌&&◌,
  if◌then◌else◌,
}
use nyanpasu_utils.Io.{Result, ok, err, ◌>>=◌}
use nyanpasu_utils.Process.{TerminatedPayload, ProcessError}
use nyanpasu_utils.Engine.Control.{Ctrl, graceful_kill, kill, write_stdin}
use nyanpasu_utils.Engine.PumpState.{Pump, Stage, ended, has_none}

-- `Containment`
pub data Containment : Type 0 where
  job_object cgroup_v2 process_group : Containment

-- What the watch channel holds: the end of the process, once it was published.
abbrev pub Watched : Type 0
Watched = Option (Result Bytes TerminatedPayload)

-- `matches!(&ctrl, Ctrl::GracefulKill(_) | Ctrl::Kill(_))`
abbrev pub is_idempotent_kill : Ctrl → Bool
is_idempotent_kill graceful_kill = true
is_idempotent_kill kill = true
is_idempotent_kill (write_stdin text) = false

-- What became of a request: the pump's channel was closed, a reply came, or the reply's sender was
-- dropped.
pub data Sent : Type 0 where
  channel_closed : Sent
  replied : Result ProcessError (Unit {0}) → Sent
  reply_dropped : Sent

-- The answer when no reply comes.
unfoldable pub unanswered : Ctrl → Watched → Result ProcessError (Unit {0})
unanswered ctrl terminated =
    if is_idempotent_kill ctrl
    then elim terminated [ none ↦ err ProcessError.already_exited | some end ↦ ok tt ]
    else err ProcessError.stdin_unavailable

-- `send_ctrl`
unfoldable pub send_ctrl : Ctrl → Sent → Watched → Result ProcessError (Unit {0})
unfolding unanswered
send_ctrl ctrl channel_closed terminated = unanswered ctrl terminated
send_ctrl ctrl (replied result) terminated = result
send_ctrl ctrl reply_dropped terminated = unanswered ctrl terminated

-- `result.map_err(ProcessError::Engine)`
abbrev pub told : Result Bytes TerminatedPayload → Result ProcessError TerminatedPayload
told (ok payload) = ok payload
told (err message) = err (ProcessError.engine message)

abbrev pump_dropped : Bytes
pump_dropped = codes "process pump task dropped"

-- What a look at the watch channel shows: its value, and whether its sender is there.
pub record Look : Type 0 where
  pub value : Watched
  pub sender_dropped : Bool

-- `wait`, at its successive looks at the channel; none while it waits.
unfoldable pub wait : List Look → Option (Result ProcessError TerminatedPayload)
wait [] = none
wait (look ∷ later) =
    let rest = wait later in
    elim look.value [
      | some end ↦ some (told end)
      | none ↦ if look.sender_dropped then some (err (ProcessError.engine pump_dropped)) else rest
    ]

-- `self.wait().await?; Ok(())`
abbrev pub finished_by : Result ProcessError TerminatedPayload → Result ProcessError (Unit {0})
finished_by (ok payload) = ok tt
finished_by (err e) = err e

abbrev pub then_wait :
    Result ProcessError (Unit {0}) → List Look → Option (Result ProcessError (Unit {0}))
then_wait (err e) looks = some (err e)
then_wait (ok _) looks = elim (wait looks) [ none ↦ none | some r ↦ some (finished_by r) ]

-- `ProcessHandle::graceful_kill`; none while it waits.
unfoldable pub graceful_kill_process :
    Sent → Watched → List Look → Option (Result ProcessError (Unit {0}))
unfolding send_ctrl wait
graceful_kill_process sent terminated looks =
    then_wait (send_ctrl graceful_kill sent terminated) looks

-- `ProcessHandle::kill`
unfoldable pub kill_process : Sent → Watched → List Look → Option (Result ProcessError (Unit {0}))
unfolding send_ctrl wait
kill_process sent terminated looks = then_wait (send_ctrl kill sent terminated) looks

-- `ProcessHandle::write_stdin`
unfoldable pub write_stdin_process : Bytes → Sent → Watched → Result ProcessError (Unit {0})
unfolding send_ctrl
write_stdin_process text sent terminated = send_ctrl (write_stdin text) sent terminated

abbrev pub latest : List (Result Bytes TerminatedPayload) → Watched
latest [] = none
latest (end ∷ _) = some end

abbrev pub is_ended_stage : Stage → Bool
is_ended_stage ended = true
is_ended_stage _ = false

-- What a pump shows on its watch channel; it holds the sender until it ends.
unfoldable pub look_at : Pump → Look
look_at s = record { value = latest s.published; sender_dropped = is_ended_stage s.stage }
