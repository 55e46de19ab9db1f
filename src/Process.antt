-- ===== src/Process.antt =====
-- The types that the process modules share: src/process/event.rs and src/process/error.rs.
use nyanpasu_utils.Prelude.{ℕ, Option, none, some, Bytes, ◌==◌, Bool, false}
use nyanpasu_utils.Io.{IoError}

-- `TerminatedPayload`; a number of 32 bits with a sign stands as the number of the same bits without.
pub record TerminatedPayload : Type 0 where
  pub code : Option ℕ
  pub signal : Option ℕ

-- `payload.code == Some(0)`
abbrev pub is_clean : TerminatedPayload → Bool
is_clean p = elim p.code [ none ↦ false | some c ↦ c == 0 ]

-- `ProcessEvent`
pub data ProcessEvent : Type 0 where
  stdout : Bytes → ProcessEvent
  stderr : Bytes → ProcessEvent
  error : Bytes → ProcessEvent
  terminated : TerminatedPayload → ProcessEvent

-- `ProcessError`, less the texts of a failed spawn.
pub data ProcessError : Type 0 where
  io : IoError → ProcessError
  spawn : ProcessError
  timeout : ℕ → ProcessError
  already_exited : ProcessError
  stdin_unavailable : ProcessError
  engine : Bytes → ProcessError
