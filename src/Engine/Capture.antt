-- ===== src/Engine/Capture.antt =====
-- `run_capture` of process/engine.rs, and `ProcessOutput` of process/error.rs.
use nyanpasu_utils.Prelude.{
  ℕ, Bool, true, false, Option, none, some, List, Bytes, ◌==◌, if◌then◌else◌,
}
use nyanpasu_utils.Io.{Result, ok, err}
use nyanpasu_utils.Process.{ProcessError}
use nyanpasu_utils.Engine.Command.{Command, build_pk, PkSetting}

-- `ProcessOutput`
pub record ProcessOutput : Type 0 where
  pub code : Option ℕ
  pub stdout : Bytes
  pub stderr : Bytes

-- `success`
unfoldable pub output_success : ProcessOutput → Bool
output_success o = elim o.code [ none ↦ false | some c ↦ c == 0 ]

-- What processkit's `output_string` gives.
pub data PkRun : Type 0 where
  spawn_failed : PkRun
  program_not_found : PkRun
  other_failure : (message : Bytes) → PkRun
  ran : (timed_out : Bool) → ProcessOutput → PkRun

abbrev pub or_zero : Option ℕ → ℕ
or_zero none = 0
or_zero (some t) = t

-- The verdict of `run_capture` on the result.
unfoldable pub captured : Option ℕ → PkRun → Result ProcessError ProcessOutput
captured timeout spawn_failed = err ProcessError.spawn
captured timeout program_not_found = err ProcessError.spawn
captured timeout (other_failure message) = err (ProcessError.engine message)
captured timeout (ran timed_out output) =
    if timed_out then err (ProcessError.timeout (or_zero timeout)) else ok output

-- `run_capture`, where `run` runs a command of processkit.
unfoldable pub run_capture :
    Command → ((Bytes × List PkSetting) → PkRun) → Result ProcessError ProcessOutput
unfolding build_pk captured
run_capture cmd run = captured cmd.timeout (run (build_pk cmd true))
