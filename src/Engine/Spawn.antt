-- ===== src/Engine/Spawn.antt =====
-- `spawn` of process/engine.rs: the pid file is prepared, the child is started in a group of its
-- own and recorded, and its pump starts. What processkit answers is an argument.
pub mod Owned
use nyanpasu_utils.Prelude.{
  codes, ℕ, ◌+◌, ◌≡◌, refl, Bool, true, false, Option, none, some, List, [], ◌∷◌, ◌++◌, Bytes,
  if◌then◌else◌,
}
use nyanpasu_utils.Io.{IoError, Result, ok, err, io_error, ErrorKind}
use nyanpasu_utils.Text.FilePath.{file_name}
use nyanpasu_utils.Text.Utf8.{is_utf8}
use nyanpasu_utils.System.World.{World}
use nyanpasu_utils.System.Act.{Sys}
use nyanpasu_utils.Process.{ProcessError}
use nyanpasu_utils.PidFile.Record.{EpochPidFile}
use nyanpasu_utils.PidFile.Guard
use nyanpasu_utils.PidFile.Guard.{PidFileGuard, prepare_legacy, prepare_epoch, write}
use nyanpasu_utils.Engine.Command.{Command, PidFile, legacy, epoch, build_pk, PkSetting}
use nyanpasu_utils.Engine.Handle.{Containment}
use nyanpasu_utils.Engine.PumpState.{PumpParts}

-- `processkit::Mechanism`, which may have others.
pub data Mechanism : Type 0 where
  job_object cgroup_v2 process_group other : Mechanism

-- `map_containment`
unfoldable pub map_containment : Mechanism → Containment
map_containment Mechanism.job_object = Containment.job_object
map_containment Mechanism.cgroup_v2 = Containment.cgroup_v2
map_containment Mechanism.process_group = Containment.process_group
map_containment Mechanism.other = Containment.process_group

-- What processkit answers: whether a group is made, how it contains processes, whether the start
-- succeeds, the pid of the child, whether its stdin can be taken, whether its output can be read.
pub record Launch : Type 0 where
  pub group_made : Bool
  pub mechanism : Mechanism
  pub starts : Bool
  pub pid : Option ℕ
  pub has_stdin : Bool
  pub has_events : Bool
  pub events_error : Bytes
  pub now : ℕ

-- What `spawn` has done to processes, the latest first. The result of `kill_all` is dropped: what is noted
-- is the call.
pub data EngineAct : Type 0 where
  child_started : Bytes × List PkSetting → EngineAct
  kill_all_called : EngineAct
  run_finished : EngineAct
  pump_started : PumpParts → EngineAct

-- `SpawnParts`, less the ends of the channels.
pub record SpawnParts : Type 0 where
  pub pid : ℕ
  pub containment : Containment

pub record Spawned : Type 0 where
  pub result : Result ProcessError SpawnParts
  pub acts : List EngineAct
  pub world : World
  pub guard : Option PidFileGuard

abbrev text_name : Option Bytes → Option Bytes
text_name none = none
text_name (some name) = if is_utf8 name then some name else none

-- `expected_exe`: the last part of the program's path, if it is UTF-8.
unfoldable pub expected_exe : Bytes → Option Bytes
unfolding file_name is_utf8
expected_exe program = text_name (file_name program)

abbrev pub guarded :
    Result IoError PidFileGuard × World → Result IoError (Option PidFileGuard) × World
guarded (ok g, w) = (ok (some g), w)
guarded (err e, w) = (err e, w)

abbrev pub prepare_for : EpochPidFile → Option Bytes → Sys (Option PidFileGuard)
prepare_for spec none w = (err (io_error ErrorKind.invalid_input), w)
prepare_for spec (some exe) w = guarded (prepare_epoch spec exe w)

abbrev pub prepare_file : Option PidFile → Option Bytes → Sys (Option PidFileGuard)
prepare_file none exe w = (ok none, w)
prepare_file (some (legacy path)) exe w = guarded (prepare_legacy path w)
prepare_file (some (epoch spec)) exe w = prepare_for spec exe w

-- The guard of the pid file, prepared before anything is started.
unfoldable pub prepare_guard : Command → Sys (Option PidFileGuard)
unfolding prepare_legacy prepare_epoch expected_exe
prepare_guard cmd w = prepare_file cmd.pid_file (expected_exe cmd.program) w

abbrev pub is_epoch : Option PidFile → Bool
is_epoch (some (epoch spec)) = true
is_epoch _ = false

abbrev pub failed : ProcessError → List EngineAct → World → Option PidFileGuard → Spawned
failed e acts w g = record { result = err e; acts = acts; world = w; guard = g }

abbrev pub plus : Option ℕ → ℕ → Option ℕ
plus none now = none
plus (some timeout) now = some (now + timeout)

-- The last part: the output is opened, and the pump starts.
unfoldable pub start_pumping :
    Command → Launch → List EngineAct → ℕ → Option PidFileGuard → World → Spawned
unfolding map_containment
start_pumping cmd a acts pid guard w =
    if a.has_events
    then record {
      result = ok (record { pid = pid; containment = map_containment a.mechanism });
      acts =
          pump_started (record {
            has_stdin = if cmd.pipe_stdin then a.has_stdin else false;
            kill_grace = cmd.kill_grace;
            timeout_at = plus cmd.timeout a.now;
          })
          ∷ acts;
      world = w;
      guard = guard;
    }
    else failed (ProcessError.engine a.events_error) acts w guard

-- After the record was written, or not.
unfoldable pub after_write :
    Command
    → Launch
    → List EngineAct
    → ℕ
    → PidFileGuard
    → Result IoError PidFileGuard × World
    → Spawned
unfolding start_pumping
after_write cmd a acts pid g (ok g', w) = start_pumping cmd a acts pid (some g') w
after_write cmd a acts pid g (err e, w) =
    if is_epoch cmd.pid_file
    then failed (ProcessError.io e) (run_finished ∷ kill_all_called ∷ acts) w (some g)
    else start_pumping cmd a acts pid (some g) w

-- The record of the child.
unfoldable pub record_child :
    Command → Launch → List EngineAct → ℕ → Option PidFileGuard → World → Spawned
unfolding after_write write
record_child cmd a acts pid none w = start_pumping cmd a acts pid none w
record_child cmd a acts pid (some g) w = after_write cmd a acts pid g (write g pid w)

-- A child without a pid is an error.
unfoldable pub with_pid :
    Command → Launch → List EngineAct → Option PidFileGuard → World → Option ℕ → Spawned
unfolding record_child
with_pid cmd a acts guard w none =
    failed (ProcessError.engine (codes "spawned process has no pid")) acts w guard
with_pid cmd a acts guard w (some pid) = record_child cmd a acts pid guard w

-- From the group to the pid.
unfoldable pub start_child : Command → Launch → Option PidFileGuard → World → Spawned
unfolding build_pk with_pid
start_child cmd a guard w =
    if a.group_made
    then (if a.starts
        then with_pid cmd a (child_started (build_pk cmd false) ∷ []) guard w a.pid
        else failed ProcessError.spawn [] w guard)
    else failed ProcessError.spawn [] w guard

-- The rest of `spawn`, when the guard was prepared, or not.
unfoldable pub after_prepare :
    Command → Launch → Result IoError (Option PidFileGuard) × World → Spawned
unfolding start_child
after_prepare cmd a (err e, w) = failed (ProcessError.io e) [] w none
after_prepare cmd a (ok guard, w) = start_child cmd a guard w

-- `spawn`
unfoldable pub spawn : Command → Launch → World → Spawned
unfolding prepare_guard after_prepare
spawn cmd a w = after_prepare cmd a (prepare_guard cmd w)
