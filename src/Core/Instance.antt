-- ===== src/Core/Instance.antt =====
-- `CoreInstance` of core/instance.rs: `run`, `kill`, `state` and the drop. What the operating system
-- answers to a call is an argument.
pub mod Kill
pub mod Threads
use nyanpasu_utils.Prelude.{
  ℕ, zero, suc, ◌≡◌, refl, Bool, true, false, Option, none, some, List, [], ◌∷◌, Bytes,
  if◌then◌else◌,
}
use nyanpasu_utils.Io.{Io, IoError, Result, ok, err, io_error, ErrorKind}
use nyanpasu_utils.Text.FilePath.{parent_text}
use nyanpasu_utils.System.World.{World}
use nyanpasu_utils.PidFile.Guard.{create_pid_file}
use nyanpasu_utils.Os.{ProcessTable, Killed, kill_by_pid_file}
use nyanpasu_utils.Os.Child.{Tries, Polled, exited, broken, not_yet, gracefully_kill}
use nyanpasu_utils.Core.Definition.{
  CoreType, ClashCoreType, clash, sing_box, get_run_args, get_supported_cores_executables,
}
use nyanpasu_utils.Core.CheckConfig.{
  CoreInstanceError, mihomo_safe_paths_env_name, get_mihomo_safe_paths, check_config_, or_default,
  CheckCommand, CheckOutput,
}

-- `CoreInstanceState`
pub data CoreInstanceState : Type 0 where
  running stopped : CoreInstanceState

-- `CoreInstance`; a child is a number.
pub record CoreInstance : Type 0 where
  pub core_type : CoreType
  pub binary_path : Bytes
  pub app_dir : Bytes
  pub config_path : Bytes
  pub pid_path : Bytes
  pub instance : Option ℕ
  pub state : CoreInstanceState

-- `set_config`
unfoldable pub set_config : Bytes → CoreInstance → CoreInstance
set_config config i = record i { config_path = config }

-- `check_config`, where `run` runs a command; none is a panic.
unfoldable pub check_config :
    CoreInstance
    → Option Bytes
    → (CheckCommand → Io CheckOutput)
    → Option (Result CoreInstanceError (Unit {0}))
unfolding check_config_
check_config i config run =
    check_config_ i.core_type (or_default config i.config_path) i.binary_path i.app_dir run

abbrev pub is_running : CoreInstanceState → Bool
is_running running = true
is_running stopped = false

-- The command of the core.
pub record RunCommand : Type 0 where
  pub program : Bytes
  pub args : List Bytes
  pub env : Bytes × Bytes
  pub current_dir : Bytes

-- What the system answers to `run`: the two pipes, and the spawn, with the child and its pid.
pub record RunAnswers : Type 0 where
  pub table : ProcessTable
  pub pipes : Io (Unit {0})
  pub spawned : Io (ℕ × ℕ)
  pub exe_suffix : Bytes

-- How `run` ends: by a panic, or with a result.
pub data Ran : Type 0 where
  panicked : Ran
  returned : Result CoreInstanceError ℕ → Ran

pub record RunOutcome : Type 0 where
  pub ran : Ran
  pub after : CoreInstance
  pub killed : List ℕ
  pub command : Option RunCommand
  pub world : World

abbrev fails : Ran → CoreInstance → Killed → RunOutcome
fails r i k = record { ran = r; after = i; killed = k.killed; command = none; world = k.world }

-- The command that is spawned.
unfoldable pub run_command : CoreInstance → ClashCoreType → Bytes → RunCommand
unfolding get_run_args get_mihomo_safe_paths
run_command i core config_dir = record {
  program = i.binary_path;
  args = get_run_args core i.app_dir i.config_path;
  env = (mihomo_safe_paths_env_name, get_mihomo_safe_paths i.app_dir config_dir none);
  current_dir = i.app_dir;
}

-- The spawn, and the pid file of the child, whose failure is only logged.
abbrev pub run_spawned : CoreInstance → RunCommand → Killed → Io (ℕ × ℕ) → RunOutcome
run_spawned i command k (err e) = record {
  ran = returned (err (CoreInstanceError.io e));
  after = i;
  killed = k.killed;
  command = some command;
  world = k.world;
}
run_spawned i command k (ok (child, pid)) = record {
  ran = returned (ok child);
  after = record i { instance = some child };
  killed = k.killed;
  command = some command;
  world = (create_pid_file i.pid_path pid k.world).1;
}

abbrev pub run_in : CoreInstance → RunAnswers → ClashCoreType → Killed → Option Bytes → RunOutcome
run_in i a core k none = fails panicked i k
run_in i a core k (some config_dir) = run_spawned i (run_command i core config_dir) k a.spawned

abbrev pub run_piped :
    CoreInstance → RunAnswers → ClashCoreType → Killed → Io (Unit {0}) → RunOutcome
run_piped i a core k (err e) = fails (returned (err (CoreInstanceError.io e))) i k
run_piped i a core k (ok _) = run_in i a core k (parent_text i.config_path)

-- `unimplemented!` for sing-box.
abbrev pub run_core : CoreInstance → RunAnswers → CoreType → Killed → RunOutcome
run_core i a sing_box k = fails panicked i k
run_core i a (clash core) k = run_piped i a core k a.pipes

-- `run`, without the two threads that it starts for a child.
unfoldable pub run : CoreInstance → RunAnswers → World → RunOutcome
unfolding kill_by_pid_file parent_text run_command create_pid_file get_supported_cores_executables
run i a w =
    if is_running i.state
    then fails (returned (err CoreInstanceError.state_check_failed)) i
        (record { result = ok tt; killed = []; world = w })
    else run_core i a i.core_type (
        kill_by_pid_file a.table i.pid_path (some (get_supported_cores_executables a.exe_suffix)) w)

-- The tries of a loop of `kill`, from the try `n`: an error ends it, and so does an exit.
pub poll : ℕ → ℕ → Tries → Polled × ℕ
poll zero n tries = (not_yet, n)
poll (suc left) n tries =
    let more = poll left (suc n) tries in
    elim (tries n) [
      | err e ↦ (broken e, suc n)
      | ok found ↦ elim found [ none ↦ more | some status ↦ (exited, suc n) ]
    ]

abbrev pub graceful_waits : ℕ
graceful_waits = 20

abbrev pub forced_waits : ℕ
forced_waits = 30

-- What the system answers to `kill`: whether the blocking task runs to its end, the signal of the
-- graceful kill, the forced kill, and the tries to wait, counted over the whole call.
pub record KillAnswers : Type 0 where
  pub joined : Bool
  pub term : Io (Unit {0})
  pub forced : Io (Unit {0})
  pub tries : Tries

pub record KillOutcome : Type 0 where
  pub result : Result CoreInstanceError (Unit {0})
  pub after : CoreInstance
  pub tried : ℕ

abbrev pub forced_end : CoreInstance → Polled × ℕ → KillOutcome
forced_end i (exited, n) = record {
  result = ok tt;
  after = record i { instance = none; state = stopped };
  tried = n;
}
forced_end i (broken e, n) = record { result = err (CoreInstanceError.io e); after = i; tried = n }
forced_end i (not_yet, n) = record {
  result = err (CoreInstanceError.io (io_error ErrorKind.other));
  after = i;
  tried = n;
}

-- The forced kill.
abbrev pub force : CoreInstance → Io (Unit {0}) → ℕ → Tries → KillOutcome
force i (err e) n tries = record { result = err (CoreInstanceError.io e); after = i; tried = n }
force i (ok _) n tries = forced_end i (poll forced_waits n tries)

-- After the wait for the graceful kill.
abbrev pub graceful_end : CoreInstance → KillAnswers → Polled × ℕ → KillOutcome
graceful_end i a (exited, n) = record { result = ok tt; after = i; tried = n }
graceful_end i a (broken e, n) = record {
  result = err (CoreInstanceError.io e);
  after = i;
  tried = n;
}
graceful_end i a (not_yet, n) = force i a.forced n a.tries

-- After the graceful kill.
abbrev pub graceful_done : CoreInstance → KillAnswers → Io (Unit {0}) × ℕ → KillOutcome
graceful_done i a (ok _, n) = graceful_end i a (poll graceful_waits n a.tries)
graceful_done i a (err e, n) = force i a.forced n a.tries

abbrev pub kill_child : CoreInstance → KillAnswers → Option ℕ → KillOutcome
kill_child i a none = record {
  result = err CoreInstanceError.state_check_failed;
  after = i;
  tried = 0;
}
kill_child i a (some child) =
    if a.joined
    then graceful_done i a (gracefully_kill a.term 0 a.tries)
    else force i a.forced 0 a.tries

-- `kill`
unfoldable pub kill : CoreInstance → KillAnswers → KillOutcome
unfolding gracefully_kill poll
kill i a = kill_child i a i.instance

-- `drop`: the instance afterwards, and the child that is killed.
unfoldable pub drop_instance : CoreInstance → CoreInstance × Option ℕ
drop_instance i = (record i { instance = none }, i.instance)
