-- ===== src/Lib.antt =====
-- A model of nyanpasu-utils: the records of spawned processes, their reaping, the process engine, the
-- supervision of a child, and the legacy instance of a core.
--
-- The program's parts. `process::Command` spawns a child through the engine (src/process/engine.rs),
-- which pumps its output and its end to an event channel, and keeps a pid file around it
-- (src/process/pid_file.rs). The pid file is an epoch record that proves the identity of a process;
-- a later run reaps the orphan that a record names. Records are published by the atomic operations
-- of src/io/atomic_fs.rs. `Supervisor` (src/process/supervisor.rs) restarts a child under a policy.
-- `CoreInstance` (src/core/instance.rs) is older: it kills by a numeric pid file (src/os/mod.rs),
-- starts a core with two threads, and reads its pipes by lines (src/io/mod.rs, src/core/utils.rs).
--
-- Where what is modelled:
--   Prelude, Io           numbers, lists, byte strings; `std::io::Error` and `Result`
--   Text                  decimal numbers, UTF-8, lines, words, search and paths, as the standard library
--                         has them
--   Io/ReadLine           `read_line` of src/io/mod.rs
--   Collections           `BTreeMap` and `BTreeSet` as ordered lists, over an interface of keys
--   System                the state of the operating system, actions that may fail, Hoare triples
--   AtomicFs              src/io/atomic_fs.rs on Unix: `acquire_dir_lock`, the two `validate_*`,
--                         `remove_regular_file`, `atomic_move_new`, `atomic_replace`, `sync_dir`
--   PidFile/Record, /Hex, /Format, /Names
--                         the types of src/process/pid_file.rs, `hex_encode`, `hex_decode`,
--                         `serialize_epoch_record`, `parse_epoch_record`, `epoch_from_file_name`
--   PidFile/Store         `read_epoch_pid_file`, `write_epoch_record`, `remove_record_if_matches`
--   PidFile/Identity      `process_identity`, `linux_start_ticks`, `boot_bound_start_token` on Linux
--   PidFile/Reap          `identity_for_reap`, `wait_for_process_identity`, `kill_recorded_process`,
--                         `reap_record_with_kill`
--   PidFile/Descendants   `descendant_pids`, `capture_descendants`, `merge_descendant_captures`,
--                         `reap_record`
--   PidFile/Guard         `PidFileGuard`, `reap_epoch_pid_file`, `normalize_epoch_spec`,
--                         `validate_record_for_spec`; `create_pid_file` and `get_pid_from_file` of
--                         src/os/mod.rs
--   Process               src/process/event.rs and src/process/error.rs
--   Engine/Command        `Command` of src/process/command.rs, `build_pk`
--   Engine/Spawn          `spawn` of src/process/engine.rs
--   Engine/Capture        `run_capture`, `ProcessOutput`
--   Engine/Stdin          `write_stdin` of src/process/engine.rs
--   Engine/Handle         `ProcessHandle` of src/process/handle.rs
--   Engine/Finish         `split_stderr_tail`, `normalize_finish`, the terminal events of `pump`
--   Engine/Control        `Ctrl` of src/process/handle.rs, `handle_ctrl`
--   Engine/PumpState, /Pump
--                         `pump`, its variables and its three loops
--   Supervisor/Backoff    `Backoff`, `delay_for`, `time_entropy`
--   Supervisor/Storm      `RestartStormPolicy` and the window of abnormal exits
--   Supervisor/State, /Loop
--                         the loop of `SupervisorBuilder::spawn`, `acknowledge_ready`, `stop`
--   Os                    `pid_exists`, `kill_pid`, `kill_by_pid_file` of src/os/mod.rs
--   Os/Child, /Elevated   `gracefully_kill` of src/os/child.rs, `is_elevated` of src/os/elevated.rs, on Unix
--   Core/Definition       the enumerations and tables of src/core/definition.rs
--   Core/CheckOutput, /PipeReader
--                         `parse_check_output`, `spawn_pipe_reader` of src/core/utils.rs
--   Core/Builder, /CheckConfig, /Instance
--                         src/core/instance.rs: `validate`, `check_config_`, `run`, `kill`, `drop`
--   Core/Instance/Threads the two threads that `run` starts for a child
--   Dirs                  src/dirs.rs on Linux
--   Examples              concrete inputs
--
-- How code corresponds to definitions. A function keeps its name; a block of a function that is a
-- definition of its own has a comment that says which. Code that calls the operating system is an
-- action on `World`, in the order of the source, with `?` as the bind. Time in `World` is counted in
-- calls, and a fault may strike at any call: `faults` gives the error of a call, and how much of its
-- text a write had written by then. What the process table, `canonicalize`, pidfds and signals
-- answer may differ from call to call. A loop with `select!` is a step function on a record of the
-- function's variables: an input says which branch was taken, and a branch can be taken whenever its
-- condition holds, also where `biased` would prefer another one. The time of those records is in
-- nanoseconds and moves between any two steps; so do the owner and the child of a supervision.
--
-- Machine integers have their bounds written out: a wrap as a remainder, a saturation as a minimum.
--
-- Bounds and fuel. `identity_for_reap` and `wait_for_process_identity` make 20 attempts and the wait
-- after a kill 100, the constants of the source. A chain of 40 symbolic links is followed, as Linux
-- does. `descendant_pids` has one unit of fuel more than the process table has entries: a process
-- enters the stack at most once, when it is inserted into the set, and each entry names one process.
-- `CoreInstance::kill` looks at the child once and 30 times in `gracefully_kill`, 20 times after it and
-- 30 times after the forced kill, the constants of the source. The reader of a pipe has one round of
-- fuel more than the stream has bytes: each round but the last takes one byte at least.
--
-- What other crates answer is an argument: the steps of a spawn and the results of processkit, the
-- process table of sysinfo, the kill of kill_tree, `try_wait` of shared_child, the user of nix, the
-- decoders of encoding_rs, and `str::to_lowercase`, whose tables are not written out. A panic is `none`,
-- or `panicked`.
--
-- A kill records the call: what `group.kill_all()` returns is dropped by the code, and the tree that
-- `kill_tree` finds under a number is that of a later moment than the look of `pid_exists`.
--
-- Not modelled: the texts of logs, of errors of the operating system, and of failed spawns;
-- Windows, and Unix other than Linux for the identity of a process; other processes that change
-- files between two calls of one operation; directories as parts of paths (a path names a node as
-- a whole; which directories are empty, and which names are links of one file, is asked of
-- `World`); the test and the exchange of `acknowledge_ready` are one step, and so are a test of
-- the token and the event that follows it and, in Core/Instance/Threads, a write of the state and
-- the event that follows it, and a spawn and the store of its child; the order in which the tasks
-- that send the lines of a pipe are run; src/network, which runs scripts on macOS, and
-- src/runtime, which only calls tokio.
pub mod Prelude
pub mod Io
pub mod Text
pub mod Collections
pub mod System
pub mod AtomicFs
pub mod PidFile
pub mod Process
pub mod Engine
pub mod Supervisor
pub mod Os
pub mod Core
pub mod Dirs
mod Examples
