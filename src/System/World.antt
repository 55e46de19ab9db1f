-- ===== src/System/World.antt =====
-- The state of the operating system that the code can see and change. Time is counted in calls:
-- every system call advances the clock by one, and what the process table shows may depend on it.
-- So may which names are links of one file, and which directories are empty.
use nyanpasu_utils.Prelude.{ℕ, Bool, Option, List, Bytes, bytes_eq, if◌then◌else◌}
use nyanpasu_utils.Text.FilePath.{Component}
use nyanpasu_utils.Io.{Io, IoError}

pub data Node : Type 0 where
  file : Bytes → Node
  dir : Node
  symlink : Bytes → Node
  special : Node

-- Which node stands under a path.
abbrev pub Files : Type 0
Files = Bytes → Option Node

abbrev pub put_node : Files → Bytes → Option Node → Files
put_node fs p n q = if bytes_eq p q then n else fs q

-- A call that fails, and how many bytes it had written by then.
pub record Fault : Type 0 where
  pub error : IoError
  pub written : ℕ

-- What the reads of one call of `process_identity` return.
pub record ProcReads : Type 0 where
  pub first_stat : Io Bytes
  pub exe_link : Io Bytes
  pub second_stat : Io Bytes
  pub boot_id : Io Bytes

-- A signal: when it was sent, to which process, and whether through a pidfd.
pub record Signal : Type 0 where
  pub time : ℕ
  pub target : ℕ
  pub by_pidfd : Bool

pub record World : Type 0 where
  pub clock : ℕ
  pub files : Files
  pub same_file : ℕ → Bytes → Bytes → Bool
  pub is_empty_dir : ℕ → Bytes → Bool
  pub faults : ℕ → Option Fault
  pub proc : ℕ → ℕ → ProcReads
  pub pidfd_open : ℕ → ℕ → Io (Unit {0})
  pub send_signal : ℕ → ℕ → Io (Unit {0})
  pub canonical : ℕ → List Component → Io Bytes
  pub processes : ℕ → List (ℕ × Option ℕ)
  pub signals : List Signal
  pub locks : Bytes → Bool
  pub own_pid : ℕ
  pub temp_counter : ℕ
