-- ===== src/Os.antt =====
-- os/mod.rs: processes that are killed by the number in a pid file.
pub mod Validated
pub mod Written
pub mod Child
pub mod Elevated
use nyanpasu_utils.Prelude.{
  ℕ, ◌≡◌, refl, Bool, true, false, ◌||◌, Option, none, some, List, [], ◌∷◌, Bytes, codes,
  if◌then◌else◌,
}
use nyanpasu_utils.Io.{Io, IoError, Result, ok, err, io_error, ErrorKind}
use nyanpasu_utils.Text.Search.{contains}
use nyanpasu_utils.Text.Utf8.{from_utf8_lossy}
use nyanpasu_utils.System.World.{World}
use nyanpasu_utils.System.Files.{remove_file}
use nyanpasu_utils.PidFile.Guard.{get_pid_from_file}

-- What the sysinfo and kill_tree crates answer: which processes the one look of `pid_exists` finds, with
-- the path of their executable, if it is known; and what the kill of a tree gives, a later call that looks
-- for itself. `lowercase` is `str::to_lowercase`.
pub record ProcessTable : Type 0 where
  pub process : ℕ → Option (Option Bytes)
  pub kill_tree : ℕ → Io (Unit {0})
  pub lowercase : Bytes → Bytes

abbrev pub exe_contains : ProcessTable → Option Bytes → Bytes → Bool
exe_contains t none name = false
exe_contains t (some exe) name = contains name (t.lowercase (from_utf8_lossy exe))

-- `validator.iter().any(…)`
abbrev pub any_name : ProcessTable → Option Bytes → List Bytes → Bool
any_name t exe [] = false
any_name t exe (name ∷ names) = let rest = any_name t exe names in exe_contains t exe name || rest

abbrev pub validated : ProcessTable → Option (List Bytes) → Option Bytes → Bool
validated t none exe = true
validated t (some names) exe = any_name t exe names

-- `pid_exists`
unfoldable pub pid_exists : ProcessTable → ℕ → Option (List Bytes) → Bool
unfolding contains from_utf8_lossy
pid_exists t pid validator = elim (t.process pid) [
  | none ↦ false
  | some exe ↦ validated t validator exe
]

-- The result, the numbers that `kill_tree` was called with, and the world afterwards.
pub record Killed : Type 0 where
  pub result : Io (Unit {0})
  pub killed : List ℕ
  pub world : World

abbrev pub kill_error : Io (Unit {0}) → Io (Unit {0})
kill_error (ok _) = ok tt
kill_error (err e) = err (io_error ErrorKind.other)

-- `kill_pid`, which touches no file.
unfoldable pub kill_pid : ProcessTable → ℕ → Option (List Bytes) → Io (Unit {0}) × List ℕ
unfolding pid_exists
kill_pid t pid validator =
    if pid_exists t pid validator then (kill_error (t.kill_tree pid), pid ∷ []) else (ok tt, [])

-- The end of `kill_by_pid_file`: the file is removed if the kill did not fail.
abbrev pub remove_killed : Bytes → Io (Unit {0}) × List ℕ → World → Killed
remove_killed path (err e, killed) w = record { result = err e; killed = killed; world = w }
remove_killed path (ok _, killed) w = record {
  result = (remove_file path w).0;
  killed = killed;
  world = (remove_file path w).1;
}

abbrev pub kill_read : ProcessTable → Bytes → Option (List Bytes) → Option ℕ × World → Killed
kill_read t path validator (none, w) = record { result = ok tt; killed = []; world = w }
kill_read t path validator (some pid, w) = remove_killed path (kill_pid t pid validator) w

-- `kill_by_pid_file`
unfoldable pub kill_by_pid_file : ProcessTable → Bytes → Option (List Bytes) → World → Killed
unfolding kill_pid get_pid_from_file
kill_by_pid_file t path validator w = kill_read t path validator (get_pid_from_file path w)
