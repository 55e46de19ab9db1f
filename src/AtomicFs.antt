-- ===== src/AtomicFs.antt =====
-- src/io/atomic_fs.rs on Unix: checks of a path before it is used, publication of a file under a new
-- name, replacement, and the lock of a directory.
pub mod Laws
use nyanpasu_utils.Prelude.{
  ℕ, ◌≡◌, refl, Bool, true, false, not, ◌||◌, Option, none, some, Bytes, if◌then◌else◌,
}
use nyanpasu_utils.Io.{
  IoError, Result, ok, err, ErrorKind, io_error, is_not_found, is_would_block, is_permission_denied,
}
use nyanpasu_utils.System.World.{World, Node, file, dir, symlink, special}
use nyanpasu_utils.System.Act.{Act, Sys, and_then, ◌>>=◌, ◌>>◌, lift, pure, attempt, map_err}
use nyanpasu_utils.System.Files.{
  symlink_metadata, remove_file, hard_link, rename, sync, open_or_create, flock, unlock,
}

-- `AtomicFsError`
pub data AtomicFsError : Type 0 where
  unsafe_path : Bytes → AtomicFsError
  contended : Bytes → AtomicFsError
  io : IoError → AtomicFsError

-- `is_reparse_point` of a system other than Windows.
abbrev pub is_reparse_point : Node → Bool
is_reparse_point _ = false

abbrev pub is_symlink : Node → Bool
is_symlink (symlink _) = true
is_symlink _ = false

abbrev pub is_file : Node → Bool
is_file (file _) = true
is_file _ = false

-- The test that each of the operations makes.
abbrev pub is_unsafe : Node → Bool
is_unsafe n = is_symlink n || (not (is_file n) || is_reparse_point n)

-- `dir_lock_is_contended`
abbrev pub dir_lock_is_contended : IoError → Bool
dir_lock_is_contended e = is_would_block e.kind || is_permission_denied e.kind

abbrev pub lock_error : Bytes → IoError → AtomicFsError
lock_error p e = if dir_lock_is_contended e then contended p else io e

abbrev pub check_lock_target : Bytes → Result IoError Node → Result AtomicFsError (Unit {0})
check_lock_target p (ok n) = if is_unsafe n then err (unsafe_path p) else ok tt
check_lock_target p (err e) = if is_not_found e.kind then ok tt else err (io e)

-- `acquire_dir_lock`, which hands out the file whose lock is held.
unfoldable pub acquire_dir_lock : Bytes → Act AtomicFsError Bytes
acquire_dir_lock p = do
  found ← attempt (symlink_metadata p)
  lift (check_lock_target p found)
  f ← map_err (lock_error p) (open_or_create p)
  map_err (lock_error p) (flock f)
  pure f

-- `DirLock` is dropped.
unfoldable pub drop_dir_lock : Bytes → World → World
unfolding unlock
drop_dir_lock f w = unlock f w

abbrev pub absent_result : Bytes → Result IoError Node → Result AtomicFsError (Unit {0})
absent_result p (ok n) =
    if is_unsafe n then err (unsafe_path p) else err (io (io_error ErrorKind.already_exists))
absent_result p (err e) = if is_not_found e.kind then ok tt else err (io e)

-- `validate_absent_regular_target`
unfoldable pub validate_absent_regular_target : Bytes → Act AtomicFsError (Unit {0})
validate_absent_regular_target p = do
  found ← attempt (symlink_metadata p)
  lift (absent_result p found)

-- `validate_existing_regular_target`
unfoldable pub validate_existing_regular_target : Bytes → Act AtomicFsError (Unit {0})
validate_existing_regular_target p = do
  metadata ← map_err io (symlink_metadata p)
  lift (if is_unsafe metadata then err (unsafe_path p) else ok tt)

abbrev pub remove_found : Bytes → Result IoError Node → Act AtomicFsError (Unit {0})
remove_found p (ok n) =
    if is_unsafe n then lift (err (unsafe_path p)) else map_err io (remove_file p)
remove_found p (err e) = lift (if is_not_found e.kind then ok tt else err (io e))

-- `remove_regular_file`
unfoldable pub remove_regular_file : Bytes → Act AtomicFsError (Unit {0})
remove_regular_file p = do found ← attempt (symlink_metadata p); remove_found p found

-- `atomic_move_new`: a link under the new name, then the old name is removed.
unfoldable pub atomic_move_new : Bytes → Bytes → Act AtomicFsError (Unit {0})
atomic_move_new source target = do
  map_err io (hard_link source target)
  map_err io (remove_file source)

-- `atomic_replace`
unfoldable pub atomic_replace : Bytes → Bytes → Act AtomicFsError (Unit {0})
atomic_replace source target = map_err io (rename source target)

-- `sync_dir`
unfoldable pub sync_dir : Sys (Unit {0})
sync_dir = sync
