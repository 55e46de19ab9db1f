-- ===== src/PidFile/Store.antt =====
-- The files behind epoch records: checks of a path, `read_epoch_pid_file`, `write_epoch_record` and
-- `remove_record_if_matches` of src/process/pid_file.rs.
pub mod Laws
pub mod Publish
pub mod Reading
use nyanpasu_utils.Prelude.{
  ℕ, ◌+◌, ◌≡◌, refl, Bool, true, false, not, Option, none, some, List, [], ◌∷◌, ◌++◌, Bytes, codes,
  if◌then◌else◌, length, drop, ◌%◌, ◌^◌, ◌==◌, ◌&&◌,
}
use nyanpasu_utils.Io.{
  Io, IoError, Result, ok, err, ErrorKind, io_error, is_not_found, is_already_exists,
}
use nyanpasu_utils.Text.Decimal.{decimal, reverse_onto}
use nyanpasu_utils.Text.Lines.{is_empty}
use nyanpasu_utils.Text.FilePath.{file_name}
use nyanpasu_utils.System.World.{World, Node, file, dir, symlink, special}
use nyanpasu_utils.System.Act.{Act, Sys, and_then, ◌>>=◌, ◌>>◌, lift, pure, attempt, map_err}
use nyanpasu_utils.System.Files.{
  symlink_metadata, read_to_string, try_exists, remove_file, create_new, write_all, sync,
}
use nyanpasu_utils.AtomicFs.{
  AtomicFsError, unsafe_path, contended, io, is_symlink, is_file, is_reparse_point, atomic_move_new,
}
use nyanpasu_utils.PidFile.Record.{EpochPidRecord, record_eq}
use nyanpasu_utils.PidFile.Format.{invalid_input, serialize_epoch_record, parse_epoch_record}

-- The checks of `validate_pid_target` and `validate_runtime_target`, in the order of the arms.
abbrev pub pid_target_result : Io Node → Io (Unit {0})
pid_target_result (ok n) =
    if is_symlink n
    then invalid_input
    else if not (is_file n)
    then invalid_input
    else if is_reparse_point n
    then invalid_input
    else ok tt
pid_target_result (err e) = if is_not_found e.kind then ok tt else err e

abbrev pub runtime_target_result : Io Node → Io (Unit {0})
runtime_target_result (ok n) =
    if is_symlink n then invalid_input else if not (is_file n) then invalid_input else ok tt
runtime_target_result (err e) = if is_not_found e.kind then ok tt else err e

-- `validate_pid_target`
unfoldable pub validate_pid_target : Bytes → Sys (Unit {0})
validate_pid_target path = do
  found ← attempt (symlink_metadata path)
  lift (pid_target_result found)

-- `validate_runtime_target`
unfoldable pub validate_runtime_target : Bytes → Sys (Unit {0})
validate_runtime_target path = do
  found ← attempt (symlink_metadata path)
  lift (runtime_target_result found)

abbrev pub read_found : Bytes → Io Node → Sys (Option EpochPidRecord)
read_found path (ok n) =
    if is_symlink n
    then lift invalid_input
    else if not (is_file n)
    then lift invalid_input
    else (do raw ← read_to_string path; value ← lift (parse_epoch_record raw); pure (some value))
read_found path (err e) = if is_not_found e.kind then pure none else lift (err e)

-- `read_epoch_pid_file`: no file is no error, but a file that is no record is one.
unfoldable pub read_epoch_pid_file : Bytes → Sys (Option EpochPidRecord)
read_epoch_pid_file path = do found ← attempt (symlink_metadata path); read_found path found

-- What stands before the last dot of a name, both last character first; a dot that begins the name
-- begins no extension.
abbrev stem_from : Bytes → Bytes → Bytes
stem_from whole [] = whole
stem_from whole (c ∷ s) =
    let further = stem_from whole s in
    if c == b'.' then (if is_empty s then whole else s) else further

-- A path, last character first, without the slashes and dots behind its name.
abbrev drop_slashes : Bytes → Bytes
drop_slashes [] = []
drop_slashes (c ∷ []) = c ∷ []
drop_slashes (c ∷ d ∷ s) =
    let after_slash = drop_slashes (d ∷ s) in
    let after_dot = drop_slashes s in
    if c == b'/' then after_slash else if c == b'.' && d == b'/' then after_dot else c ∷ d ∷ s

-- `path.with_extension(extension)`
unfoldable pub with_extension : Bytes → Bytes → Bytes
unfolding reverse_onto file_name
with_extension path extension = elim (file_name path) [
  | none ↦ path
  | some name ↦
      let whole = drop_slashes (reverse_onto path []) in
      let rev_name = reverse_onto name [] in
      reverse_onto (drop (length name) whole) []
      ++ (reverse_onto (stem_from rev_name rev_name) [] ++ b'.' ∷ extension)
]

-- `path.with_extension(format!("pid.tmp-{}-{counter}", std::process::id()))`
unfoldable pub temp_path : Bytes → ℕ → ℕ → Bytes
unfolding with_extension
temp_path path own_pid counter =
    with_extension path (codes "pid.tmp-" ++ (decimal own_pid ++ b'-' ∷ decimal counter))

-- `TEMP_COUNTER.fetch_add(1)` on a counter of 64 bits.
abbrev pub fetch_add : Sys ℕ
fetch_add w = (ok w.temp_counter, record w { temp_counter = (w.temp_counter + 1) % 2 ^ 64 })

abbrev pub current_pid : Sys ℕ
current_pid w = (ok w.own_pid, w)

-- The errors of the publication, as `write_epoch_record` passes them on.
abbrev pub publish_error : AtomicFsError → IoError
publish_error (io e) = if is_already_exists e.kind then io_error ErrorKind.already_exists else e
publish_error (unsafe_path _) = io_error ErrorKind.other
publish_error (contended _) = io_error ErrorKind.other

-- The block whose result is kept while the temporary file is removed.
unfoldable pub write_temp : Bytes → Bytes → EpochPidRecord → Sys (Unit {0})
write_temp temp path r = do
  create_new temp
  content ← lift (serialize_epoch_record r)
  write_all temp content
  sync
  sync
  map_err publish_error (atomic_move_new temp path)

-- After the checks: the block, and the removal whose result is dropped.
unfoldable pub write_and_clean : Bytes → Bytes → EpochPidRecord → Sys (Unit {0})
unfolding write_temp
write_and_clean temp path r = do
  result ← attempt (write_temp temp path r)
  removed ← attempt (remove_file temp)
  lift result

-- `write_epoch_record`
unfoldable pub write_epoch_record : Bytes → EpochPidRecord → Sys (Unit {0})
write_epoch_record path r = do
  validate_pid_target path
  found ← try_exists path
  if found then lift (err (io_error ErrorKind.already_exists)) else do
    counter ← fetch_add
    own_pid ← current_pid
    write_and_clean (temp_path path own_pid counter) path r

abbrev pub same_record : Option EpochPidRecord → EpochPidRecord → Bool
same_record none expected = false
same_record (some r) expected = record_eq r expected

abbrev pub ignore_missing : Io (Unit {0}) → Io (Unit {0})
ignore_missing (ok _) = ok tt
ignore_missing (err e) = if is_not_found e.kind then ok tt else err e

-- `remove_record_if_matches`
unfoldable pub remove_record_if_matches : Bytes → EpochPidRecord → Sys (Unit {0})
unfolding read_epoch_pid_file
remove_record_if_matches path expected = do
  found ← read_epoch_pid_file path
  if not (same_record found expected)
      then pure tt
      else do removed ← attempt (remove_file path); lift (ignore_missing removed)

temp_runs : temp_path (codes "/run/core-7.pid") 41 2 ≡ codes "/run/core-7.pid.tmp-41-2"
unfolding temp_path decimal
temp_runs = refl
