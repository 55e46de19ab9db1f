-- ===== src/PidFile/Guard.antt =====
-- `PidFileGuard`, `reap_epoch_pid_file`, `normalize_epoch_spec` and `validate_record_for_spec` of
-- process/pid_file.rs, with `create_pid_file` and `get_pid_from_file` of os/mod.rs. What `canonicalize`
-- returns at a time is given by the world.
pub mod Contained
pub mod Justified
pub mod Prepared
pub mod Cleanup
pub mod Publish
use nyanpasu_utils.Prelude.{
  ℕ, ◌^◌, ◌≡◌, refl, Bool, true, false, not, ◌&&◌, ◌||◌, Option, none, some, List, [], ◌∷◌, Bytes,
  codes, ◌==◌, if◌then◌else◌,
}
use nyanpasu_utils.Io.{Io, ok, err, ok_or, io_error, ErrorKind, is_not_found}
use nyanpasu_utils.Text.Decimal.{decimal, parse_uint}
use nyanpasu_utils.Text.Words.{trim}
use nyanpasu_utils.Text.FilePath.{Component, components, path_eq, parent, join_path}
use nyanpasu_utils.System.World.{World}
use nyanpasu_utils.System.Act.{Act, Sys, and_then, ◌>>=◌, ◌>>◌, lift, pure, attempt, tick}
use nyanpasu_utils.System.Files.{read_to_string, remove_file, open_truncated, write_all}
use nyanpasu_utils.PidFile.Record.{
  EpochPidFile, EpochPidRecord, ProcessIdentity, OrphanReapOutcome, not_found, exe_names_equal,
}
use nyanpasu_utils.PidFile.Format.{invalid_input, invalid_data, identity_error}
use nyanpasu_utils.PidFile.Names.{epoch_from_file_name, artifact_name}
use nyanpasu_utils.PidFile.Reap.{wait_for_process_identity}
use nyanpasu_utils.PidFile.Descendants.{reap_record}
use nyanpasu_utils.PidFile.Store.{
  validate_pid_target, validate_runtime_target, read_epoch_pid_file, write_epoch_record,
  remove_record_if_matches,
}

-- `tokio::fs::canonicalize`
unfoldable pub canonicalize : List Component → Sys Bytes
canonicalize path w = (w.canonical w.clock path, tick w)

-- `path.parent().ok_or_else(..)`
abbrev pub parent_or_invalid : Bytes → Io (List Component)
parent_or_invalid path = ok_or (parent path) (io_error ErrorKind.invalid_input)

abbrev pub core_prefix : Bytes
core_prefix = codes "core-"

abbrev pub core_suffix : Bytes
core_suffix = codes ".pid"

abbrev pub config_prefix : Bytes
config_prefix = codes "config-"

abbrev pub config_suffix : Bytes
config_suffix = codes ".yaml"

abbrev pub normalized : EpochPidFile → Bytes → Bytes → EpochPidFile
normalized spec pid_parent config_parent = record {
  path = join_path pid_parent (artifact_name core_prefix core_suffix spec.epoch);
  epoch = spec.epoch;
  runtime_config = join_path config_parent (artifact_name config_prefix config_suffix spec.epoch);
}

-- `normalize_epoch_spec`
unfoldable pub normalize_epoch_spec : EpochPidFile → Sys EpochPidFile
unfolding canonicalize
normalize_epoch_spec spec = do
  pid_epoch ← lift (epoch_from_file_name spec.path core_prefix core_suffix)
  config_epoch ← lift (epoch_from_file_name spec.runtime_config config_prefix config_suffix)
  if not (pid_epoch == spec.epoch) || not (config_epoch == spec.epoch)
      then lift invalid_input
      else do
        pid_dir ← lift (parent_or_invalid spec.path)
        config_dir ← lift (parent_or_invalid spec.runtime_config)
        pid_parent ← canonicalize pid_dir
        config_parent ← canonicalize config_dir
        if not (path_eq pid_parent config_parent) then lift invalid_input else do
          validate_runtime_target spec.runtime_config
          pure (normalized spec pid_parent config_parent)

-- `validate_record_for_spec`
unfoldable pub validate_record_for_spec : EpochPidRecord → EpochPidFile → Bytes → Io (Unit {0})
validate_record_for_spec r spec expected_exe =
    if not (r.epoch == spec.epoch)
    then identity_error
    else if not (path_eq r.runtime_config spec.runtime_config)
    then identity_error
    else if not (exe_names_equal r.executable expected_exe)
    then identity_error
    else ok tt

-- The reap of `reap_epoch_pid_file`, when the checks have passed.
abbrev pub reap_and_remove : Bytes → EpochPidRecord → Sys OrphanReapOutcome
reap_and_remove path r = do outcome ← reap_record r; remove_record_if_matches path r; pure outcome

-- The checks of the record that was found.
abbrev pub reap_checked : Bytes → Bytes → ℕ → EpochPidRecord → Sys OrphanReapOutcome
reap_checked path runtime_dir epoch r = if not (r.epoch == epoch) then lift invalid_data else do
  runtime_parent ← lift (parent_or_invalid r.runtime_config)
  canonical_parent ← canonicalize runtime_parent
  if not (path_eq canonical_parent runtime_dir) then lift invalid_input else do
    runtime_epoch ← lift (epoch_from_file_name r.runtime_config config_prefix config_suffix)
    if not (runtime_epoch == epoch)
        then lift invalid_data
        else do validate_runtime_target r.runtime_config; reap_and_remove path r

abbrev pub reap_read : Bytes → Bytes → ℕ → Option EpochPidRecord → Sys OrphanReapOutcome
reap_read path runtime_dir epoch none = pure not_found
reap_read path runtime_dir epoch (some r) = reap_checked path runtime_dir epoch r

-- `reap_epoch_pid_file`
unfoldable pub reap_epoch_pid_file : Bytes → Bytes → Sys OrphanReapOutcome
unfolding canonicalize
reap_epoch_pid_file path runtime_dir = do
  canonical_dir ← canonicalize (components runtime_dir)
  dir ← lift (parent_or_invalid path)
  canonical_parent ← canonicalize dir
  if not (path_eq canonical_parent canonical_dir) then lift invalid_input else do
    epoch ← lift (epoch_from_file_name path core_prefix core_suffix)
    found ← read_epoch_pid_file path
    reap_read path canonical_dir epoch found

-- `create_pid_file`
unfoldable pub create_pid_file : Bytes → ℕ → Sys (Unit {0})
create_pid_file path pid = do target ← open_truncated path; write_all target (decimal pid)

abbrev text_or_empty : Io Bytes → Bytes
text_or_empty (ok text) = text
text_or_empty (err _) = []

-- `get_pid_from_file`
unfoldable pub get_pid_from_file : Bytes → World → Option ℕ × World
get_pid_from_file path w =
    let (content, w') = read_to_string path w in
    (parse_uint (2 ^ 32) (trim (text_or_empty content)), w')

-- `PidFileGuard`, with what its cells hold.
pub data PidFileGuard : Type 0 where
  legacy : (path : Bytes) (pid : ℕ) → PidFileGuard
  epoch :
      (spec : EpochPidFile) (expected_exe : Bytes) (written : Option EpochPidRecord) → PidFileGuard

-- `prepare_legacy`
unfoldable pub prepare_legacy : Bytes → Sys PidFileGuard
prepare_legacy path = do validate_pid_target path; pure (legacy path 0)

-- What is done with a record that a former run left.
abbrev pub reap_leftover : EpochPidFile → Bytes → Option EpochPidRecord → Sys (Unit {0})
reap_leftover spec expected_exe none = pure tt
reap_leftover spec expected_exe (some r) = do
  lift (validate_record_for_spec r spec expected_exe)
  outcome ← reap_record r
  remove_record_if_matches spec.path r

-- `prepare_epoch`
unfoldable pub prepare_epoch : EpochPidFile → Bytes → Sys PidFileGuard
unfolding normalize_epoch_spec validate_record_for_spec
prepare_epoch given expected_exe = do
  spec ← normalize_epoch_spec given
  validate_pid_target spec.path
  found ← read_epoch_pid_file spec.path
  reap_leftover spec expected_exe found
  pure (epoch spec expected_exe none)

abbrev pub record_of : ℕ → EpochPidFile → ProcessIdentity → EpochPidRecord
record_of pid spec identity = record {
  pid = pid;
  epoch = spec.epoch;
  executable = identity.executable;
  start_token = identity.start_token;
  runtime_config = spec.runtime_config;
}

-- `PidFileGuard::write`, with the guard's cells afterwards.
unfoldable pub write : PidFileGuard → ℕ → Sys PidFileGuard
unfolding create_pid_file
write (legacy path slot) pid = do create_pid_file path pid; pure (legacy path pid)
write (epoch spec expected_exe slot) pid = do
  found ← wait_for_process_identity pid
  identity ← lift (ok_or found (io_error ErrorKind.permission_denied))
  if not (exe_names_equal identity.executable expected_exe) then lift identity_error else do
    write_epoch_record spec.path (record_of pid spec identity)
    pure (epoch spec expected_exe (some (record_of pid spec identity)))

abbrev pub is_some_of : Option ℕ → ℕ → Bool
is_some_of none pid = false
is_some_of (some n) pid = n == pid

-- `PidFileGuard::cleanup`, which reports nothing.
unfoldable pub cleanup : PidFileGuard → World → World
unfolding get_pid_from_file
cleanup (legacy path pid) w =
    let (found, w') = get_pid_from_file path w in
    if is_some_of found pid then (remove_file path w').1 else w'
cleanup (epoch spec expected_exe none) w = w
cleanup (epoch spec expected_exe (some r)) w = (remove_record_if_matches spec.path r w).1
