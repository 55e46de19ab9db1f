-- ===== src/Examples/Spawning.antt =====
-- Spawned processes at concrete inputs.
use nyanpasu_utils.Text.Utf8.{is_utf8}
use nyanpasu_utils.System.Files.{read_to_string}
use nyanpasu_utils.Text.Words.{trim}
use nyanpasu_utils.PidFile.Store.{read_epoch_pid_file}
use nyanpasu_utils.Text.Decimal.{decimal}
use nyanpasu_utils.PidFile.Names.{artifact_name}
use nyanpasu_utils.Text.FilePath.{join_path}
use nyanpasu_utils.PidFile.Store.{validate_pid_target}
use nyanpasu_utils.System.Files.{symlink_metadata}
use nyanpasu_utils.PidFile.Store.{validate_runtime_target}
use nyanpasu_utils.Text.FilePath.{path_eq}
use nyanpasu_utils.Text.FilePath.{parent}
use nyanpasu_utils.Text.Decimal.{parse_uint}
use nyanpasu_utils.Text.Affix.{strip_suffix}
use nyanpasu_utils.Text.Affix.{strip_prefix}
use nyanpasu_utils.PidFile.Names.{epoch_from_file_name}
use nyanpasu_utils.Text.Words.{after_last, split_whitespace}
use nyanpasu_utils.Text.Lines.{join}
use nyanpasu_utils.Text.FilePath.{file_name}
use nyanpasu_utils.System.Files.{try_exists, create_new, write_all, sync, hard_link, remove_file}
use nyanpasu_utils.AtomicFs.{atomic_move_new}
use nyanpasu_utils.PidFile.Record.{exe_names_equal}
use nyanpasu_utils.PidFile.Identity.{
  process_identity, identity_of, linux_start_ticks, ticks_of_stat, executable_name,
  boot_bound_start_token,
}
use nyanpasu_utils.PidFile.Format.{serialize_epoch_record}
use nyanpasu_utils.PidFile.Store.{write_and_clean, temp_path, write_epoch_record}
use nyanpasu_utils.PidFile.Reap.{wait_for_process_identity, wait_attempts}
use nyanpasu_utils.PidFile.Guard.{write}
use nyanpasu_utils.Prelude.{
  ℕ, ◌≡◌, refl, ◌⊎◌, true, false, none, some, [], ◌∷◌, Bytes, bytes_eq, codes, if◌then◌else◌, ◌==◌,
}
use mathlib.Core.List.{map}
use nyanpasu_utils.Io.{Result, ok, io_error, ErrorKind}
use nyanpasu_utils.Process.{TerminatedPayload, ProcessError}
use nyanpasu_utils.System.World.{World, file}
use nyanpasu_utils.PidFile.Guard.{PidFileGuard}
use nyanpasu_utils.PidFile.Guard
use nyanpasu_utils.PidFile.Guard.Publish.{Recorded}
use nyanpasu_utils.Engine.Pump.{here}
use nyanpasu_utils.Engine.PumpState.{start_pump}
use nyanpasu_utils.Engine.Command.{Command, new_command, with_setting, Setting}
use nyanpasu_utils.Engine.Spawn.{Launch, Mechanism, SpawnParts, prepare_guard, spawn}
use nyanpasu_utils.Engine.Spawn.Owned.{leaves_child, spawn_io_error, spawn_owned}
use nyanpasu_utils.Engine.Handle
use nyanpasu_utils.Engine.Handle.{
  wait, told, look_at, Sent, channel_closed, kill_process, graceful_kill_process,
  write_stdin_process, finished_by,
}
use nyanpasu_utils.Engine.Handle.Waiting.{wait_told, wait_returns}
use nyanpasu_utils.Os.{ProcessTable, kill_by_pid_file}
use nyanpasu_utils.Os.Validated.{Validated, kill_by_pid_file_lem}
use nyanpasu_utils.PidFile.Guard.{create_pid_file, get_pid_from_file}
use nyanpasu_utils.Examples.Files.{quiet, pid_path-HasTemps}
use nyanpasu_utils.Examples.Guards.{alive, spec}
use nyanpasu_utils.Examples.Pumping
use nyanpasu_utils.Examples.Pumping.{parts, fresh, told_run, exit_code_1}

abbrev exit_result : Result ProcessError TerminatedPayload
exit_result = ok exit_code_1

wait_told_example :
    (x : Result Bytes TerminatedPayload) × (Pumping.told.published ≡ x ∷ [])
    × (exit_result ≡ told x)
unfolding wait look_at start_pump
wait_told_example =
    wait_told parts 0 (fresh ∷ Pumping.told ∷ []) Pumping.told exit_result fresh here
      (here, (told_run, here)) refl

wait_returns_example :
    (x : Result Bytes TerminatedPayload) × (Pumping.told.published ≡ x ∷ [])
    × (wait (map look_at (fresh ∷ Pumping.told ∷ [])) ≡ some (told x))
wait_returns_example =
    wait_returns parts 0 (fresh ∷ []) Pumping.told fresh here (here, told_run) refl

abbrev config_7 : Bytes
config_7 = codes "/run/config-7.yaml"

-- The configuration of epoch 7 is there, and the core will run.
abbrev ready : World
ready = record alive {
  files = λ q. if bytes_eq config_7 q then some (file (codes "mode: rule")) else alive.files q;
}

abbrev command : Command
command = with_setting (Setting.epoch_pid_file spec) (new_command (codes "/bin/mihomo"))

abbrev launch : Launch
launch = record {
  group_made = true;
  mechanism = Mechanism.process_group;
  starts = true;
  pid = some 4242;
  has_stdin = false;
  has_events = true;
  events_error = [];
  now = 0;
}

abbrev owned_parts : SpawnParts
owned_parts = record { pid = 4242; containment = Handle.Containment.process_group }

spawn_prepared :
    prepare_guard command ready
    ≡ (ok (some (Guard.epoch spec (codes "mihomo") none)), (prepare_guard command ready).1)
unfolding prepare_guard with_setting new_command epoch_from_file_name strip_prefix strip_suffix
    parse_uint parent path_eq validate_runtime_target symlink_metadata validate_pid_target join_path
    artifact_name decimal read_epoch_pid_file
spawn_prepared = refl

spawn_free : (prepare_guard command ready).1.files spec.path ≡ none
unfolding prepare_guard with_setting new_command epoch_from_file_name strip_prefix strip_suffix
    parse_uint parent path_eq validate_runtime_target symlink_metadata validate_pid_target join_path
    artifact_name decimal read_epoch_pid_file
spawn_free = refl

spawn_succeeds : (spawn command launch ready).result ≡ ok owned_parts
unfolding spawn with_setting new_command epoch_from_file_name strip_prefix strip_suffix parse_uint
    parent path_eq validate_runtime_target symlink_metadata validate_pid_target join_path
    artifact_name decimal read_epoch_pid_file bytes_eq write wait_for_process_identity wait_attempts
    process_identity identity_of linux_start_ticks ticks_of_stat after_last join split_whitespace
    executable_name file_name is_utf8 trim boot_bound_start_token exe_names_equal write_epoch_record
    try_exists write_and_clean create_new temp_path serialize_epoch_record write_all sync
    atomic_move_new hard_link remove_file
spawn_succeeds = refl

spawn_owned_example :
    (g : PidFileGuard) × ((spawn command launch ready).guard ≡ some g)
    × Recorded
        (prepare_guard command ready).1
        spec
        (codes "mihomo")
        4242
        g
        (spawn command launch ready).world
unfolding with_setting
spawn_owned_example =
    spawn_owned command launch ready (prepare_guard command ready).1 spec spec (codes "mihomo")
      owned_parts refl spawn_prepared pid_path-HasTemps spawn_free spawn_succeeds

-- The child never shows its identity: the record is not written.
abbrev unseen : World
unseen = record ready { proc = quiet.proc }

spawn_io_error_example : leaves_child (spawn command launch unseen).acts ≡ false
unfolding spawn with_setting new_command epoch_from_file_name strip_prefix strip_suffix parse_uint
    parent path_eq validate_runtime_target symlink_metadata validate_pid_target join_path
    artifact_name decimal read_epoch_pid_file bytes_eq write wait_for_process_identity wait_attempts
    process_identity identity_of linux_start_ticks ticks_of_stat after_last join split_whitespace
    executable_name file_name is_utf8 trim boot_bound_start_token exe_names_equal write_epoch_record
    try_exists write_and_clean create_new temp_path serialize_epoch_record write_all sync
    atomic_move_new hard_link remove_file
spawn_io_error_example =
    spawn_io_error command launch unseen (io_error ErrorKind.permission_denied) refl

-- The core of the number in `/run/core-6.pid` runs.
abbrev table : ProcessTable
table = record {
  process = λ pid. if pid == 4242 then some (some (codes "/bin/mihomo")) else none;
  kill_tree = λ pid. ok tt;
  lowercase = λ s. s;
}

kill_by_pid_file_lem_example :
    ((kill_by_pid_file table (codes "/run/core-6.pid") (some (codes "mihomo" ∷ [])) quiet).killed
      ≡ [])
    ⊎ ((pid : ℕ) × ((get_pid_from_file (codes "/run/core-6.pid") quiet).0 ≡ some pid)
        × ((kill_by_pid_file table
              (codes "/run/core-6.pid")
              (some (codes "mihomo" ∷ []))
              quiet).killed
            ≡ pid ∷ [])
        × Validated table (codes "mihomo" ∷ []) pid)
kill_by_pid_file_lem_example =
    kill_by_pid_file_lem table (codes "/run/core-6.pid") (codes "mihomo" ∷ []) quiet

-- It is killed, and its file removed.
kill_by_file :
    (kill_by_pid_file table (codes "/run/core-6.pid") (some (codes "mihomo" ∷ [])) quiet).killed
    ≡ 4242 ∷ []
unfolding kill_by_pid_file parse_uint trim read_to_string bytes_eq is_utf8
kill_by_file = refl

-- The pid file of a core that is started, at a free name.
abbrev fresh_path : Bytes
fresh_path = codes "/run/core.pid"

abbrev after_create : World
after_create = (create_pid_file fresh_path 4242 quiet).1
