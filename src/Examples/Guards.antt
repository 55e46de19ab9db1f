-- ===== src/Examples/Guards.antt =====
-- Guards of pid files at concrete inputs.
use nyanpasu_utils.Prelude.{◌≡◌, refl, ◌⊎◌, none, some, codes}
use nyanpasu_utils.Io.{ok}
use nyanpasu_utils.Prelude.{bytes_eq}
use nyanpasu_utils.Text.Words.{after_last, split_whitespace, trim}
use nyanpasu_utils.Text.Lines.{join}
use nyanpasu_utils.Text.Decimal.{decimal, parse_uint}
use nyanpasu_utils.Text.FilePath.{file_name}
use nyanpasu_utils.Text.Utf8.{is_utf8}
use nyanpasu_utils.System.Files.{
  symlink_metadata, try_exists, create_new, write_all, sync, hard_link, remove_file,
}
use nyanpasu_utils.AtomicFs.{atomic_move_new}
use nyanpasu_utils.PidFile.Record.{exe_names_equal}
use nyanpasu_utils.PidFile.Identity.{
  process_identity, identity_of, linux_start_ticks, ticks_of_stat, executable_name,
  boot_bound_start_token,
}
use nyanpasu_utils.PidFile.Format.{serialize_epoch_record}
use nyanpasu_utils.PidFile.Store.{
  validate_pid_target, write_and_clean, temp_path, write_epoch_record,
}
use nyanpasu_utils.System.World.{World}
use nyanpasu_utils.PidFile.Record.{EpochPidFile, EpochPidRecord}
use nyanpasu_utils.PidFile.Reap.{wait_for_process_identity, wait_attempts}
use nyanpasu_utils.PidFile.Guard.{
  PidFileGuard, legacy, epoch, write, cleanup, reap_epoch_pid_file, prepare_epoch,
  normalize_epoch_spec,
}
use nyanpasu_utils.PidFile.Guard.Contained.{Untouched, Contained, FitsSpec, Leftover}
use nyanpasu_utils.PidFile.Reap.Signals.{Lawful}
use nyanpasu_utils.PidFile.Descendants.Safety.{TreeSignal}
use nyanpasu_utils.PidFile.Guard.Prepared.{prepare_justified}
use nyanpasu_utils.PidFile.Guard.Justified.{reap_pid_file_justified}
use nyanpasu_utils.PidFile.Guard.Cleanup.{Owns, cleanup_only_own}
use nyanpasu_utils.PidFile.Guard.Publish.{Recorded, guard_write_lem}
use nyanpasu_utils.Examples.Files.{quiet, written, pid_path, config_path, pid_path-HasTemps}
use nyanpasu_utils.Examples.Reaping.{live, mihomo_identity}

reap_pid_file_justified_example :
    Untouched written (reap_epoch_pid_file pid_path (codes "/run") written).1
    ⊎ ((c : Contained written pid_path (codes "/run")) × Lawful
          (TreeSignal written.proc written.processes written.clock written.signals c.orphan)
          written.signals
          (reap_epoch_pid_file pid_path (codes "/run") written).1.signals)
reap_pid_file_justified_example = reap_pid_file_justified pid_path (codes "/run") written

abbrev pub spec : EpochPidFile
spec = record { path = pid_path; epoch = 7; runtime_config = codes "/run/config-7.yaml" }

prepare_justified_example :
    Untouched written (prepare_epoch spec (codes "mihomo") written).1
    ⊎ ((normal : EpochPidFile) × (r : EpochPidRecord) × ((normalize_epoch_spec spec written).0
          ≡ ok normal)
        × Leftover normal r (normalize_epoch_spec spec written).1
        × FitsSpec r normal (codes "mihomo")
        × Lawful
            (TreeSignal written.proc written.processes written.clock written.signals r)
            written.signals
            (prepare_epoch spec (codes "mihomo") written).1.signals)
prepare_justified_example = prepare_justified spec (codes "mihomo") written

cleanup_only_own_example :
    ((cleanup (legacy pid_path 4242) written).files config_path ≡ written.files config_path)
    ⊎ Owns (legacy pid_path 4242) written config_path
cleanup_only_own_example = cleanup_only_own (legacy pid_path 4242) config_path written

abbrev pub alive : World
alive = record quiet { proc = λ t pid. live }

abbrev after_write : PidFileGuard
after_write = epoch spec (codes "mihomo") (
    some (record {
      pid = 4242;
      epoch = 7;
      executable = mihomo_identity.executable;
      start_token = mihomo_identity.start_token;
      runtime_config = codes "/run/config-7.yaml";
    }))

alive_writes : (write (epoch spec (codes "mihomo") none) 4242 alive).0 ≡ ok after_write
unfolding bytes_eq write wait_for_process_identity wait_attempts process_identity identity_of
    linux_start_ticks ticks_of_stat after_last join split_whitespace parse_uint executable_name
    file_name is_utf8 trim boot_bound_start_token exe_names_equal write_epoch_record
    validate_pid_target symlink_metadata try_exists write_and_clean create_new temp_path
    serialize_epoch_record write_all decimal sync atomic_move_new hard_link remove_file
alive_writes = refl

guard_write_lem_example :
    Recorded alive spec
      (codes "mihomo")
      4242
      after_write
      (write (epoch spec (codes "mihomo") none) 4242 alive).1
unfolding bytes_eq
guard_write_lem_example =
    guard_write_lem spec (codes "mihomo") none 4242 after_write alive pid_path-HasTemps refl
      alive_writes
