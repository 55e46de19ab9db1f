-- ===== src/Examples/Files.antt =====
-- Files of a small world, at concrete inputs.
use nyanpasu_utils.Prelude.{
  ℕ, ◌≡◌, refl, ap, ◌≢◌, false, none, some, [], Bytes, bytes_eq, codes, get_elem?, if◌then◌else◌,
  ◌==◌, arith,
}
use nyanpasu_utils.Io.{ok, err, io_error, ErrorKind}
use nyanpasu_utils.System.World.{World, file, Files, ProcReads}
use nyanpasu_utils.System.Files.{
  symlink_metadata, try_exists, remove_file, create_new, write_all, sync, hard_link,
}
use nyanpasu_utils.AtomicFs.{atomic_move_new}
use nyanpasu_utils.AtomicFs.Laws.{move_new_lem}
use nyanpasu_utils.Text.Utf8.{is_utf8}
use nyanpasu_utils.Text.Decimal.{decimal}
use nyanpasu_utils.PidFile.Format.{serialize_epoch_record}
use nyanpasu_utils.PidFile.Store.{
  validate_pid_target, with_extension, temp_path, write_and_clean, write_epoch_record,
  read_epoch_pid_file,
}
use nyanpasu_utils.PidFile.Store.Laws.{Published}
use nyanpasu_utils.PidFile.Store.Publish.{HasTemps, write_atomic}
use nyanpasu_utils.PidFile.Store.Reading.{read-write}
use nyanpasu_utils.Examples.PidFiles.{mihomo, mihomo-IsRecord}

abbrev pub no_reads : ProcReads
no_reads = record {
  first_stat = err (io_error ErrorKind.not_found);
  exe_link = err (io_error ErrorKind.not_found);
  second_stat = err (io_error ErrorKind.not_found);
  boot_id = err (io_error ErrorKind.not_found);
}

abbrev disk : Files
disk q =
    if bytes_eq (codes "/run/config.yaml") q
    then some (file (codes "mode: rule"))
    else if bytes_eq (codes "/run/core-6.pid") q
    then some (file (codes "4242"))
    else none

-- A world in which no call fails.
abbrev pub quiet : World
quiet = record {
  clock = 0;
  files = disk;
  same_file = λ t p q. false;
  is_empty_dir = λ t p. false;
  faults = λ n. none;
  proc = λ t pid. no_reads;
  pidfd_open = λ t pid. ok tt;
  send_signal = λ t pid. ok tt;
  canonical = λ t cs. ok (codes "/run");
  processes = λ t. [];
  signals = [];
  locks = λ q. false;
  own_pid = 100;
  temp_counter = 0;
}

-- The fourth call fails after twelve bytes.
abbrev full_disk : World
full_disk = record quiet {
  faults = λ n.
      if n == 3 then some (record { error = io_error ErrorKind.other; written = 12 }) else none;
}

-- A world in which the record's name is taken.
abbrev occupied : World
occupied = record quiet { files = λ q. some (file (codes "4242")) }

abbrev pub pid_path : Bytes
pid_path = codes "/run/core-7.pid"

abbrev old_path : Bytes
old_path = codes "/run/core-6.pid"

abbrev pub config_path : Bytes
config_path = codes "/run/config.yaml"

old_is_not_config : old_path ≢ config_path
old_is_not_config e = ground (arith, ap (λ (s : Bytes). get_elem? s 6) e)

old_is_not_pid : old_path ≢ pid_path
old_is_not_pid e = ground (arith, ap (λ (s : Bytes). get_elem? s 10) e)

pid_is_not_config : pid_path ≢ config_path
pid_is_not_config e = ground (arith, ap (λ (s : Bytes). get_elem? s 6) e)

pub pid_path-HasTemps : HasTemps pid_path
unfolding temp_path with_extension
pid_path-HasTemps own_pid counter e = ground (arith, ap (λ (s : Bytes). get_elem? s 15) e)

temps_are_not_config : (own_pid counter : ℕ) → temp_path pid_path own_pid counter ≢ config_path
unfolding temp_path with_extension
temps_are_not_config own_pid counter e = ground (arith, ap (λ (s : Bytes). get_elem? s 6) e)

write_atomic_example : Published pid_path mihomo (write_epoch_record pid_path mihomo full_disk).1
unfolding bytes_eq
write_atomic_example = write_atomic pid_path mihomo pid_path-HasTemps full_disk refl

abbrev pub written : World
written = (write_epoch_record pid_path mihomo quiet).1

read-write_example : (read_epoch_pid_file pid_path written).0 ≡ ok (some mihomo)
unfolding bytes_eq write_epoch_record validate_pid_target symlink_metadata try_exists
    write_and_clean create_new temp_path serialize_epoch_record is_utf8 write_all decimal sync
    atomic_move_new hard_link remove_file
read-write_example =
    read-write pid_path mihomo quiet written pid_path-HasTemps mihomo-IsRecord refl refl refl refl

move_new_lem_example :
    (quiet.files pid_path ≡ none)
    × ((atomic_move_new old_path pid_path quiet).1.files pid_path ≡ (
        if bytes_eq old_path pid_path
        then none
        else if bytes_eq pid_path pid_path
        then quiet.files old_path
        else quiet.files pid_path))
unfolding bytes_eq atomic_move_new hard_link remove_file
move_new_lem_example = move_new_lem old_path pid_path pid_path quiet old_is_not_pid refl

abbrev lock_path : Bytes
lock_path = codes "/run/.lock"
