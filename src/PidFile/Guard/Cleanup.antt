-- ===== src/PidFile/Guard/Cleanup.antt =====
-- `PidFileGuard` of process/pid_file.rs: the removal of its file.
use nyanpasu_utils.Prelude.{◌≡◌, refl, ◌⊎◌, inl, true, none, some, Bytes, bytes_eq_iff, arith}
use nyanpasu_utils.Io.{ok}
use nyanpasu_utils.System.World.{World, file}
use nyanpasu_utils.System.Files.{read_to_string, remove_file}
use nyanpasu_utils.PidFile.Record.{EpochPidRecord, record_eq}
use nyanpasu_utils.PidFile.Format.{parse_epoch_record}
use nyanpasu_utils.PidFile.Store.Reading.{remove_only_matching}
use nyanpasu_utils.PidFile.Guard.{PidFileGuard, legacy, epoch, get_pid_from_file, cleanup}

-- The file holds what the guard has written: the number of the legacy guard, as a reader sees it, or
-- the text of the epoch guard's record.
abbrev pub Owns : PidFileGuard → World → Bytes → Type 0
Owns (legacy path pid) w q = (path ≡ q) × ((get_pid_from_file path w).0 ≡ some pid)
Owns (epoch spec expected_exe none) w q = ⊥
Owns (epoch spec expected_exe (some r)) w q =
    (spec.path ≡ q)
    × (raw : Bytes) × (found : EpochPidRecord) × (w.files q ≡ some (file raw))
    × (parse_epoch_record raw ≡ ok found)
    × (record_eq found r ≡ true)

-- A clean-up leaves every file as it is, but for one that holds what the guard has written.
pub cleanup_only_own :
    (g : PidFileGuard) (q : Bytes) (w : World) → ((cleanup g w).files q ≡ w.files q) ⊎ Owns g w q
unfolding cleanup get_pid_from_file read_to_string remove_file
cleanup_only_own (legacy path pid) q w = ground (arith, bytes_eq_iff path q)
cleanup_only_own (epoch spec expected_exe none) q w = inl refl
cleanup_only_own (epoch spec expected_exe (some r)) q w = remove_only_matching spec.path q r w
