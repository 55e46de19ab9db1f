-- ===== src/PidFile/Guard/Prepared.antt =====
-- `PidFileGuard::prepare_epoch` of process/pid_file.rs: the signals it sends to what a former run left.
use mathlib.Core.Path.{subst}
use mathlib.Core.Option.{some-injective}
use nyanpasu_utils.Prelude.{
  ℕ, ◌≡◌, refl, sym, ◌⊎◌, inl, inr, Option, none, some, List, Bytes, arith,
}
use nyanpasu_utils.Io.{Io, ok, err, ok_inj}
use nyanpasu_utils.System.World.{World, Signal, ProcReads}
use nyanpasu_utils.System.Act.{and_then, ◌>>=◌}
use nyanpasu_utils.System.Files.{symlink_metadata}
use nyanpasu_utils.System.Triple.{
  Triple, Triple-bind, Keeps, Keeps-of, Keeps-lift, Keeps-pure, Keeps_at, keep_outcome,
}
use nyanpasu_utils.PidFile.Record.{EpochPidFile, EpochPidRecord}
use nyanpasu_utils.PidFile.Store.{validate_pid_target, validate_runtime_target, read_epoch_pid_file}
use nyanpasu_utils.PidFile.Reap.Signals.{Lawful}
use nyanpasu_utils.PidFile.Descendants.{Process}
use nyanpasu_utils.PidFile.Descendants.Captured.{View}
use nyanpasu_utils.PidFile.Descendants.Safety.{TreeSignal, End, start_Lawful, record-End}
use nyanpasu_utils.PidFile.Guard.{normalize_epoch_spec, reap_leftover, prepare_epoch, canonicalize}
use nyanpasu_utils.PidFile.Guard.Justified.{read-Before, remove-Ended, stay}
use nyanpasu_utils.PidFile.Guard.Contained.{
  Untouched, FitsSpec, Leftover, prepare_rest, with_found, prepare_contained,
}

module _ (proc : ℕ → ℕ → ProcReads) (tables : ℕ → List Process) (start : ℕ)
    (before : List Signal) where
  abbrev From : World → Type 0
  From = View proc tables start before

  target-From : (path : Bytes) → Keeps From (validate_pid_target path)
  unfolding validate_pid_target symlink_metadata
  target-From path = Keeps-of (validate_pid_target path) λ w v. record {
    same_table = ground (arith, v.same_table);
    same_processes = ground (arith, v.same_processes);
    same_signals = ground (arith, v.same_signals);
    late = ground (arith, v.late);
  }

  normalize-From : (spec : EpochPidFile) → Keeps From (normalize_epoch_spec spec)
  unfolding normalize_epoch_spec canonicalize validate_runtime_target symlink_metadata
  normalize-From spec = Keeps-of (normalize_epoch_spec spec) λ w v. record {
    same_table = ground (arith, v.same_table);
    same_processes = ground (arith, v.same_processes);
    same_signals = ground (arith, v.same_signals);
    late = ground (arith, v.late);
  }

  module _ (spec : EpochPidFile) (exe : Bytes) (r : EpochPidRecord) where
    abbrev Over : World → Type 0
    Over = End proc tables start before r

    leftover-Over : Triple From (reap_leftover spec exe (some r)) (λ _. Over) (λ _. Over)
    leftover-Over =
        Triple-bind (λ _. From) (stay proc tables start before r (Keeps-lift _))
          λ _.
            Triple-bind (λ _. Over) (record-End proc tables start before r)
              λ _. remove-Ended proc tables start before r spec.path

    found-Over :
        (o : Io (Option EpochPidRecord)) (v : World)
        → o ≡ ok (some r)
        → From v
        → Over (and_then (o, v) (with_found spec exe)).1
    found-Over (err e) v q f = cc
    found-Over (ok none) v q f = cc
    found-Over (ok (some s)) v q f =
        subst (λ x. Over (with_found spec exe (some x) v).1) (sym (some-injective _ _ (ok_inj q)))
          (keep_outcome Over (with_found spec exe (some r) v).0 (with_found spec exe (some r) v).1
            ((Triple-bind (λ _. Over) leftover-Over (λ _. Keeps-pure _)).at v f))

    target-Over :
        (o : Io (Unit {0})) (v : World)
        → (read_epoch_pid_file spec.path v).0 ≡ ok (some r)
        → From v
        → Over (and_then (o, v) (λ _. read_epoch_pid_file spec.path >>= with_found spec exe)).1
    target-Over (err e) v q f = start_Lawful proc tables start before r v f
    target-Over (ok _) v q f =
        found-Over (read_epoch_pid_file spec.path v).0 (read_epoch_pid_file spec.path v).1 q
          (Keeps_at (read-Before proc tables start before spec.path) v f)

    normal-Over :
        (o : Io EpochPidFile) (v : World)
        → o ≡ ok spec
        → Leftover spec r v
        → From v
        → Over (and_then (o, v) (λ s. prepare_rest s exe)).1
    normal-Over (err e) v q l f = cc
    normal-Over (ok s) v q l f =
        subst (λ x. Over (prepare_rest x exe v).1) (sym (ok_inj q))
          (target-Over (validate_pid_target spec.path v).0 (validate_pid_target spec.path v).1 l
            (Keeps_at (target-From spec.path) v f))

-- The preparation of a guard leaves all files and sends no signal, unless the file that the guard
-- is for, by its normalized name, holds a record of its epoch, its configuration and its executable.
-- Each signal that is sent then goes to the process of that record, or to one that an earlier process
-- table listed as its descendant and whose identity was read after that; and at the call just before
-- the signal the target had the start token and the executable of the record, or of that identity.
pub prepare_justified :
    (given : EpochPidFile) (expected_exe : Bytes) (w : World)
    → Untouched w (prepare_epoch given expected_exe w).1
      ⊎ ((spec : EpochPidFile) × (r : EpochPidRecord) × ((normalize_epoch_spec given w).0 ≡ ok spec)
          × Leftover spec r (normalize_epoch_spec given w).1
          × FitsSpec r spec expected_exe
          × Lawful
              (TreeSignal w.proc w.processes w.clock w.signals r)
              w.signals
              (prepare_epoch given expected_exe w).1.signals)
unfolding prepare_epoch
prepare_justified given expected_exe w = elim (prepare_contained given expected_exe w) [
  | inl u ↦ inl u
  | inr (spec, r, normal, found, fits) ↦ inr (
    spec,
    r,
    normal,
    found,
    fits,
    normal-Over w.proc w.processes w.clock w.signals spec expected_exe r
        (normalize_epoch_spec given w).0 (normalize_epoch_spec given w).1 normal found
        (Keeps_at (normalize-From w.proc w.processes w.clock w.signals given) w (record {
          same_table = refl;
          same_processes = refl;
          same_signals = refl;
          late = omega arith;
        })),
  )
]
