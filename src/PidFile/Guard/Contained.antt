-- ===== src/PidFile/Guard/Contained.antt =====
-- `PidFileGuard` of process/pid_file.rs: the reaping of an orphan.
use nyanpasu_utils.Prelude.{
  ℕ, ◌≡◌, ◌∙◌, refl, ◌⊎◌, inl, inr, Bool, true, false, Option, none, some, Bytes, arith,
}
use nyanpasu_utils.Io.{Io, IoError, ok, err}
use nyanpasu_utils.Text.FilePath.{components, path_eq, parent}
use nyanpasu_utils.System.World.{World}
use nyanpasu_utils.System.Act.{tick, and_then, Sys, pure, ◌>>=◌, ◌>>◌}
use nyanpasu_utils.System.Files.{symlink_metadata, read_to_string}
use nyanpasu_utils.PidFile.Record.{EpochPidFile, EpochPidRecord, exe_names_equal}
use nyanpasu_utils.PidFile.Names.{epoch_from_file_name}
use nyanpasu_utils.PidFile.Store.{validate_pid_target, validate_runtime_target, read_epoch_pid_file}
use nyanpasu_utils.PidFile.Guard.{
  core_prefix, core_suffix, config_prefix, config_suffix, canonicalize, reap_checked,
  reap_epoch_pid_file, normalize_epoch_spec, validate_record_for_spec, reap_leftover, prepare_epoch,
  PidFileGuard,
}

-- The files and the signals are the same.
pub record Untouched (w v : World) : Type 0 where
  pub same_files : v.files ≡ w.files
  pub same_signals : v.signals ≡ w.signals

-- The directory of a path, as `canonicalize` gives it at that moment, is the given one.
abbrev pub located : World → Bytes → Bytes → Bool
located w path dir = elim (parent path) [
  | none ↦ false
  | some cs ↦ elim (w.canonical w.clock cs) [ ok d ↦ path_eq d dir | err _ ↦ false ]
]

read-Untouched : (path : Bytes) (w : World) → Untouched w (read_epoch_pid_file path w).1
unfolding read_epoch_pid_file symlink_metadata read_to_string
read-Untouched path w = record { same_files = ground arith; same_signals = ground arith }

validate-Untouched : (path : Bytes) (w : World) → Untouched w (validate_runtime_target path w).1
unfolding validate_runtime_target symlink_metadata
validate-Untouched path w = record { same_files = ground arith; same_signals = ground arith }

target-Untouched : (path : Bytes) (w : World) → Untouched w (validate_pid_target path w).1
unfolding validate_pid_target symlink_metadata
target-Untouched path w = record { same_files = ground arith; same_signals = ground arith }

checked_lem :
    (path dir : Bytes) (epoch : ℕ) (r : EpochPidRecord) (w : World)
    → Untouched w (reap_checked path dir epoch r w).1
      ⊎ ((r.epoch ≡ epoch)
          × (epoch_from_file_name r.runtime_config config_prefix config_suffix ≡ ok epoch)
          × (located w r.runtime_config dir ≡ true))
unfolding canonicalize
checked_lem path dir epoch r w = ground arith

-- The record that was read from the file carries the epoch of the file's name and of its
-- configuration's name, and both files stand in the runtime directory.
pub record Contained (w : World) (path runtime_dir : Bytes) : Type 0 where
  pub dir : Bytes
  pub orphan : EpochPidRecord
  pub runtime : w.canonical w.clock (components runtime_dir) ≡ ok dir
  pub file_there : located (tick w) path dir ≡ true
  pub was_read : (read_epoch_pid_file path (tick (tick w))).0 ≡ ok (some orphan)
  pub named : epoch_from_file_name path core_prefix core_suffix ≡ ok orphan.epoch
  pub configured :
      epoch_from_file_name orphan.runtime_config config_prefix config_suffix ≡ ok orphan.epoch
  pub config_there :
      located (read_epoch_pid_file path (tick (tick w))).1 orphan.runtime_config dir ≡ true

-- A reap of a pid file leaves all files and sends no signal, unless the file holds a record of the
-- epoch that both file names carry, and the file and the configuration stand in the runtime
-- directory, as `canonicalize` tells.
pub reap-Contained :
    (path runtime_dir : Bytes) (w : World)
    → Untouched w (reap_epoch_pid_file path runtime_dir w).1 ⊎ Contained w path runtime_dir
unfolding reap_epoch_pid_file canonicalize
reap-Contained path runtime_dir w = ground (arith, read-Untouched path (tick (tick w)))

-- The record fits the guard that is being prepared.
abbrev pub FitsSpec : EpochPidRecord → EpochPidFile → Bytes → Type 0
FitsSpec r spec expected_exe =
    (r.epoch ≡ spec.epoch)
    × (path_eq r.runtime_config spec.runtime_config ≡ true)
    × (exe_names_equal r.executable expected_exe ≡ true)

normalize-Untouched :
    (spec : EpochPidFile) (w : World) → Untouched w (normalize_epoch_spec spec w).1
unfolding normalize_epoch_spec canonicalize
normalize-Untouched spec w = record {
  same_files = ground (arith, validate-Untouched spec.runtime_config (tick (tick w)));
  same_signals = ground (arith, validate-Untouched spec.runtime_config (tick (tick w)));
}

-- What follows the normalization.
abbrev pub prepare_rest : EpochPidFile → Bytes → Sys PidFileGuard
prepare_rest spec expected_exe = do
  validate_pid_target spec.path
  found ← read_epoch_pid_file spec.path
  reap_leftover spec expected_exe found
  pure (PidFileGuard.epoch spec expected_exe none)

validate-FitsSpec :
    (r : EpochPidRecord) (spec : EpochPidFile) (expected_exe : Bytes)
    → validate_record_for_spec r spec expected_exe ≡ ok tt
    → FitsSpec r spec expected_exe
unfolding validate_record_for_spec
validate-FitsSpec r spec expected_exe h = (ground arith, ground arith, ground arith)

leftover_contained :
    (spec : EpochPidFile) (expected_exe : Bytes) (r : EpochPidRecord) (w : World)
    → Untouched w (reap_leftover spec expected_exe (some r) w).1 ⊎ FitsSpec r spec expected_exe
leftover_contained spec expected_exe r w =
    elim (result_cases (validate_record_for_spec r spec expected_exe)) [
      | inl e ↦ inr (validate-FitsSpec r spec expected_exe e)
      | inr (x, e) ↦ inl (record { same_files = ground arith; same_signals = ground arith })
    ]
  where
    result_cases : (o : Io (Unit {0})) → (o ≡ ok tt) ⊎ ((x : IoError) × (o ≡ err x))
    result_cases (ok tt) = inl refl
    result_cases (err x) = inr (x, refl)

Untouched-trans : (u v w : World) → Untouched u v → Untouched v w → Untouched u w
Untouched-trans u v w a b = record {
  same_files = b.same_files ∙ a.same_files;
  same_signals = b.same_signals ∙ a.same_signals;
}

-- An action that leaves everything, unless something holds.
abbrev Unless : Type 0 → {A : Type 0} → Sys A → Type 0
Unless P m = (w : World) → Untouched w (m w).1 ⊎ P

Unless-bind :
    {A B : Type 0} (P : Type 0) (m : Sys A) (f : A → Sys B)
    → Unless P m
    → ((a : A) → Unless P (f a))
    → Unless P (m >>= f)
Unless-bind {A} {B} P m f h k w = go (m w).0 (m w).1 (h w)
  where
    go : (o : Io A) (v : World) → Untouched w v ⊎ P → Untouched w (and_then (o, v) f).1 ⊎ P
    go (err e) v u = u
    go (ok a) v (inr p) = inr p
    go (ok a) v (inl u) = elim (k a v) [
      | inl u' ↦ inl (Untouched-trans w v (f a v).1 u u')
      | inr p ↦ inr p
    ]

-- What follows the reading of the file.
abbrev pub with_found : EpochPidFile → Bytes → Option EpochPidRecord → Sys PidFileGuard
with_found spec expected_exe found = do
  reap_leftover spec expected_exe found
  pure (PidFileGuard.epoch spec expected_exe none)

found_contained :
    (spec : EpochPidFile) (expected_exe : Bytes) (o : Io (Option EpochPidRecord)) (w v : World)
    → Untouched w v
    → Untouched w (and_then (o, v) (with_found spec expected_exe)).1
      ⊎ ((r : EpochPidRecord) × (o ≡ ok (some r)) × FitsSpec r spec expected_exe)
found_contained spec expected_exe (err e) w v u = inl u
found_contained spec expected_exe (ok none) w v u = inl u
found_contained spec expected_exe (ok (some r)) w v u =
    elim (Unless-bind (FitsSpec r spec expected_exe) (reap_leftover spec expected_exe (some r))
      (λ _. pure (PidFileGuard.epoch spec expected_exe none))
      (leftover_contained spec expected_exe r)
      (λ _ z. inl (record { same_files = refl; same_signals = refl })) v) [
        | inl u' ↦ inl (Untouched-trans w v (with_found spec expected_exe (some r) v).1 u u')
        | inr fits ↦ inr (r, refl, fits)
      ]

-- A record of the file that the guard is for, read when the preparation reads it.
abbrev pub Leftover : EpochPidFile → EpochPidRecord → World → Type 0
Leftover spec r v =
    (read_epoch_pid_file spec.path (validate_pid_target spec.path v).1).0 ≡ ok (some r)

target_contained :
    (spec : EpochPidFile) (expected_exe : Bytes) (o : Io (Unit {0})) (w v : World)
    → Untouched w v
    → Untouched w
        (and_then (o, v) (λ _. read_epoch_pid_file spec.path >>= with_found spec expected_exe)).1
      ⊎ ((r : EpochPidRecord) × ((read_epoch_pid_file spec.path v).0 ≡ ok (some r))
          × FitsSpec r spec expected_exe)
target_contained spec expected_exe (err e) w v u = inl u
target_contained spec expected_exe (ok _) w v u =
    found_contained spec expected_exe (read_epoch_pid_file spec.path v).0 w
      (read_epoch_pid_file spec.path v).1
      (Untouched-trans w v (read_epoch_pid_file spec.path v).1 u (read-Untouched spec.path v))

after_normalization :
    (expected_exe : Bytes) (o : Io EpochPidFile) (w v : World)
    → Untouched w v
    → Untouched w (and_then (o, v) (λ spec. prepare_rest spec expected_exe)).1
      ⊎ ((spec : EpochPidFile) × (r : EpochPidRecord) × (o ≡ ok spec)
          × Leftover spec r v
          × FitsSpec r spec expected_exe)
after_normalization expected_exe (err e) w v u = inl u
after_normalization expected_exe (ok spec) w v u =
    elim (target_contained spec expected_exe (validate_pid_target spec.path v).0 w
      (validate_pid_target spec.path v).1
      (Untouched-trans w v (validate_pid_target spec.path v).1 u (target-Untouched spec.path v))) [
        | inl u' ↦ inl u'
        | inr (r, found, fits) ↦ inr (spec, r, refl, found, fits)
      ]

-- The preparation of a guard leaves all files and sends no signal, unless the file that the guard
-- is for, by its normalized name, holds a record of its epoch, its configuration and its
-- executable.
pub prepare_contained :
    (given : EpochPidFile) (expected_exe : Bytes) (w : World)
    → Untouched w (prepare_epoch given expected_exe w).1
      ⊎ ((spec : EpochPidFile) × (r : EpochPidRecord) × ((normalize_epoch_spec given w).0 ≡ ok spec)
          × Leftover spec r (normalize_epoch_spec given w).1
          × FitsSpec r spec expected_exe)
unfolding prepare_epoch validate_record_for_spec
prepare_contained given expected_exe w =
    after_normalization expected_exe (normalize_epoch_spec given w).0 w
      (normalize_epoch_spec given w).1 (normalize-Untouched given w)
