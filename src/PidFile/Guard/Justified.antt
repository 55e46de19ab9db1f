-- ===== src/PidFile/Guard/Justified.antt =====
-- `reap_epoch_pid_file` of process/pid_file.rs: the signals it sends.
use mathlib.Core.Path.{subst}
use mathlib.Core.Option.{some-injective, none-ne-some}
use nyanpasu_utils.Prelude.{
  ℕ, ◌≡◌, ◌∙◌, refl, sym, ap, ◌⊎◌, inl, inr, not, Option, none, some, List, Bytes, ◌==◌, arith,
}
use nyanpasu_utils.Io.{Io, IoError, ok, ok_inj}
use nyanpasu_utils.Text.FilePath.{Component, path_eq}
use nyanpasu_utils.System.World.{World, Signal, ProcReads}
use nyanpasu_utils.System.Act.{Act, tick, lift}
use nyanpasu_utils.System.Files.{symlink_metadata, read_to_string, remove_file}
use nyanpasu_utils.System.Triple.{
  Triple, Triple-bind, Triple-weaken, Triple-lift, Triple-if, Triple_of, Keeps, Keeps-of,
  Keeps-bind, Keeps-lift, Keeps-pure, Keeps_at, Triple-assume, keep_outcome,
}
use nyanpasu_utils.PidFile.Record.{EpochPidRecord}
use nyanpasu_utils.PidFile.Format.{invalid_input, invalid_data}
use nyanpasu_utils.PidFile.Store.{
  validate_runtime_target, read_epoch_pid_file, remove_record_if_matches,
}
use nyanpasu_utils.PidFile.Reap.Signals.{Lawful}
use nyanpasu_utils.PidFile.Descendants.{Process}
use nyanpasu_utils.PidFile.Descendants.Captured.{View, tick-View}
use nyanpasu_utils.PidFile.Descendants.Safety.{TreeSignal, End, start_Lawful, record-End}
use nyanpasu_utils.PidFile.Guard.{
  parent_or_invalid, canonicalize, reap_and_remove, reap_checked, reap_read, reap_epoch_pid_file,
}
use nyanpasu_utils.PidFile.Guard.Contained.{Untouched, Contained, reap-Contained}

module _ (proc : ℕ → ℕ → ProcReads) (tables : ℕ → List Process) (start : ℕ)
    (before : List Signal) where
  abbrev Before : World → Type 0
  Before = View proc tables start before

  pub canonicalize-Before : (path : List _) → Keeps Before (canonicalize path)
  unfolding canonicalize
  canonicalize-Before path =
      Keeps-of (canonicalize path) (λ w v. tick-View proc tables start before w v)

  pub validate-Before : (path : Bytes) → Keeps Before (validate_runtime_target path)
  unfolding validate_runtime_target symlink_metadata
  validate-Before path = Keeps-of (validate_runtime_target path) λ w v. record {
    same_table = ground (arith, v.same_table);
    same_processes = ground (arith, v.same_processes);
    same_signals = ground (arith, v.same_signals);
    late = ground (arith, v.late);
  }

  pub read-Before : (path : Bytes) → Keeps Before (read_epoch_pid_file path)
  unfolding read_epoch_pid_file symlink_metadata read_to_string
  read-Before path = Keeps-of (read_epoch_pid_file path) λ w v. record {
    same_table = ground (arith, v.same_table);
    same_processes = ground (arith, v.same_processes);
    same_signals = ground (arith, v.same_signals);
    late = ground (arith, v.late);
  }

  module _ (r : EpochPidRecord) where
    abbrev Ended : World → Type 0
    Ended = End proc tables start before r

    remove_signals :
        (path : Bytes) (w : World) → (remove_record_if_matches path r w).1.signals ≡ w.signals
    unfolding remove_record_if_matches read_epoch_pid_file symlink_metadata read_to_string
        remove_file
    remove_signals path w = ground arith

    pub remove-Ended : (path : Bytes) → Keeps Ended (remove_record_if_matches path r)
    remove-Ended path = Keeps-of (remove_record_if_matches path r) (λ w h.
        subst (Lawful (TreeSignal proc tables start before r) before) (sym (remove_signals path w))
          h)

    -- A step before the reaping: its failure is an end without signals.
    pub stay :
        {A : Type 0} {m : Act IoError A}
        → Keeps Before m
        → Triple Before m (λ _. Before) (λ _. Ended)
    stay t =
        Triple-weaken (λ w v. v) (λ a w v. v) (λ x w v. start_Lawful proc tables start before r w v)
          t

    refuse : {A : Type 0} (x : Io A) → Triple Before (lift x) (λ _. Ended) (λ _. Ended)
    refuse x =
        Triple-lift x (λ a w e v. start_Lawful proc tables start before r w v)
          (λ a w e v. start_Lawful proc tables start before r w v)

    removed-Ended :
        (path : Bytes) → Triple Before (reap_and_remove path r) (λ _. Ended) (λ _. Ended)
    removed-Ended path =
        Triple-bind (λ _. Ended) (record-End proc tables start before r)
          λ outcome. Keeps-bind (remove-Ended path) (λ _. Keeps-pure outcome)

    checked-Ended :
        (path dir : Bytes) (epoch : ℕ)
        → Triple Before (reap_checked path dir epoch r) (λ _. Ended) (λ _. Ended)
    checked-Ended path dir epoch =
        Triple-if (not (r.epoch == epoch)) _ _ (λ _. refuse invalid_data)
          λ _.
            Triple-bind (λ _. Before) (stay (Keeps-lift (parent_or_invalid r.runtime_config)))
              λ parent.
                Triple-bind (λ _. Before) (stay (canonicalize-Before parent))
                  λ canonical.
                    Triple-if (not (path_eq canonical dir)) _ _ (λ _. refuse invalid_input)
                      λ _.
                        Triple-bind (λ _. Before) (stay (Keeps-lift _))
                          λ named.
                            Triple-if (not (named == epoch)) _ _ (λ _. refuse invalid_data)
                              λ _.
                                Triple-bind (λ _. Before) (stay (validate-Before r.runtime_config))
                                  λ _. removed-Ended path

-- The reading of the record of a pid file, at the moment when a reap of it reads.
abbrev reading : Bytes → World → Io (Option EpochPidRecord)
reading path w = (read_epoch_pid_file path (tick (tick w))).0

module _ (path : Bytes) (w : World) (r : EpochPidRecord)
    (found : reading path w ≡ ok (some r)) where
  abbrev From : World → Type 0
  From = View w.proc w.processes w.clock w.signals

  abbrev Over : World → Type 0
  Over = End w.proc w.processes w.clock w.signals r

  -- What was read, in a world that has sent nothing.
  abbrev ReadIs : Option EpochPidRecord → World → Type 0
  ReadIs o v = (o ≡ some r) × From v

  read-ReadIs : Triple (λ v. v ≡ tick (tick w)) (read_epoch_pid_file path) ReadIs (λ _. Over)
  read-ReadIs =
      Triple_of (read_epoch_pid_file path) ReadIs (λ _. Over)
        (λ v o q e. (
          ok_inj (sym (subst (λ x. (read_epoch_pid_file path x).0 ≡ ok o) q e) ∙ found),
          after v q,
        ))
        (λ v x q e. start_Lawful w.proc w.processes w.clock w.signals r _ (after v q))
    where
      after : (v : World) → v ≡ tick (tick w) → From (read_epoch_pid_file path v).1
      after v q =
          subst (λ x. From (read_epoch_pid_file path x).1) (sym q)
            (Keeps_at (read-Before w.proc w.processes w.clock w.signals path) (tick (tick w))
              (record {
                same_table = refl;
                same_processes = refl;
                same_signals = refl;
                late = omega arith;
              }))

  read-Over :
      (dir : Bytes) (epoch : ℕ) (o : Option EpochPidRecord)
      → Triple (ReadIs o) (reap_read path dir epoch o) (λ _. Over) (λ _. Over)
  read-Over dir epoch none = Triple-assume (none ≡ some r) (λ q. absurd (none-ne-some _ q))
  read-Over dir epoch (some s) = Triple-assume (some s ≡ some r) λ q.
      subst (λ x. Triple From (reap_checked path dir epoch x) (λ _. Over) (λ _. Over))
        (sym (some-injective _ _ q))
        (checked-Ended w.proc w.processes w.clock w.signals r path dir epoch)

  -- A world that a step leaves as it is has sent nothing.
  end_at : (u v : World) → From u → v ≡ u → Over v
  end_at u v f q = start_Lawful w.proc w.processes w.clock w.signals r v (subst From (sym q) f)

  lift_at :
      {A : Type 0} (u : World) (x : Io A)
      → From u
      → Triple (λ v. v ≡ u) (lift x) (λ _ v. v ≡ u) (λ _. Over)
  lift_at u x f = Triple-lift x (λ a v e q. q) (λ e v p q. end_at u v f q)

  canonicalize_at :
      (u : World) (dir : List Component)
      → From u
      → Triple (λ v. v ≡ u) (canonicalize dir) (λ _ v. v ≡ tick u) (λ _. Over)
  unfolding canonicalize
  canonicalize_at u dir f =
      Triple_of (canonicalize dir) (λ _ v. v ≡ tick u) (λ _. Over) (λ v a q e. ap tick q)
        (λ v a q e.
          end_at (tick u) (tick v) (tick-View w.proc w.processes w.clock w.signals u f) (ap tick q))

  reap-Over : (runtime_dir : Bytes) → Over (reap_epoch_pid_file path runtime_dir w).1
  reap-Over runtime_dir =
      keep_outcome Over (reap_epoch_pid_file path runtime_dir w).0
        (reap_epoch_pid_file path runtime_dir w).1 (whole.at w refl)
    where
      from : From w
      from = record {
        same_table = refl;
        same_processes = refl;
        same_signals = refl;
        late = omega arith;
      }

      from1 : From (tick w)
      from1 = tick-View w.proc w.processes w.clock w.signals w from

      from2 : From (tick (tick w))
      from2 = tick-View w.proc w.processes w.clock w.signals (tick w) from1

      whole : Triple (λ v. v ≡ w) (reap_epoch_pid_file path runtime_dir) (λ _. Over) (λ _. Over)
      whole =
          unfold reap_epoch_pid_file in
          Triple-bind (λ _ v. v ≡ tick w) (canonicalize_at w _ from)
            λ dir.
              Triple-bind (λ _ v. v ≡ tick w) (lift_at (tick w) (parent_or_invalid path) from1)
                λ parent.
                  Triple-bind (λ _ v. v ≡ tick (tick w)) (canonicalize_at (tick w) parent from1)
                    λ canonical.
                      Triple-if (not (path_eq canonical dir)) _ _
                        (λ _.
                          Triple-lift invalid_input (λ a v e q. end_at _ v from2 q)
                            (λ x v e q. end_at _ v from2 q))
                        λ _.
                          Triple-bind (λ _ v. v ≡ tick (tick w)) (lift_at (tick (tick w)) _ from2)
                            λ epoch. Triple-bind ReadIs read-ReadIs λ o. read-Over dir epoch o

-- A reap of a pid file leaves all files and sends no signal, unless the file holds a record of the
-- epoch that both file names carry, and the file and the configuration stand in the runtime
-- directory, as `canonicalize` tells. Each signal that is sent then goes to the process of that
-- record, or to one that an earlier process table listed as its descendant and whose identity was
-- read after that; and at the call just before the signal the target had the start token and the
-- executable of the record, or of that identity.
pub reap_pid_file_justified :
    (path runtime_dir : Bytes) (w : World)
    → Untouched w (reap_epoch_pid_file path runtime_dir w).1
      ⊎ ((c : Contained w path runtime_dir) × Lawful
            (TreeSignal w.proc w.processes w.clock w.signals c.orphan)
            w.signals
            (reap_epoch_pid_file path runtime_dir w).1.signals)
reap_pid_file_justified path runtime_dir w = elim (reap-Contained path runtime_dir w) [
  | inl u ↦ inl u
  | inr c ↦ inr (c, reap-Over path w c.orphan c.was_read runtime_dir)
]
