-- ===== src/PidFile/Guard/Publish.antt =====
-- `PidFileGuard` of process/pid_file.rs: the writing of its record.
use mathlib.Core.Path.{subst}
use nyanpasu_utils.Prelude.{
  ℕ, zero, suc, ◌≤◌, ◌≡◌, refl, ap, sym, ◌⊎◌, inl, inr, true, not, Option, none, some, Bytes, arith,
  Bool-cases,
}
use nyanpasu_utils.Io.{Io, IoError, ok, err, ok_or, ok_inj, io_error, ErrorKind}
use nyanpasu_utils.System.World.{World, Node, ProcReads}
use nyanpasu_utils.System.Act.{lift, ◌>>◌, attempt, tick}
use nyanpasu_utils.System.Triple.{
  Keeps, Keeps-of, Keeps-pure, Triple, Triple_of, Triple-bind, Triple-lift, Triple-pure, Triple-if,
  Triple_result, Triple-weaken, Triple-assume,
}
use nyanpasu_utils.System.Files.Laws.{At}
use nyanpasu_utils.PidFile.Record.{EpochPidFile, EpochPidRecord, ProcessIdentity, exe_names_equal}
use nyanpasu_utils.PidFile.Identity.{identity_of, process_identity}
use nyanpasu_utils.PidFile.Reap.{
  sleep, sleep_unless_last, wait_step, wait_attempts, wait_for_process_identity,
  identity_wait_attempts, identity_query_is_provisional, wait_result,
}
use nyanpasu_utils.PidFile.Store.{write_epoch_record}
use nyanpasu_utils.PidFile.Store.Laws.{Whole}
use nyanpasu_utils.PidFile.Store.Publish.{HasTemps, write_lem}
use nyanpasu_utils.PidFile.Guard.{PidFileGuard, epoch, record_of, write}

-- What the process table showed of a process at one call since a moment: the identity that its reads
-- make.
pub record ReadSince (proc : ℕ → ℕ → ProcReads) (start pid : ℕ) (i : ProcessIdentity) : Type 0 where
  pub queried : ℕ
  pub not_before : start ≤ queried
  pub was_read : identity_of (proc queried pid) ≡ ok (some i)

-- The worlds of a process table, since a moment, in which a name has its node.
record Ready (proc : ℕ → ℕ → ProcReads) (start : ℕ) (q : Bytes) (n : Option Node) (w : World)
    : Type 0 where
  pub free : At q n w
  pub same_table : w.proc ≡ proc
  pub late : start ≤ w.clock

module _ (proc : ℕ → ℕ → ProcReads) (start : ℕ) (q : Bytes) (n : Option Node) where
  abbrev R : World → Type 0
  R = Ready proc start q n

  tick-Ready : (w : World) → R w → R (tick w)
  tick-Ready w h = record { free = h.free; same_table = h.same_table; late = omega (arith, h.late) }

  sleep_unless_last-Ready : (k : ℕ) → Keeps R (sleep_unless_last k)
  sleep_unless_last-Ready zero = Keeps-pure tt
  sleep_unless_last-Ready (suc k) = Keeps-of sleep tick-Ready

  module _ (pid : ℕ) where
    -- An identity that was found was read.
    abbrev Found : Option ProcessIdentity → Type 0
    Found none = Unit
    Found (some i) = ReadSince proc start pid i

    abbrev Answer : Io (Option ProcessIdentity) → Type 0
    Answer (ok found) = Found found
    Answer (err e) = Unit

    abbrev Round : Io (Option ProcessIdentity) ⊎ Option IoError → Type 0
    Round (inl result) = Answer result
    Round (inr e) = Unit

    answer :
        (queried : ℕ) (r : Io (Option ProcessIdentity))
        → start ≤ queried
        → identity_of (proc queried pid) ≡ r
        → Answer r
    answer queried (ok none) le e = tt
    answer queried (ok (some i)) le e = record { queried = queried; not_before = le; was_read = e }
    answer queried (err x) le e = tt

    query-Answer :
        Triple R
          (attempt {F = IoError} (process_identity pid))
          (λ r v. Answer r × R v)
          (λ _ _. Unit)
    unfolding process_identity
    query-Answer = record {
      at = λ w h. (
        answer w.clock (identity_of (w.proc w.clock pid)) h.late
            (ap (λ (t : ℕ → ℕ → ProcReads). identity_of (t w.clock pid)) (sym h.same_table)),
        tick-Ready w h,
      );
    }

    wait_step-Round :
        (access_error : Option IoError) (r : Io (Option ProcessIdentity))
        → Answer r
        → Round (wait_step access_error r)
    wait_step-Round access_error (ok none) h = tt
    wait_step-Round access_error (ok (some i)) h = h
    wait_step-Round access_error (err e) h = elim (Bool-cases (identity_query_is_provisional e)) [
      | inl p ↦ rw p tt
      | inr p ↦ rw p tt
    ]

    lift-Found :
        (r : Io (Option ProcessIdentity))
        → Answer r
        → Triple R (lift r) (λ found v. Found found × R v) (λ _ _. Unit)
    lift-Found (ok found) h =
        Triple-lift _ (λ a w e k. (subst Found (ok_inj e) h, k)) (λ x w e k. tt)
    lift-Found (err x) h = Triple-lift _ (λ a w e k. cc) (λ y w e k. tt)

    attempts-Found :
        (k : ℕ) (access_error : Option IoError)
        → Triple R (wait_attempts k access_error pid) (λ found v. Found found × R v) (λ _ _. Unit)
    unfolding wait_attempts
    attempts-Found zero none = lift-Found (wait_result none) tt
    attempts-Found zero (some e) = lift-Found (wait_result (some e)) tt
    attempts-Found (suc k) access_error =
        Triple-bind (λ r v. Answer r × R v) query-Answer
          λ r.
            Triple-assume (Answer r) λ h.
              go (wait_step access_error r) (wait_step-Round access_error r h) (attempts-Found k)
      where
        go :
            (step : Io (Option ProcessIdentity) ⊎ Option IoError)
            → Round step
            → ((e : Option IoError)
                → Triple R (wait_attempts k e pid) (λ found v. Found found × R v) (λ _ _. Unit))
            → Triple R
                (elim step [
                  | inl result ↦ lift result
                  | inr e ↦ (sleep_unless_last k >> wait_attempts k e pid)
                ])
                (λ found v. Found found × R v)
                (λ _ _. Unit)
        go (inl result) h ih = lift-Found result h
        go (inr e) h ih =
            Triple-bind (λ _. R)
              (Triple-weaken {R = λ _. R} (λ w k. k) (λ a w k. k) (λ x w k. tt)
                (sleep_unless_last-Ready k))
              λ _. ih e

    -- `ok_or`: no identity is an error.
    required-Found :
        (found : Option ProcessIdentity) (e : IoError)
        → Found found
        → Triple R (lift (ok_or found e)) (λ i v. ReadSince proc start pid i × R v) (λ _ _. Unit)
    required-Found none e h = Triple-lift _ (λ a w k p. cc) (λ x w k p. tt)
    required-Found (some i) e h =
        Triple-lift _ (λ a w k p. (subst (ReadSince proc start pid) (ok_inj k) h, p))
          (λ x w k p. tt)

-- The guard holds a record of the process, of its epoch and configuration, of the expected executable
-- and of the identity that the process table showed for the pid since the world before, and the file
-- holds the whole of that record.
pub record Recorded (before : World) (spec : EpochPidFile) (expected_exe : Bytes) (pid : ℕ)
    (g : PidFileGuard) (w : World) : Type 0 where
  pub identity : ProcessIdentity
  pub identified : ReadSince before.proc before.clock pid identity
  pub as_expected : exe_names_equal identity.executable expected_exe ≡ true
  pub kept : g ≡ epoch spec expected_exe (some (record_of pid spec identity))
  pub stored : Whole (record_of pid spec identity) (w.files spec.path)

write_records :
    (before : World) (spec : EpochPidFile) (expected_exe : Bytes) (slot : Option EpochPidRecord)
    (pid : ℕ)
    → HasTemps spec.path
    → Triple
        (Ready before.proc before.clock spec.path none)
        (write (epoch spec expected_exe slot) pid)
        (Recorded before spec expected_exe pid)
        (λ _ _. Unit)
unfolding write wait_for_process_identity
write_records before spec expected_exe slot pid temps =
    Triple-bind _
      (attempts-Found before.proc before.clock spec.path none pid identity_wait_attempts none)
      λ found. Triple-assume (Found before.proc before.clock spec.path none pid found) λ shown.
        Triple-bind _
          (required-Found before.proc before.clock spec.path none pid found
            (io_error ErrorKind.permission_denied) shown)
          λ identity. Triple-assume (ReadSince before.proc before.clock pid identity) λ was_shown.
            Triple-if (not (exe_names_equal identity.executable expected_exe)) _ _
              (λ e. Triple-lift _ (λ a w k h. cc) (λ x w k h. tt))
              λ e.
                Triple-bind (λ _ w. Whole (record_of pid spec identity) (w.files spec.path))
                  (Triple_of (write_epoch_record spec.path (record_of pid spec identity)) _ _
                    (λ w a h k. write_lem spec.path (record_of pid spec identity) temps w h.free k)
                    (λ w x h k. tt))
                  λ _. Triple-pure _ λ w stored. record {
                    identity = identity;
                    identified = was_shown;
                    as_expected = ground arith;
                    kept = refl;
                    stored = stored;
                  }

-- A guard that writes to a free name and reports success holds, and its file holds, the record of
-- the process it was given: its identity is what the process table showed for the pid at one call
-- since the write began, and its executable is the expected one. It is assumed that no temporary
-- name of the record is its own name.
pub guard_write_lem :
    (spec : EpochPidFile) (expected_exe : Bytes) (slot : Option EpochPidRecord) (pid : ℕ)
    (g : PidFileGuard) (w : World)
    → HasTemps spec.path
    → w.files spec.path ≡ none
    → (write (epoch spec expected_exe slot) pid w).0 ≡ ok g
    → Recorded w spec expected_exe pid g (write (epoch spec expected_exe slot) pid w).1
guard_write_lem spec expected_exe slot pid g w temps free e =
    Triple_result _ (write_records w spec expected_exe slot pid temps) w g e
      (record { free = free; same_table = refl; late = omega arith })
