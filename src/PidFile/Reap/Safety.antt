-- ===== src/PidFile/Reap/Safety.antt =====
-- The reaping of process/pid_file.rs: the signals of the reaping of one record.
use nyanpasu_utils.Prelude.{ℕ, zero, suc, Bool, not, Option, none, some, List, ◌⊎◌, inl, inr, arith}
use nyanpasu_utils.Io.{Io, IoError}
use nyanpasu_utils.System.World.{World, Signal, ProcReads}
use nyanpasu_utils.System.Act.{lift, ◌>>◌, tick}
use nyanpasu_utils.System.Triple.{
  Keeps, Keeps-of, Keeps-bind, Keeps-lift, Keeps-pure, Keeps-attempt, Triple-if,
}
use nyanpasu_utils.PidFile.Reap.Signals.{Justified, Safe, kill_recorded-Safe}
use nyanpasu_utils.PidFile.Record.{
  EpochPidRecord, ProcessIdentity, OrphanReapOutcome, record_matches_identity,
}
use nyanpasu_utils.PidFile.Identity.{process_identity}
use nyanpasu_utils.PidFile.Reap.{
  kill_wait_attempts, error_of, reap_step, look, sleep, sleep_unless_last, identity_attempts,
  identity_for_reap, identity_for_confirmation, kill_recorded_process, confirm, reap_identified,
  reap_record_with_kill,
}

-- The queries and sleeps of the reaping keep whatever a tick of the clock keeps.
module _ (P : World → Type 0) (ticks : (w : World) → P w → P (tick w)) where
  query-Keeps : (pid : ℕ) → Keeps P (process_identity pid)
  unfolding process_identity
  query-Keeps pid = Keeps-of (process_identity pid) ticks

  sleep_unless_last-Keeps : (n : ℕ) → Keeps P (sleep_unless_last n)
  sleep_unless_last-Keeps zero = Keeps-pure tt
  sleep_unless_last-Keeps (suc n) = Keeps-of sleep ticks

  pub attempts-Keeps :
      (n : ℕ) (access_error : Option IoError) (pid : ℕ)
      → Keeps P (identity_attempts n access_error pid)
  unfolding identity_attempts
  attempts-Keeps zero access_error pid = Keeps-lift _
  attempts-Keeps (suc n) access_error pid =
      Keeps-bind (Keeps-attempt (query-Keeps pid))
        λ found. go (reap_step found) (λ e. attempts-Keeps n (some e) pid)
    where
      go :
          (step : Io (Option ProcessIdentity) ⊎ IoError)
          → ((e : IoError) → Keeps P (identity_attempts n (some e) pid))
          → Keeps P (elim step [
            | inl result ↦ lift result
            | inr e ↦ (sleep_unless_last n >> identity_attempts n (some e) pid)
          ])
      go (inl result) ih = Keeps-lift result
      go (inr e) ih = Keeps-bind (sleep_unless_last-Keeps n) (λ _. ih e)

  confirm-Keeps :
      (r : EpochPidRecord) (n : ℕ) (unowned : Bool) (kill_error identity_err : Option IoError)
      → Keeps P (confirm n r unowned kill_error identity_err)
  unfolding confirm
  confirm-Keeps r zero unowned kill_error identity_err = Keeps-lift _
  confirm-Keeps r (suc n) unowned kill_error identity_err =
      Keeps-bind (Keeps-attempt (query-Keeps r.pid))
        λ found. go (look r unowned found) (λ e. confirm-Keeps r n unowned kill_error e)
    where
      go :
          (seen : Io OrphanReapOutcome ⊎ Option IoError)
          → ((e : Option IoError) → Keeps P (confirm n r unowned kill_error e))
          → Keeps P (elim seen [
            | inl outcome ↦ lift outcome
            | inr remembered ↦ (sleep_unless_last n >> confirm n r unowned kill_error remembered)
          ])
      go (inl outcome) ih = Keeps-lift outcome
      go (inr remembered) ih = Keeps-bind (sleep_unless_last-Keeps n) (λ _. ih remembered)

module _ (proc : ℕ → ℕ → ProcReads) (floor : ℕ) (J : Signal → Type 0) (before : List Signal)
    (r : EpochPidRecord) (just : (s : Signal) → Justified proc floor r s → J s) where
  -- `Safe` of these parameters.
  abbrev Good : World → Type 0
  Good = Safe proc floor J before

  tick-Good : (w : World) → Good w → Good (tick w)
  tick-Good w h = record {
    same_table = h.same_table;
    late = omega (arith, h.late);
    lawful = h.lawful;
  }

  reap_identified-Safe :
      (unowned : Bool) (identity : Option ProcessIdentity)
      → Keeps Good (reap_identified r unowned (kill_recorded_process r) identity)
  unfolding reap_identified
  reap_identified-Safe unowned none = Keeps-pure _
  reap_identified-Safe unowned (some i) =
      Triple-if (not (record_matches_identity r i)) _ _
        (λ _. Triple-if unowned _ _ (λ _. Keeps-pure _) (λ _. Keeps-lift _))
        (λ _. Keeps-bind (Keeps-attempt (kill_recorded-Safe proc floor J before r just)) λ result.
          confirm-Keeps Good tick-Good r kill_wait_attempts unowned (error_of result) none)

  pub reap_with_kill-Safe :
      (unowned : Bool) → Keeps Good (reap_record_with_kill r unowned (kill_recorded_process r))
  unfolding reap_record_with_kill identity_for_reap
  reap_with_kill-Safe unowned =
      Keeps-bind (Keeps-attempt (attempts-Keeps Good tick-Good _ none r.pid)) λ found.
        Keeps-bind (Keeps-lift (identity_for_confirmation found unowned))
          (reap_identified-Safe unowned)
