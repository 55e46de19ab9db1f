-- ===== src/PidFile/Reap/Confirm.antt =====
-- What an outcome of a reap says of the process.
use nyanpasu_utils.Prelude.{
  ℕ, zero, suc, ◌≤◌, ◌≡◌, refl, sym, ap, ◌∙◌, Bool, true, false, Option, none, some, ◌⊎◌, inl, inr,
  arith, if◌then◌else◌,
}
use mathlib.Core.Path.{subst}
use nyanpasu_utils.Io.{Io, IoError, ok, err, ok_inj, ErrorKind, io_error}
use nyanpasu_utils.System.World.{World, ProcReads}
use nyanpasu_utils.System.Act.{Sys, attempt, lift, ◌>>◌}
use nyanpasu_utils.System.Triple.{
  Triple, Triple_of, Triple-bind, Triple-weaken, Triple-pure, Triple_result,
}
use nyanpasu_utils.PidFile.Record.{
  EpochPidRecord, ProcessIdentity, OrphanReapOutcome, killed, already_exited,
  record_matches_identity,
}
use nyanpasu_utils.PidFile.Identity.{identity_of, process_identity}
use nyanpasu_utils.PidFile.Reap.{
  look, sleep, sleep_unless_last, confirm, or_later, error_of, kill_wait_attempts, reap_identified,
}

-- The process is not there any more, as far as a look at it can say: nothing or another process has
-- its number, or, for one that is not owned, it cannot be looked at.
abbrev pub Gone : EpochPidRecord → Bool → Io (Option ProcessIdentity) → Type 0
Gone r unowned (ok none) = Unit
Gone r unowned (ok (some i)) = record_matches_identity r i ≡ false
Gone r unowned (err e) = unowned ≡ true

look-Gone :
    (r : EpochPidRecord) (unowned : Bool) (found : Io (Option ProcessIdentity))
    (o : OrphanReapOutcome)
    → look r unowned found ≡ inl (ok o)
    → (o ≡ killed) × Gone r unowned found
look-Gone r unowned (ok none) o h = (ground arith, tt)
look-Gone r unowned (ok (some i)) o h = ground arith
look-Gone r unowned (err e) o h = ground arith

-- A look at the process, at the time `t` or later, showed that it was gone.
pub record SeenGone (proc : ℕ → ℕ → ProcReads) (r : EpochPidRecord) (unowned : Bool) (t : ℕ)
    : Type 0 where
  pub time : ℕ
  pub later : t ≤ time
  pub gone : Gone r unowned (identity_of (proc time r.pid))

exhausted :
    (kill_error identity_err : Option IoError) (last : IoError) (o : OrphanReapOutcome)
    → or_later kill_error (or_later identity_err (err last)) ≡ ok o
    → ⊥
exhausted none none last o h = cc
exhausted none (some e) last o h = cc
exhausted (some e) identity_err last o h = cc

module _ (r : EpochPidRecord) (unowned : Bool) (t : ℕ) (proc : ℕ → ℕ → ProcReads) where
  -- The process table is the one given, and it is not before `t`.
  abbrev From : World → Type 0
  From w = (w.proc ≡ proc) × (t ≤ w.clock)

  abbrev IsKilled : OrphanReapOutcome → World → Type 0
  IsKilled o w = (o ≡ killed) × SeenGone proc r unowned t

  -- After a look, whose time is known.
  record Looked (found : Io (Option ProcessIdentity)) (w : World) : Type 0 where
    from : From w
    time : ℕ
    later : t ≤ time
    seen : found ≡ identity_of (proc time r.pid)

  query-Looked :
      Triple From (attempt {F = IoError} (process_identity r.pid)) Looked (λ _ _. Unit {0})
  unfolding process_identity
  query-Looked =
      Triple_of (attempt (process_identity r.pid)) Looked (λ _ _. Unit {0})
        (λ w found h e. record {
          from = (h.0, omega arith);
          time = w.clock;
          later = h.1;
          seen = sym (ok_inj e) ∙ ap (λ (p : ℕ → ℕ → ProcReads). identity_of (p w.clock r.pid)) h.0;
        })
        (λ w x h e. tt)

  sleep-From : (n : ℕ) → Triple From (sleep_unless_last n) (λ _. From) (λ _ _. Unit {0})
  sleep-From zero = Triple-pure tt (λ w h. h)
  sleep-From (suc n) =
      Triple_of sleep (λ _. From) (λ _ _. Unit {0}) (λ w a h e. (h.0, omega arith)) (λ w x h e. tt)

  gone_now :
      (found : Io (Option ProcessIdentity)) (o : OrphanReapOutcome) (w : World)
      → look r unowned found ≡ inl (ok o)
      → Looked found w
      → IsKilled o w
  gone_now found o w e h =
      let (k, g) = look-Gone r unowned found o e in
      (k, record { time = h.time; later = h.later; gone = subst (Gone r unowned) h.seen g })

  -- The outcome of the window is that the process was killed, and a look in it showed it gone.
  pub confirm_gone :
      (n : ℕ) (kill_error identity_err : Option IoError)
      → Triple From (confirm n r unowned kill_error identity_err) IsKilled (λ _ _. Unit {0})
  unfolding confirm
  confirm_gone zero kill_error identity_err =
      Triple_of _ IsKilled (λ _ _. Unit {0})
        (λ w o h e. absurd (exhausted kill_error identity_err _ o e)) (λ w x h e. tt)
  confirm_gone (suc n) kill_error identity_err =
      Triple-bind Looked query-Looked
        λ found. go found (look r unowned found) refl (λ e. confirm_gone n kill_error e)
    where
      go :
          (found : Io (Option ProcessIdentity)) (seen : Io OrphanReapOutcome ⊎ Option IoError)
          → look r unowned found ≡ seen
          → ((e : Option IoError)
              → Triple From (confirm n r unowned kill_error e) IsKilled (λ _ _. Unit {0}))
          → Triple
              (Looked found)
              (elim seen [
                | inl outcome ↦ lift outcome
                | inr remembered ↦
                    (sleep_unless_last n >> confirm n r unowned kill_error remembered)
              ])
              IsKilled
              (λ _ _. Unit {0})
      go found (inl (ok o)) q ih =
          Triple_of (lift (ok o)) IsKilled (λ _ _. Unit {0})
            (λ w a h e. subst (λ x. IsKilled x w) (ok_inj e) (gone_now found o w q h))
            (λ w x h e. tt)
      go found (inl (err x)) q ih =
          Triple_of (lift (err x)) IsKilled (λ _ _. Unit {0}) (λ w a h e. cc) (λ w y h e. tt)
      go found (inr remembered) q ih =
          Triple-bind (λ _. From)
            (Triple-weaken {R = λ _ _. Unit {0}} (λ w h. h.from) (λ a w h. h) (λ e w h. h)
              (sleep-From n))
            λ _. ih remembered

reap_matched :
    (r : EpochPidRecord) (unowned : Bool) (kill : Sys (Unit {0})) (i : ProcessIdentity) (w : World)
    → record_matches_identity r i ≡ true
    → reap_identified r unowned kill (some i) w
      ≡ confirm kill_wait_attempts r unowned (error_of (kill w).0) none (kill w).1
unfolding reap_identified
reap_matched r unowned kill i w m = rw m

-- A reap of a process that has the record's identity, by a kill that leaves the answers of the
-- process table to come as they are, ends well only with the process killed, and then a look at it
-- after the kill showed that it was gone.
pub reap_identified_lem :
    (r : EpochPidRecord) (unowned : Bool) (kill : Sys (Unit {0})) (i : ProcessIdentity)
    (o : OrphanReapOutcome) (w : World)
    → record_matches_identity r i ≡ true
    → (kill w).1.proc ≡ w.proc
    → (reap_identified r unowned kill (some i) w).0 ≡ ok o
    → (o ≡ killed) × SeenGone w.proc r unowned (kill w).1.clock
unfolding reap_identified
reap_identified_lem r unowned kill i o w m same e =
    Triple_result (confirm kill_wait_attempts r unowned (error_of (kill w).0) none)
      (confirm_gone r unowned (kill w).1.clock w.proc kill_wait_attempts (error_of (kill w).0) none)
      (kill w).1 o
      (ap (λ (x : Io OrphanReapOutcome × World). x.0) (sym (reap_matched r unowned kill i w m)) ∙ e)
      (same, omega arith)

-- A live process that is not the record's is never killed: the reap of a root fails, that of a
-- descendant that need not be owned reports it as exited, and no signal is sent.
pub reap_mismatch :
    (r : EpochPidRecord) (kill : Sys (Unit {0})) (i : ProcessIdentity) (unowned : Bool) (w : World)
    → record_matches_identity r i ≡ false
    → reap_identified r unowned kill (some i) w
      ≡ (if unowned then ok already_exited else err (io_error ErrorKind.permission_denied), w)
unfolding reap_identified
reap_mismatch r kill i unowned w m = ground arith
