-- ===== src/PidFile/Reap/Signals.antt =====
-- The reaping of process/pid_file.rs: the signals of one kill.
use nyanpasu_utils.Prelude.{
  ℕ, ◌+◌, ◌≤◌, ◌≡◌, refl, ap, sym, ◌∙◌, true, Option, none, some, List, ◌∷◌, arith,
}
use mathlib.Core.Path.{subst}
use nyanpasu_utils.Io.{Io, ok, err}
use nyanpasu_utils.System.World.{World, Signal, ProcReads}
use nyanpasu_utils.System.Act.{lift}
use nyanpasu_utils.System.Triple.{
  Keeps, Keeps-of, Keeps-bind, Keeps-lift, Keeps-attempt, Triple, Triple_of, Triple-if, Triple-bind,
}
use nyanpasu_utils.PidFile.Record.{EpochPidRecord, ProcessIdentity, record_matches_identity}
use nyanpasu_utils.PidFile.Identity.{identity_of, process_identity}
use nyanpasu_utils.PidFile.Reap.{
  sleep, pidfd_open, pidfd_kill, kill_by_pid, check_identity, kill_revalidated_by_pid, kill_opened,
  kill_recorded_process, has_os_error, enosys,
}

-- The signal went to the record's process, at `floor` or later, and that process had the record's
-- identity at the call just before.
pub record Justified (proc : ℕ → ℕ → ProcReads) (floor : ℕ) (r : EpochPidRecord) (s : Signal)
    : Type 0 where
  pub to_record : s.target ≡ r.pid
  pub not_before : floor ≤ s.time
  pub queried : ℕ
  pub just_before : s.time ≡ queried + 1
  pub seen : ProcessIdentity
  pub was_seen : identity_of (proc queried r.pid) ≡ ok (some seen)
  pub matched : record_matches_identity r seen ≡ true

-- The signals beyond `before` all satisfy `J`.
pub data Lawful (J : Signal → Type 0) (before : List Signal) : List Signal → Type 0 where
  none_yet : Lawful J before before
  one_more :
      (s : Signal) {later : List Signal} → J s → Lawful J before later → Lawful J before (s ∷ later)

-- The process table is the one given, it is `floor` or later, and every new signal satisfies `J`.
pub record Safe (proc : ℕ → ℕ → ProcReads) (floor : ℕ) (J : Signal → Type 0) (before : List Signal)
    (w : World) : Type 0 where
  pub same_table : w.proc ≡ proc
  pub late : floor ≤ w.clock
  pub lawful : Lawful J before w.signals

module _ (proc : ℕ → ℕ → ProcReads) (floor : ℕ) (J : Signal → Type 0) (before : List Signal)
    (r : EpochPidRecord) (just : (s : Signal) → Justified proc floor r s → J s) where
  -- `Safe` of these parameters.
  abbrev Good : World → Type 0
  Good = Safe proc floor J before

  tick-Good :
      (w v : World)
      → v.clock ≡ w.clock + 1
      → v.proc ≡ w.proc
      → v.signals ≡ w.signals
      → Good w
      → Good v
  tick-Good w v c p l h = record {
    same_table = p ∙ h.same_table;
    late = omega (arith, h.late);
    lawful = subst (Lawful J before) (sym l) h.lawful;
  }

  pub query-Safe : (pid : ℕ) → Keeps Good (process_identity pid)
  unfolding process_identity
  query-Safe pid = Keeps-of (process_identity pid) (λ w h. tick-Good w _ refl refl refl h)

  pub sleep-Safe : Keeps Good sleep
  sleep-Safe = Keeps-of sleep (λ w h. tick-Good w _ refl refl refl h)

  open-Safe : (pid : ℕ) → Keeps Good (pidfd_open pid)
  unfolding pidfd_open
  open-Safe pid = Keeps-of (pidfd_open pid) (λ w h. tick-Good w _ refl refl refl h)

  -- What the query just before has shown.
  pub record Proved (w : World) : Type 0 where
    pub safe : Good w
    pub last : ℕ
    pub now : w.clock ≡ last + 1
    pub shown : ProcessIdentity
    pub was_shown : identity_of (proc last r.pid) ≡ ok (some shown)
    pub matches : record_matches_identity r shown ≡ true

  -- The world right after a query of the record's process.
  record Queried (identity : Option ProcessIdentity) (w : World) : Type 0 where
    safe : Good w
    last : ℕ
    now : w.clock ≡ last + 1
    was_shown : identity_of (proc last r.pid) ≡ ok identity

  query-Queried : Triple Good (process_identity r.pid) Queried (λ _. Good)
  unfolding process_identity
  query-Queried =
      Triple_of (process_identity r.pid) Queried (λ _. Good)
        (λ w identity h e. record {
          safe = tick-Good w _ refl refl refl h;
          last = w.clock;
          now = refl;
          was_shown =
              ap (λ (p : ℕ → ℕ → ProcReads). identity_of (p w.clock r.pid)) (sym h.same_table) ∙ e;
        })
        (λ w x h e. tick-Good w _ refl refl refl h)

  Proved-of :
      (identity : Option ProcessIdentity) (w : World)
      → check_identity r identity ≡ ok tt
      → Queried identity w
      → Proved w
  unfolding check_identity
  Proved-of none w e h = cc
  Proved-of (some i) w e h = record {
    safe = h.safe;
    last = h.last;
    now = h.now;
    shown = i;
    was_shown = h.was_shown;
    matches = ground arith;
  }

  check-Proved :
      (identity : Option ProcessIdentity)
      → Triple (Queried identity) (lift (check_identity r identity)) (λ _. Proved) (λ _. Good)
  check-Proved identity =
      Triple_of (lift (check_identity r identity)) (λ _. Proved) (λ _. Good)
        (λ w a h e. Proved-of identity w e h) (λ w x h e. h.safe)

  signal-Safe :
      (w : World) (s : Signal) (v : World)
      → Proved w
      → s.time ≡ w.clock
      → s.target ≡ r.pid
      → v.clock ≡ w.clock + 1
      → v.proc ≡ w.proc
      → v.signals ≡ s ∷ w.signals
      → Good v
  signal-Safe w s v h t p c q l = record {
    same_table = q ∙ h.safe.same_table;
    late = omega (arith, h.safe.late);
    lawful = subst (Lawful J before) (sym l) (
        one_more s
          (just s (record {
            to_record = p;
            not_before = omega (arith, h.safe.late);
            queried = h.last;
            just_before = t ∙ h.now;
            seen = h.shown;
            was_seen = h.was_shown;
            matched = h.matches;
          }))
          h.safe.lawful);
  }

  pidfd_kill-Safe : Triple Proved (pidfd_kill r.pid) (λ _. Good) (λ _. Good)
  unfolding pidfd_kill
  pidfd_kill-Safe =
      Triple_of (pidfd_kill r.pid) (λ _. Good) (λ _. Good)
        (λ w a h e. signal-Safe w _ _ h refl refl refl refl refl)
        (λ w a h e. signal-Safe w _ _ h refl refl refl refl refl)

  kill_by_pid-Safe : Triple Proved (kill_by_pid r.pid) (λ _. Good) (λ _. Good)
  unfolding kill_by_pid
  kill_by_pid-Safe =
      Triple_of (kill_by_pid r.pid) (λ _. Good) (λ _. Good)
        (λ w a h e. signal-Safe w _ _ h refl refl refl refl refl)
        (λ w a h e. signal-Safe w _ _ h refl refl refl refl refl)

  revalidated-Safe : Keeps Good (kill_revalidated_by_pid r)
  unfolding kill_revalidated_by_pid
  revalidated-Safe =
      Triple-bind Queried query-Queried
        λ identity. Triple-bind (λ _. Proved) (check-Proved identity) λ _. kill_by_pid-Safe

  opened-Safe : (opened : Io (Unit {0})) → Keeps Good (kill_opened r opened)
  unfolding kill_opened
  opened-Safe (ok _) =
      Triple-bind Queried query-Queried
        λ identity. Triple-bind (λ _. Proved) (check-Proved identity) λ _. pidfd_kill-Safe
  opened-Safe (err e) =
      Triple-if (has_os_error enosys e) _ _ (λ _. revalidated-Safe) (λ _. Keeps-lift (err e))

  pub kill_recorded-Safe : Keeps Good (kill_recorded_process r)
  unfolding kill_recorded_process
  kill_recorded-Safe = Keeps-bind (Keeps-attempt (open-Safe r.pid)) opened-Safe
