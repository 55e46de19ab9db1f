-- ===== src/PidFile/Descendants/Safety.antt =====
-- `reap_record` of process/pid_file.rs: the signals it sends.
use mathlib.Core.Path.{subst}
use nyanpasu_utils.Prelude.{
  sym, ℕ, ◌≤◌, refl, true, false, not, Option, none, some, List, [], ◌∷◌, arith, All,
}
use nyanpasu_utils.Io.{Io, ok, err}
use nyanpasu_utils.System.World.{World, Signal, ProcReads}
use nyanpasu_utils.System.Triple.{
  Triple, Triple-bind, Triple-weaken, Triple-pure, Triple-lift, Triple-if, Triple_of, Keeps_at,
  keep_outcome,
}
use nyanpasu_utils.PidFile.Record.{
  EpochPidRecord, ProcessIdentity, OrphanReapOutcome, record_matches_identity,
}
use nyanpasu_utils.PidFile.Format.{identity_error}
use nyanpasu_utils.PidFile.Reap.{identity_for_reap, kill_recorded_process, reap_record_with_kill}
use nyanpasu_utils.PidFile.Reap.Signals.{Justified, Lawful, none_yet, Safe}
use nyanpasu_utils.PidFile.Reap.Safety.{attempts-Keeps, reap_with_kill-Safe}
use nyanpasu_utils.PidFile.Descendants.{
  Process, Captures, Reaped, capture_descendants, descendant_record, note_outcome, reap_descendants,
  reap_tree, reap_found, reap_record, after_root,
}
use nyanpasu_utils.PidFile.Descendants.Captured.{View, tick-View, Captured, capture-Found}

-- A signal to the recorded process, since `start`, or to a captured descendant of it, after the
-- capture. In both cases the target had the identity of the record, or of the capture, at the call
-- just before the signal.
pub data TreeSignal (proc : ℕ → ℕ → ProcReads) (tables : ℕ → List Process) (start : ℕ)
    (before : List Signal) (r : EpochPidRecord) (s : Signal) : Type 0 where
  to_root : Justified proc start r s → TreeSignal proc tables start before r s
  to_descendant :
      (pid : ℕ) (i : ProcessIdentity) (now : ℕ)
      → Captured proc tables start before r.pid now (pid, i)
      → Justified proc now (descendant_record r pid i) s
      → TreeSignal proc tables start before r s

module _ (proc : ℕ → ℕ → ProcReads) (tables : ℕ → List Process) (start : ℕ) (before : List Signal)
    (r : EpochPidRecord) where
  -- What each new signal is, the worlds before the first one, and those at the end.
  abbrev J : Signal → Type 0
  J = TreeSignal proc tables start before r

  abbrev Before : World → Type 0
  Before = View proc tables start before

  abbrev pub End : World → Type 0
  End w = Lawful J before w.signals

  pub start_Lawful : (w : World) → Before w → End w
  start_Lawful w v = subst (Lawful J before) (sym v.same_signals) none_yet

  -- The moment after the capture, and the worlds after it.
  module _ (now : ℕ) where
    descendants-Safe :
        (captures : Captures) (s : Reaped) (w : World)
        → All (Captured proc tables start before r.pid now) captures
        → Safe proc now J before w
        → Safe proc now J before (reap_descendants r captures s w).1
    unfolding reap_descendants
    descendants-Safe [] s w c h = h
    descendants-Safe ((pid, i) ∷ captures) s w c h =
        let d = descendant_record r pid i in
        descendants-Safe captures
          (note_outcome s (reap_record_with_kill d true (kill_recorded_process d) w).0)
          (reap_record_with_kill d true (kill_recorded_process d) w).1 c.1
          (Keeps_at
            (reap_with_kill-Safe proc now J before d (λ x k. to_descendant pid i now c.0 k) true) w
            h)

    root_just : start ≤ now → (x : Signal) → Justified proc now r x → J x
    root_just le x k = to_root (record {
      to_record = k.to_record;
      not_before = omega (arith, k.not_before);
      queried = k.queried;
      just_before = k.just_before;
      seen = k.seen;
      was_seen = k.was_seen;
      matched = k.matched;
    })

    -- After the root was reaped, or not.
    root_end :
        (root : Io OrphanReapOutcome) (captures : Captures) (w : World)
        → All (Captured proc tables start before r.pid now) captures
        → Safe proc now J before w
        → End (after_root r captures root w).1
    root_end (err e) captures w c h = h.lawful
    root_end (ok outcome) captures w c h = (descendants-Safe captures _ w c h).lawful

  tree-End : (w : World) → Before w → End (reap_tree r w).1
  unfolding reap_tree
  tree-End w v =
      let (v1, c) = capture-Found proc tables start before r.pid w v in
      let w1 = (capture_descendants r.pid w).1 in
      root_end w1.clock (reap_record_with_kill r false (kill_recorded_process r) w1).0
        (capture_descendants r.pid w).0
        (reap_record_with_kill r false (kill_recorded_process r) w1).1 c
        (Keeps_at (reap_with_kill-Safe proc w1.clock J before r (root_just w1.clock v1.late) false)
          w1
          (record { same_table = v1.same_table; late = omega arith; lawful = start_Lawful w1 v1 }))

  found-End :
      (identity : Option ProcessIdentity)
      → Triple Before (reap_found r identity) (λ _. End) (λ _. End)
  found-End none = Triple-pure _ (λ w v. start_Lawful w v)
  found-End (some i) =
      Triple-if (not (record_matches_identity r i)) _ _
        (λ _.
          Triple-lift identity_error (λ a w e v. start_Lawful w v) (λ x w e v. start_Lawful w v))
        (λ _.
          Triple_of (reap_tree r) (λ _. End) (λ _. End) (λ w a v e. tree-End w v)
            (λ w x v e. tree-End w v))

  pub record-End : Triple Before (reap_record r) (λ _. End) (λ _. End)
  unfolding reap_record identity_for_reap
  record-End =
      Triple-bind (λ _. Before)
        (Triple-weaken (λ w v. v) (λ a w v. v) (λ x w v. start_Lawful w v)
          (attempts-Keeps Before (tick-View proc tables start before) _ none r.pid))
        found-End

-- Whatever the system answers, each signal that `reap_record` sends goes to the recorded process, or
-- to one that an earlier process table listed as its descendant and whose identity was read after
-- that; and at the call just before the signal the target had the start token and the executable of
-- the record, or of that identity.
pub reap_record_justified :
    (r : EpochPidRecord) (w : World)
    → Lawful
        (TreeSignal w.proc w.processes w.clock w.signals r)
        w.signals
        (reap_record r w).1.signals
reap_record_justified r w =
    keep_outcome (End w.proc w.processes w.clock w.signals r) (reap_record r w).0
      (reap_record r w).1
      ((record-End w.proc w.processes w.clock w.signals r).at w (record {
        same_table = refl;
        same_processes = refl;
        same_signals = refl;
        late = omega arith;
      }))
