-- ===== src/PidFile/Descendants/Captured.antt =====
-- `capture_descendants` of process/pid_file.rs: what is captured was listed and identified.
use nyanpasu_utils.Prelude.{
  ℕ, ◌+◌, ◌≤◌, ◌<◌, ◌≡◌, refl, ap, sym, ◌∙◌, Option, none, some, List, [], ◌∷◌, arith, All, All-map,
}
use mathlib.Core.Path.{subst}
use nyanpasu_utils.Io.{Io, ok, err}
use nyanpasu_utils.Collections.Key.{nat_key}
use nyanpasu_utils.Collections.BTreeMap
use nyanpasu_utils.Collections.BTreeMap.{All-insert, All-remove}
use nyanpasu_utils.System.World.{World, Signal, ProcReads}
use nyanpasu_utils.System.Act.{tick}
use nyanpasu_utils.PidFile.Record.{ProcessIdentity}
use nyanpasu_utils.PidFile.Identity.{identity_of, process_identity}
use nyanpasu_utils.PidFile.Descendants.{
  Process, Pids, Captures, attributable_identity, merge_descendant_captures, descendant_pids,
  first_captures, second_captures, capture_descendants, descendants_in,
}
use nyanpasu_utils.PidFile.Descendants.Reachable.{Descendant}
use nyanpasu_utils.PidFile.Descendants.Listed.{Listed, descendants_in-Listed}

module _ (proc : ℕ → ℕ → ProcReads) (tables : ℕ → List Process) (since : ℕ)
    (before : List Signal) where
  -- A world of the same process table, since a moment, with no new signal.
  pub record View (w : World) : Type 0 where
    pub same_table : w.proc ≡ proc
    pub same_processes : w.processes ≡ tables
    pub same_signals : w.signals ≡ before
    pub late : since ≤ w.clock

  pub tick-View : (w : World) → View w → View (tick w)
  tick-View w h = record {
    same_table = h.same_table;
    same_processes = h.same_processes;
    same_signals = h.same_signals;
    late = omega (arith, h.late);
  }

  module _ (root : ℕ) where
    -- A process that was captured by `now`: first the table listed it as a descendant of the root, then
    -- it had the identity.
    pub record Captured (now : ℕ) (e : ℕ × ProcessIdentity) : Type 0 where
      pub listed : ℕ
      pub not_before : since ≤ listed
      pub descends : Descendant (tables listed) root e.0
      pub read : ℕ
      pub listed_first : listed < read
      pub read_by_now : read < now
      pub was_read : identity_of (proc read e.0) ≡ ok (some e.1)

    later-Captured :
        (now now' : ℕ) (e : ℕ × ProcessIdentity) → now ≤ now' → Captured now e → Captured now' e
    later-Captured now now' e le c = record {
      listed = c.listed;
      not_before = c.not_before;
      descends = c.descends;
      read = c.read;
      listed_first = c.listed_first;
      read_by_now = omega (arith, c.read_by_now);
      was_read = c.was_read;
    }

    -- The same of an entry of the second look, if an identity was read.
    abbrev MayCapture : ℕ → ℕ × Option ProcessIdentity → Type 0
    MayCapture now e = (i : ProcessIdentity) → e.1 ≡ some i → Captured now (e.0, i)

    attributed :
        (r : Io (Option ProcessIdentity)) (i : ProcessIdentity)
        → attributable_identity r ≡ some i
        → r ≡ ok (some i)
    unfolding attributable_identity
    attributed (ok o) i e = ap ok e
    attributed (err x) i e = cc

    -- A query that gives an identity to a process that was listed.
    query-Captured :
        (pid listed : ℕ) (w : World)
        → View w
        → since ≤ listed
        → listed < w.clock
        → Descendant (tables listed) root pid
        → MayCapture (w.clock + 1) (pid, attributable_identity (process_identity pid w).0)
    unfolding process_identity
    query-Captured pid listed w v s l d i e = record {
      listed = listed;
      not_before = s;
      descends = d;
      read = w.clock;
      listed_first = l;
      read_by_now = omega arith;
      was_read =
          ap (λ (p : ℕ → ℕ → ProcReads). identity_of (p w.clock pid)) (sym v.same_table)
          ∙ attributed (identity_of (w.proc w.clock pid)) i e;
    }

    -- A world of the view, later than a moment, and the entries found by then.
    record Found {A : Type 0} (P : ℕ → A → Type 0) (from : ℕ) (found : List A) (w : World)
        : Type 0 where
      view : View w
      after : from ≤ w.clock
      entries : All (P w.clock) found

    Found-then :
        {A : Type 0} {P : ℕ → A → Type 0} {from next : ℕ} {found : List A} {w : World}
        → from ≤ next
        → Found P next found w
        → Found P from found w
    Found-then {A} {P} {from} {next} {found} {w} le f = record {
      view = f.view;
      after = omega (arith, f.after);
      entries = f.entries;
    }

    first-Found :
        (pids : Pids) (found : Captures) (listed : ℕ) (w : World)
        → View w
        → since ≤ listed
        → listed < w.clock
        → Listed (tables listed) root pids
        → All (Captured w.clock) found
        → Found Captured w.clock (first_captures pids found w).0 (first_captures pids found w).1
    unfolding process_identity
    first-Found [] found listed w v s l d h = record { view = v; after = omega arith; entries = h }
    first-Found ((pid, _) ∷ pids) found listed w v s l d h = Found-then (omega arith) (
        first-Found pids _ listed (tick w) (tick-View w v) s (omega arith) d.1 (
          add (attributable_identity (process_identity pid w).0)
            (query-Captured pid listed w v s l d.0)))
      where
        kept : All (Captured (w.clock + 1)) found
        kept =
            All-map (Captured w.clock) (Captured (w.clock + 1)) found
              (λ e. later-Captured w.clock (w.clock + 1) e (omega arith)) h

        add :
            (o : Option ProcessIdentity)
            → MayCapture (w.clock + 1) (pid, o)
            → All
                (Captured (w.clock + 1))
                (elim o [ none ↦ found | some i ↦ BTreeMap.insert pid i found ])
        add none c = kept
        add (some i) c = All-insert (Captured (w.clock + 1)) pid i found (c i refl) kept

    second-Found :
        (pids : Pids) (found : List (ℕ × Option ProcessIdentity)) (listed : ℕ) (w : World)
        → View w
        → since ≤ listed
        → listed < w.clock
        → Listed (tables listed) root pids
        → All (MayCapture w.clock) found
        → Found MayCapture w.clock (second_captures pids found w).0 (second_captures pids found w).1
    unfolding process_identity
    second-Found [] found listed w v s l d h = record { view = v; after = omega arith; entries = h }
    second-Found ((pid, _) ∷ pids) found listed w v s l d h = Found-then (omega arith) (
        second-Found pids _ listed (tick w) (tick-View w v) s (omega arith) d.1 (
          All-insert (MayCapture (w.clock + 1)) pid _ found (query-Captured pid listed w v s l d.0)
            (All-map (MayCapture w.clock) (MayCapture (w.clock + 1)) found
              (λ e c i q. later-Captured w.clock (w.clock + 1) (e.0, i) (omega arith) (c i q)) h)))

    merge-Captured :
        (now : ℕ) (captured : Captures) (second : List (ℕ × Option ProcessIdentity))
        → All (Captured now) captured
        → All (MayCapture now) second
        → All (Captured now) (merge_descendant_captures captured second)
    unfolding merge_descendant_captures
    merge-Captured now captured [] h k = h
    merge-Captured now captured ((pid, none) ∷ second) h k =
        merge-Captured now (BTreeMap.remove pid captured) second
          (All-remove (Captured now) pid captured h) k.1
    merge-Captured now captured ((pid, some i) ∷ second) h k =
        merge-Captured now (BTreeMap.insert pid i captured) second
          (All-insert (Captured now) pid i captured (k.0 i refl) h) k.1

    snapshot-Listed : (w : World) → View w → Listed (tables w.clock) root (descendant_pids root w).0
    unfolding descendant_pids
    snapshot-Listed w v =
        subst
          (λ (t : ℕ → List Process). Listed (tables w.clock) root (descendants_in (t w.clock) root))
          (sym v.same_processes) (descendants_in-Listed (tables w.clock) root)

    -- The second look, after the first.
    merged-Found :
        (first : Captures) (w : World)
        → View w
        → All (Captured w.clock) first
        → Found Captured w.clock
            (merge_descendant_captures first
              (second_captures (descendant_pids root w).0 [] (descendant_pids root w).1).0)
            (second_captures (descendant_pids root w).0 [] (descendant_pids root w).1).1
    unfolding descendant_pids
    merged-Found first w v h =
        let f =
          second-Found (descendant_pids root w).0 [] w.clock (tick w) (tick-View w v) v.late
            (omega arith) (snapshot-Listed w v) tt in
        record {
          view = f.view;
          after = omega (arith, f.after);
          entries =
              merge-Captured _ first _
                (All-map (Captured w.clock) (Captured _) first
                  (λ e. later-Captured w.clock _ e (omega (arith, f.after))) h)
                f.entries;
        }

    -- What `capture_descendants` returns.
    pub capture-Found :
        (w : World)
        → View w
        → View (capture_descendants root w).1
          × All (Captured (capture_descendants root w).1.clock) (capture_descendants root w).0
    unfolding capture_descendants descendant_pids
    capture-Found w v =
        let f =
          first-Found (descendant_pids root w).0 [] w.clock (tick w) (tick-View w v) v.late
            (omega arith) (snapshot-Listed w v) tt in
        let g = merged-Found _ _ f.view f.entries in (g.view, g.entries)
