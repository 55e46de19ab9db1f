-- ===== src/PidFile/Descendants.antt =====
-- The live descendants of a process: `descendant_pids`, `capture_descendants`,
-- `merge_descendant_captures`, `attributable_identity`, and `reap_record`.
pub mod Merge
pub mod Reachable
pub mod Fuel
pub mod Listed
pub mod Captured
pub mod Safety
use nyanpasu_utils.Prelude.{
  ℕ, zero, suc, ◌+◌, ◌≡◌, refl, Bool, true, false, not, Option, none, some, List, [], ◌∷◌, length,
  ◌==◌, if◌then◌else◌,
}
use nyanpasu_utils.Io.{Io, IoError, Result, ok, err, ErrorKind, io_error}
use nyanpasu_utils.Collections.Key.{nat_key}
use nyanpasu_utils.Collections.BTreeMap
use nyanpasu_utils.System.World.{World}
use nyanpasu_utils.System.Act.{Act, Sys, and_then, ◌>>=◌, ◌>>◌, lift, pure, attempt, tick}
use nyanpasu_utils.PidFile.Record.{
  EpochPidRecord, ProcessIdentity, OrphanReapOutcome, not_found, already_exited, killed,
  record_matches_identity,
}
use nyanpasu_utils.PidFile.Format.{identity_error}
use nyanpasu_utils.PidFile.Identity.{process_identity}
use nyanpasu_utils.PidFile.Reap.{identity_for_reap, kill_recorded_process, reap_record_with_kill}

-- A process of `System::processes()`, with its parent.
abbrev pub Process : Type 0
Process = ℕ × Option ℕ

abbrev pub is_parent : ℕ → Option ℕ → Bool
is_parent p none = false
is_parent p (some q) = q == p

-- `children.get(&parent)`: the processes whose parent it is, in the order of the table.
unfoldable pub children_of : List Process → ℕ → List ℕ
children_of [] parent = []
children_of ((pid, up) ∷ table) parent =
    let rest = children_of table parent in if is_parent parent up then pid ∷ rest else rest

-- `BTreeSet<u32>`
abbrev pub Pids : Type 0
Pids = List (ℕ × Unit {0})

abbrev pub member : ℕ → Pids → Bool
member a s = elim (BTreeMap.get a s) [ none ↦ false | some _ ↦ true ]

-- The loop over the children: what is new is inserted, and pushed on the stack (its top is the head).
unfoldable pub visit_children : List ℕ → Pids → List ℕ → Pids × List ℕ
visit_children [] descendants pending = (descendants, pending)
visit_children (pid ∷ direct) descendants pending =
    visit_children direct (BTreeMap.insert pid tt descendants)
      (if member pid descendants then pending else pid ∷ pending)

-- `while let Some(parent) = pending.pop()`, with fuel.
unfoldable pub walk : ℕ → List Process → Pids → List ℕ → Option Pids
walk fuel table descendants [] = some descendants
walk zero table descendants (parent ∷ pending) = none
walk (suc fuel) table descendants (parent ∷ pending) =
    let (descendants', pending') = visit_children (children_of table parent) descendants pending in
    walk fuel table descendants' pending'

abbrev pub or_empty : Option Pids → Pids
or_empty none = []
or_empty (some s) = s

-- `descendant_pids` of a table: a process enters the stack at most once, so the fuel is enough.
unfoldable pub descendants_in : List Process → ℕ → Pids
unfolding walk children_of visit_children
descendants_in table root = or_empty (walk (suc (length table)) table [] (root ∷ []))

-- `descendant_pids`, of the process table at the time of the call
unfoldable pub descendant_pids : ℕ → World → Pids × World
unfolding descendants_in
descendant_pids root w = (descendants_in (w.processes w.clock) root, tick w)

-- `attributable_identity`
unfoldable pub attributable_identity : Io (Option ProcessIdentity) → Option ProcessIdentity
attributable_identity (ok found) = found
attributable_identity (err e) = none

abbrev pub Captures : Type 0
Captures = List (ℕ × ProcessIdentity)

abbrev pub merge_one : Captures → ℕ → Option ProcessIdentity → Captures
merge_one captured pid none = BTreeMap.remove pid captured
merge_one captured pid (some identity) = BTreeMap.insert pid identity captured

-- `merge_descendant_captures`
unfoldable pub merge_descendant_captures : Captures → List (ℕ × Option ProcessIdentity) → Captures
merge_descendant_captures captured [] = captured
merge_descendant_captures captured ((pid, identity) ∷ second) =
    merge_descendant_captures (merge_one captured pid identity) second

-- The loop that queries the first snapshot.
abbrev first_captures : Pids → Captures → World → Captures × World
first_captures [] found w = (found, w)
first_captures ((pid, _) ∷ pids) found w =
    let identity = attributable_identity (process_identity pid w).0 in
    first_captures pids (elim identity [ none ↦ found | some i ↦ BTreeMap.insert pid i found ])
      (process_identity pid w).1

-- The loop that queries the second snapshot.
abbrev second_captures :
    Pids → List (ℕ × Option ProcessIdentity) → World → List (ℕ × Option ProcessIdentity) × World
second_captures [] found w = (found, w)
second_captures ((pid, _) ∷ pids) found w =
    second_captures pids
      (BTreeMap.insert pid (attributable_identity (process_identity pid w).0) found)
      (process_identity pid w).1

-- `capture_descendants`
unfoldable pub capture_descendants : ℕ → World → Captures × World
unfolding descendant_pids attributable_identity merge_descendant_captures
capture_descendants root w =
    let (first, w1) = descendant_pids root w in
    let (first_identities, w2) = first_captures first [] w1 in
    let (second, w3) = descendant_pids root w2 in
    let (second_identities, w4) = second_captures second [] w3 in
    (merge_descendant_captures first_identities second_identities, w4)

-- The record of a captured descendant.
unfoldable pub descendant_record : EpochPidRecord → ℕ → ProcessIdentity → EpochPidRecord
descendant_record r pid identity = record r {
  pid = pid;
  executable = identity.executable;
  start_token = identity.start_token;
}

-- What the loop over the descendants has found: whether one was killed, and whether one failed.
pub record Reaped : Type 0 where
  pub killed_descendant : Bool
  pub failed : Bool

abbrev pub note_outcome : Reaped → Io OrphanReapOutcome → Reaped
note_outcome s (ok OrphanReapOutcome.killed) = record s { killed_descendant = true }
note_outcome s (ok _) = s
note_outcome s (err e) = record s { failed = true }

-- The loop of `reap_record` over the captured descendants.
unfoldable pub reap_descendants : EpochPidRecord → Captures → Reaped → World → Reaped × World
unfolding descendant_record
reap_descendants r [] s w = (s, w)
reap_descendants r ((pid, identity) ∷ descendants) s w =
    let d = descendant_record r pid identity in
    let (result, w') = reap_record_with_kill d true (kill_recorded_process d) w in
    reap_descendants r descendants (note_outcome s result) w'

abbrev pub reap_result : OrphanReapOutcome → Reaped → Io OrphanReapOutcome
reap_result root_outcome s =
    if s.failed
    then err (io_error ErrorKind.other)
    else if s.killed_descendant
    then ok killed
    else ok root_outcome

-- After the root was reaped, or not: its descendants.
abbrev pub after_root : EpochPidRecord → Captures → Io OrphanReapOutcome → Sys OrphanReapOutcome
after_root r descendants (err e) w = (err e, w)
after_root r descendants (ok root_outcome) w =
    let (s, w') =
      reap_descendants r descendants (record { killed_descendant = false; failed = false }) w in
    (reap_result root_outcome s, w')

-- The tree of a live process whose identity is the record's: the descendants are captured before the
-- root is killed.
unfoldable pub reap_tree : EpochPidRecord → Sys OrphanReapOutcome
unfolding capture_descendants reap_descendants
reap_tree r w =
    let (descendants, w1) = capture_descendants r.pid w in
    let (root, w2) = reap_record_with_kill r false (kill_recorded_process r) w1 in
    after_root r descendants root w2

abbrev pub reap_found : EpochPidRecord → Option ProcessIdentity → Sys OrphanReapOutcome
reap_found r none = pure already_exited
reap_found r (some i) =
    if not (record_matches_identity r i) then lift identity_error else reap_tree r

-- `reap_record`
unfoldable pub reap_record : EpochPidRecord → Sys OrphanReapOutcome
unfolding reap_tree
reap_record r = do identity ← identity_for_reap r.pid; reap_found r identity

tree_runs :
    descendants_in
      ((2, some 1) ∷ (3, some 2) ∷ (4, none) ∷ (5, some 3) ∷ (6, some 4) ∷ (7, some 1) ∷ [])
      1
    ≡ (2, tt) ∷ (3, tt) ∷ (5, tt) ∷ (7, tt) ∷ []
unfolding descendants_in BTreeMap.get BTreeMap.insert
tree_runs = refl
