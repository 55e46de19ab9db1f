-- ===== src/PidFile/Descendants/Merge.antt =====
-- The descendants of process/pid_file.rs: the merge of two snapshots.
use nyanpasu_utils.Prelude.{
  ℕ, ◌≡◌, refl, ◌∙◌, Option, none, some, List, [], ◌∷◌, ◌==◌, if◌then◌else◌, arith,
}
use nyanpasu_utils.Collections.Key.{nat_key}
use nyanpasu_utils.Collections.BTreeMap
use nyanpasu_utils.Collections.BTreeMap.{
  IsOrdered, Above, get-insert, get-remove, insert-IsOrdered, remove-IsOrdered, Above-get,
}
use nyanpasu_utils.PidFile.Record.{ProcessIdentity}
use nyanpasu_utils.PidFile.Descendants.{Captures, merge_one, merge_descendant_captures}

-- What the two looks make of one process.
abbrev pub latest :
    Option (Option ProcessIdentity) → Option ProcessIdentity → Option ProcessIdentity
latest none first = first
latest (some second) first = second

merge_one-get :
    (captured : Captures) (pid p : ℕ) (identity : Option ProcessIdentity)
    → IsOrdered captured
    → BTreeMap.get p (merge_one captured pid identity)
      ≡ (if pid == p then identity else BTreeMap.get p captured)
merge_one-get captured pid p none h = get-remove pid p captured h
merge_one-get captured pid p (some i) h = get-insert pid p i captured

merge_one-IsOrdered :
    (captured : Captures) (pid : ℕ) (identity : Option ProcessIdentity)
    → IsOrdered captured
    → IsOrdered (merge_one captured pid identity)
merge_one-IsOrdered captured pid none h = remove-IsOrdered pid captured h
merge_one-IsOrdered captured pid (some i) h = insert-IsOrdered pid i captured h

-- A process that the second look saw has the identity of the second look, or is dropped if that could
-- not be read; one that only the first look saw keeps its identity; no other process is captured.
pub merge_lem :
    (captured : Captures) (second : List (ℕ × Option ProcessIdentity)) (p : ℕ)
    → IsOrdered captured
    → IsOrdered second
    → BTreeMap.get p (merge_descendant_captures captured second)
      ≡ latest (BTreeMap.get p second) (BTreeMap.get p captured)
unfolding merge_descendant_captures BTreeMap.get
merge_lem captured [] p h k = refl
merge_lem captured ((pid, identity) ∷ second) p h k =
    merge_lem (merge_one captured pid identity) second p
      (merge_one-IsOrdered captured pid identity h) k.1
    ∙ ground (arith, merge_one-get captured pid p identity h, Above-get pid second k.0)
