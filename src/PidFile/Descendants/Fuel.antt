-- ===== src/PidFile/Descendants/Fuel.antt =====
-- The walk over the process table in process/pid_file.rs: its fuel.
use nyanpasu_utils.Prelude.{
  ℕ, zero, suc, ◌+◌, ◌≤◌, ◌<◌, ◌≡◌, refl, sym, ap, ◌∙◌, Bool, true, false, ◌||◌, Option, some, List,
  [], ◌∷◌, length, ◌==◌, if◌then◌else◌, All, All-map, arith, Bool-cases, inl, inr,
}
use nyanpasu_utils.Collections.Key.{nat_key}
use nyanpasu_utils.Collections.BTreeMap
use nyanpasu_utils.Collections.BTreeMap.{get-insert}
use nyanpasu_utils.PidFile.Descendants.{
  Process, is_parent, children_of, Pids, member, visit_children, walk, or_empty, descendants_in,
}

-- How many entries of the table are not in the set.
unseen : List Process → Pids → ℕ
unseen [] d = 0
unseen ((pid, up) ∷ table) d = let n = unseen table d in if member pid d then n else suc n

listed : ℕ → List Process → Bool
listed p [] = false
listed p ((pid, up) ∷ table) = let rest = listed p table in (pid == p) || rest

pub member-insert :
    (p q : ℕ) (d : Pids) → member q (BTreeMap.insert p tt d) ≡ (if p == q then true else member q d)
member-insert p q d = ground (arith, get-insert p q tt d)

unseen-insert-le :
    (p : ℕ) (table : List Process) (d : Pids)
    → unseen table (BTreeMap.insert p tt d) ≤ unseen table d
unfolding unseen
unseen-insert-le p [] d = omega arith
unseen-insert-le p ((pid, up) ∷ table) d =
    ground (arith, unseen-insert-le p table d, member-insert p pid d)

unseen-insert-lt :
    (p : ℕ) (table : List Process) (d : Pids)
    → listed p table ≡ true
    → member p d ≡ false
    → unseen table (BTreeMap.insert p tt d) < unseen table d
unfolding unseen listed
unseen-insert-lt p [] d h m = cc
unseen-insert-lt p ((pid, up) ∷ table) d h m =
    ground (arith, unseen-insert-le p table d, unseen-insert-lt p table d, member-insert p pid d)

children_listed :
    (table : List Process) (parent : ℕ)
    → All (λ q. listed q table ≡ true) (children_of table parent)
unfolding children_of listed
children_listed [] parent = tt
children_listed ((pid, up) ∷ table) parent = elim (Bool-cases (is_parent parent up)) [
  | inl e ↦ rw e (ground arith, later pid up table parent (children_listed table parent))
  | inr e ↦ rw e (later pid up table parent (children_listed table parent))
]
  where
    later :
        (pid : ℕ) (up : Option ℕ) (table : List Process) (parent : ℕ)
        → All (λ q. listed q table ≡ true) (children_of table parent)
        → All (λ q. listed q ((pid, up) ∷ table) ≡ true) (children_of table parent)
    later pid up table parent h =
        All-map (λ q. listed q table ≡ true) (λ q. listed q ((pid, up) ∷ table) ≡ true)
          (children_of table parent) (λ q k. ground arith) h

-- A visit pushes no more than it takes from what was unseen.
visit_bounded :
    (table : List Process) (direct : List ℕ) (d : Pids) (pending : List ℕ)
    → All (λ q. listed q table ≡ true) direct
    → length (visit_children direct d pending).1 + unseen table (visit_children direct d pending).0
      ≤ length pending + unseen table d
unfolding visit_children
visit_bounded table [] d pending h = omega arith
visit_bounded table (pid ∷ direct) d pending h = ground (
  arith,
  visit_bounded table direct (BTreeMap.insert pid tt d) pending h.1,
  visit_bounded table direct (BTreeMap.insert pid tt d) (pid ∷ pending) h.1,
  unseen-insert-le pid table d,
  unseen-insert-lt pid table d h.0,
)

walk_total :
    (fuel : ℕ) (table : List Process) (d : Pids) (pending : List ℕ)
    → length pending + unseen table d ≤ fuel
    → (s : Pids) × (walk fuel table d pending ≡ some s)
unfolding walk
walk_total fuel table d [] h = (d, refl)
walk_total zero table d (parent ∷ pending) h = absurd (omega arith)
walk_total (suc fuel) table d (parent ∷ pending) h =
    walk_total fuel table (visit_children (children_of table parent) d pending).0
      (visit_children (children_of table parent) d pending).1
      (omega (
        arith,
        visit_bounded table (children_of table parent) d pending (children_listed table parent),
      ))

unseen_empty : (table : List Process) → unseen table [] ≡ length table
unfolding unseen BTreeMap.get
unseen_empty [] = refl
unseen_empty ((pid, up) ∷ table) = ap suc (unseen_empty table)

-- The walk from any process of any table comes to its end, with one unit of fuel more than the table has
-- entries: what `descendant_pids` returns is what the loop has found, cycles included.
pub walk_ends :
    (table : List Process) (root : ℕ)
    → walk (suc (length table)) table [] (root ∷ []) ≡ some (descendants_in table root)
unfolding descendants_in
walk_ends table root =
    let (s, e) =
      walk_total (suc (length table)) table [] (root ∷ []) (omega (arith, unseen_empty table)) in
    e ∙ ap some (sym (ap or_empty e))
