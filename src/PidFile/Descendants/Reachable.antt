-- ===== src/PidFile/Descendants/Reachable.antt =====
-- The walk over the process table in process/pid_file.rs: the parent relation and its closure.
use mathlib.Core.Path.{subst}
use mathlib.Core.Option.{some-injective, none-ne-some}
use nyanpasu_utils.Prelude.{
  ℕ, zero, suc, ◌≡◌, refl, Bool, true, false, not, ◌||◌, ◌&&◌, Option, none, some, sym, ◌∙◌, List,
  [], ◌∷◌, length, ◌==◌, ==_iff, ==_refl, ◌↔◌, arith, Bool-cases, inl, inr, ◌⊎◌,
}
use nyanpasu_utils.Collections.Key.{nat_key}
use nyanpasu_utils.Collections.BTreeMap
use nyanpasu_utils.Collections.BTreeMap.{get-insert}
use nyanpasu_utils.PidFile.Descendants.{
  Process, children_of, Pids, member, visit_children, walk, descendants_in,
}
use nyanpasu_utils.PidFile.Descendants.Fuel.{member-insert, walk_ends}

-- Whether a number is in the list.
unfoldable pub among : ℕ → List ℕ → Bool
among q [] = false
among q (p ∷ ps) = let rest = among q ps in (p == q) || rest

-- Whether a parent that a process names, if it names one, is a process.
abbrev names : ℕ → Option ℕ → Bool
names p none = false
names p (some up) = up == p

-- Whether the table has an entry of the process `q` that names `p` as its parent.
unfoldable pub is_child : List Process → ℕ → ℕ → Bool
is_child [] p q = false
is_child ((pid, up) ∷ table) p q = let rest = is_child table p q in (pid == q && names p up) || rest

-- A child of the root, or of one of its descendants, in the table.
pub data Descendant (table : List Process) (root : ℕ) : ℕ → Type 0 where
  child : (q : ℕ) → is_child table root q ≡ true → Descendant table root q
  further :
      (p q : ℕ) → Descendant table root p → is_child table p q ≡ true → Descendant table root q

-- The children that the code looks up are those of the table.
pub among-children_of :
    (table : List Process) (p q : ℕ) → among q (children_of table p) ≡ is_child table p q
unfolding children_of is_child among
among-children_of [] p q = refl
among-children_of ((pid, none) ∷ table) p q = ground (arith, among-children_of table p q)
among-children_of ((pid, some up) ∷ table) p q = ground (arith, among-children_of table p q)

-- Sound: what is in the set descends from the root.
abbrev Sound : List Process → ℕ → Pids → Type 0
Sound table root d = (q : ℕ) → member q d ≡ true → Descendant table root q

-- The stack holds the root and its descendants.
abbrev pub IsOrigin : List Process → ℕ → ℕ → Type 0
IsOrigin table root p = (p ≡ root) ⊎ Descendant table root p

pub below :
    (table : List Process) (root p q : ℕ)
    → IsOrigin table root p
    → among q (children_of table p) ≡ true
    → Descendant table root q
below table root p q (inl e) c =
    child q (subst (λ x. is_child table x q ≡ true) e (sym (among-children_of table p q) ∙ c))
below table root p q (inr k) c = further p q k (sym (among-children_of table p q) ∙ c)

-- Complete but for the stack: a child of the root or of a member is a member, unless its parent waits.
abbrev Closed : List Process → ℕ → Pids → List ℕ → Type 0
Closed table root d pending =
    (p q : ℕ)
    → ((p == root) || member p d) ≡ true
    → is_child table p q ≡ true
    → (among p pending || member q d) ≡ true

visit_member :
    (direct : List ℕ) (d : Pids) (pending : List ℕ) (q : ℕ)
    → member q (visit_children direct d pending).0 ≡ (among q direct || member q d)
unfolding visit_children among
visit_member [] d pending q = refl
visit_member (pid ∷ direct) d pending q = ground (
  arith,
  visit_member direct (BTreeMap.insert pid tt d) pending q,
  visit_member direct (BTreeMap.insert pid tt d) (pid ∷ pending) q,
  member-insert pid q d,
)

-- What waits afterwards is what waited, and what was new.
visit_pending :
    (direct : List ℕ) (d : Pids) (pending : List ℕ) (q : ℕ)
    → among q (visit_children direct d pending).1
      ≡ (among q pending || (among q direct && not (member q d)))
unfolding visit_children among
visit_pending [] d pending q = ground arith
visit_pending (pid ∷ direct) d pending q = ground (
  arith,
  visit_pending direct (BTreeMap.insert pid tt d) pending q,
  visit_pending direct (BTreeMap.insert pid tt d) (pid ∷ pending) q,
  member-insert pid q d,
)

visit-Closed :
    (table : List Process) (root parent : ℕ) (d : Pids) (pending : List ℕ)
    → Closed table root d (parent ∷ pending)
    → Closed table root
        (visit_children (children_of table parent) d pending).0
        (visit_children (children_of table parent) d pending).1
unfolding among
visit-Closed table root parent d pending h p q a c = ground (
  arith,
  visit_member (children_of table parent) d pending p,
  visit_member (children_of table parent) d pending q,
  visit_pending (children_of table parent) d pending p,
  h p q,
  among-children_of table parent q,
  ==_iff parent p,
)

visit-Sound :
    (table : List Process) (root parent : ℕ) (d : Pids) (pending : List ℕ)
    → IsOrigin table root parent
    → Sound table root d
    → Sound table root (visit_children (children_of table parent) d pending).0
visit-Sound table root parent d pending o h q m =
    elim (Bool-cases (among q (children_of table parent))) [
      | inl c ↦ below table root parent q o c
      | inr c ↦ h q (ground (arith, visit_member (children_of table parent) d pending q))
    ]

abbrev Origins : List Process → ℕ → List ℕ → Type 0
Origins table root pending = (q : ℕ) → among q pending ≡ true → IsOrigin table root q

visit-Origins :
    (table : List Process) (root parent : ℕ) (d : Pids) (pending : List ℕ)
    → IsOrigin table root parent
    → Origins table root pending
    → Origins table root (visit_children (children_of table parent) d pending).1
visit-Origins table root parent d pending o h q m = elim (Bool-cases (among q pending)) [
  | inl w ↦ h q w
  | inr w ↦ inr (
      below table root parent q o
        (ground (arith, visit_pending (children_of table parent) d pending q)))
]

walk-Sound :
    (fuel : ℕ) (table : List Process) (root : ℕ) (d s : Pids) (pending : List ℕ)
    → Sound table root d
    → Origins table root pending
    → walk fuel table d pending ≡ some s
    → Sound table root s
unfolding walk among
walk-Sound fuel table root d s [] h o e = subst (Sound table root) (some-injective _ _ e) h
walk-Sound zero table root d s (parent ∷ pending) h o e = absurd (none-ne-some _ e)
walk-Sound (suc fuel) table root d s (parent ∷ pending) h o e =
    walk-Sound fuel table root (visit_children (children_of table parent) d pending).0 s
      (visit_children (children_of table parent) d pending).1
      (visit-Sound table root parent d pending (o parent (ground (arith, ==_refl parent))) h)
      (visit-Origins table root parent d pending (o parent (ground (arith, ==_refl parent)))
        (λ q w. o q (ground arith)))
      e

walk-Closed :
    (fuel : ℕ) (table : List Process) (root : ℕ) (d s : Pids) (pending : List ℕ)
    → Closed table root d pending
    → walk fuel table d pending ≡ some s
    → Closed table root s []
unfolding walk
walk-Closed fuel table root d s [] h e =
    subst (λ x. Closed table root x []) (some-injective _ _ e) h
walk-Closed zero table root d s (parent ∷ pending) h e = absurd (none-ne-some _ e)
walk-Closed (suc fuel) table root d s (parent ∷ pending) h e =
    walk-Closed fuel table root (visit_children (children_of table parent) d pending).0 s
      (visit_children (children_of table parent) d pending).1
      (visit-Closed table root parent d pending h) e

complete :
    (table : List Process) (root q : ℕ) (s : Pids)
    → Closed table root s []
    → Descendant table root q
    → member q s ≡ true
unfolding among
complete table root q s h (child _ c) = ground (arith, h root q, ==_refl root)
complete table root q s h (further p _ k c) = ground (arith, h p q, complete table root p s h k)

-- The processes that `descendant_pids` finds in a table are exactly those that an entry of the
-- table gives the root as parent, or one of them, and so on, cycles included.
pub descendants_lem :
    (table : List Process) (root q : ℕ)
    → (member q (descendants_in table root) ≡ true) ↔ Descendant table root q
unfolding among BTreeMap.get
descendants_lem table root q = (
  walk-Sound (suc (length table)) table root [] (descendants_in table root) (root ∷ [])
      (λ p m. absurd (ground arith)) (λ p w. inl (ground (arith, ==_iff root p)))
      (walk_ends table root) q,
  complete table root q (descendants_in table root) (
      walk-Closed (suc (length table)) table root [] (descendants_in table root) (root ∷ [])
        (λ p r a c. ground arith) (walk_ends table root)),
)
