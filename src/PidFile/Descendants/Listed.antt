-- ===== src/PidFile/Descendants/Listed.antt =====
-- The walk over the process table in process/pid_file.rs: every entry of its set.
use mathlib.Core.Path.{subst}
use mathlib.Core.Option.{some-injective, none-ne-some}
use nyanpasu_utils.Prelude.{
  ℕ, zero, suc, ◌≡◌, true, some, List, [], ◌∷◌, length, ==_refl, arith, All, inl, inr, Bool, false,
  if◌then◌else◌, refl,
}
use nyanpasu_utils.Collections.Key.{nat_key}
use nyanpasu_utils.Collections.BTreeMap
use nyanpasu_utils.Collections.BTreeMap.{All-insert}
use nyanpasu_utils.PidFile.Descendants.{
  Process, children_of, Pids, member, visit_children, walk, descendants_in,
}
use nyanpasu_utils.PidFile.Descendants.Fuel.{walk_ends}
use nyanpasu_utils.PidFile.Descendants.Reachable.{Descendant, among, IsOrigin, below}

module _ (table : List Process) (root : ℕ) where
  -- The entries of a set of pids are descendants of the root.
  abbrev pub Listed : Pids → Type 0
  Listed d = All (λ (e : ℕ × Unit {0}). Descendant table root e.0) d

  abbrev AllOrigins : List ℕ → Type 0
  AllOrigins pending = All (IsOrigin table root) pending

  visit-Listed :
      (direct : List ℕ) (d : Pids) (pending : List ℕ)
      → ((q : ℕ) → among q direct ≡ true → Descendant table root q)
      → Listed d
      → AllOrigins pending
      → Listed (visit_children direct d pending).0 × AllOrigins (visit_children direct d pending).1
  unfolding visit_children among
  visit-Listed [] d pending f h o = (h, o)
  visit-Listed (pid ∷ direct) d pending f h o =
      let here = f pid (ground (arith, ==_refl pid)) in
      visit-Listed direct (BTreeMap.insert pid tt d)
        (if member pid d then pending else pid ∷ pending) (λ q w. f q (ground arith))
        (All-insert (λ (e : ℕ × Unit {0}). Descendant table root e.0) pid tt d here h)
        (either (member pid d) here)
    where
      either :
          (b : Bool) → Descendant table root pid → AllOrigins (if b then pending else pid ∷ pending)
      either true k = o
      either false k = (inr k, o)

  walk-Listed :
      (fuel : ℕ) (d s : Pids) (pending : List ℕ)
      → Listed d
      → AllOrigins pending
      → walk fuel table d pending ≡ some s
      → Listed s
  unfolding walk
  walk-Listed fuel d s [] h o e = subst Listed (some-injective _ _ e) h
  walk-Listed zero d s (parent ∷ pending) h o e = absurd (none-ne-some _ e)
  walk-Listed (suc fuel) d s (parent ∷ pending) h o e =
      let (h', o') =
        visit-Listed (children_of table parent) d pending (λ q. below table root parent q o.0) h
          o.1 in
      walk-Listed fuel _ s _ h' o' e

  -- All that `descendant_pids` finds descend from the root.
  pub descendants_in-Listed : Listed (descendants_in table root)
  descendants_in-Listed =
      walk-Listed (suc (length table)) [] (descendants_in table root) (root ∷ []) tt (inl refl, tt)
        (walk_ends table root)
