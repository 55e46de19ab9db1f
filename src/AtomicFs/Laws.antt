-- ===== src/AtomicFs/Laws.antt =====
-- The file operations of atomic_fs.rs: move, replace, remove and lock.
use nyanpasu_utils.Prelude.{
  Bool-cases, ap, ◌∙◌, [], ℕ, ◌+◌, ◌≡◌, refl, ◌≢◌, ◌⊎◌, inl, inr, true, false, Option, none, some,
  Bytes, bytes_eq, bytes_eq_iff, bytes_eq_refl, arith, if◌then◌else◌,
}
use nyanpasu_utils.Io.{Result, ok, err}
use nyanpasu_utils.System.World.{World, Node, file, dir, symlink, special}
use nyanpasu_utils.System.Files.{
  symlink_metadata, remove_file, hard_link, open_or_create, flock, unlock, resolve,
}
use nyanpasu_utils.AtomicFs.{
  AtomicFsError, unsafe_path, contended, acquire_dir_lock, drop_dir_lock, remove_regular_file,
  atomic_move_new,
}

-- Whatever fails on the way of a move from another name, a node that stands under the target's name
-- stays there.
pub move_new-keeps_target :
    (source target : Bytes) (w : World) (n : Node)
    → source ≢ target
    → w.files target ≡ some n
    → (atomic_move_new source target w).1.files target ≡ some n
unfolding atomic_move_new hard_link remove_file
move_new-keeps_target source target w n ne h = ground (arith, bytes_eq_iff source target, ne)

-- A move to another name that succeeds puts the source's node under a name that was free, frees the
-- old name, and leaves all other names.
pub move_new_lem :
    (source target q : Bytes) (w : World)
    → source ≢ target
    → (atomic_move_new source target w).0 ≡ ok tt
    → (w.files target ≡ none)
      × ((atomic_move_new source target w).1.files q ≡ (
          if bytes_eq source q
          then none
          else if bytes_eq target q
          then w.files source
          else w.files q))
unfolding atomic_move_new hard_link remove_file
move_new_lem source target q w ne h = ground (
  arith,
  bytes_eq_iff source target,
  bytes_eq_iff target source,
  bytes_eq_iff source q,
  bytes_eq_iff target q,
  bytes_eq_refl source,
  ne,
)

-- Only a regular file is ever removed; whatever stands under another name stays, and what is no
-- regular file is reported or left.
pub remove_regular-keeps :
    (p q : Bytes) (w : World)
    → ((remove_regular_file p w).1.files q ≡ w.files q)
      ⊎ ((p ≡ q) × (s : Bytes) × (w.files q ≡ some (file s)))
unfolding remove_regular_file symlink_metadata remove_file
remove_regular-keeps p q w = ground (arith, bytes_eq_iff p q)

-- What a removal returns and leaves under the name, by what stood there.
abbrev pub Removed : Bytes → Option Node → Result AtomicFsError (Unit {0}) → Option Node → Type 0
Removed p none result after = (result ≡ ok tt) × (after ≡ none)
Removed p (some (file s)) result after = (result ≡ ok tt) × (after ≡ none)
Removed p (some n) result after = (result ≡ err (unsafe_path p)) × (after ≡ some n)

-- With no fault in the way, a removal frees the name of a regular file, succeeds where nothing stands,
-- and refuses everything else.
pub remove_regular_lem :
    (p : Bytes) (w : World)
    → w.faults w.clock ≡ none
    → w.faults (w.clock + 1) ≡ none
    → Removed p (w.files p) (remove_regular_file p w).0 ((remove_regular_file p w).1.files p)
unfolding remove_regular_file symlink_metadata remove_file
remove_regular_lem p w h k = go (w.files p) refl
  where
    go :
        (o : Option Node)
        → w.files p ≡ o
        → Removed p o (remove_regular_file p w).0 ((remove_regular_file p w).1.files p)
    go none e = ground (arith, bytes_eq_refl p)
    go (some (file s)) e = ground (arith, bytes_eq_refl p)
    go (some dir) e = ground (arith, bytes_eq_refl p)
    go (some (symlink t)) e = ground (arith, bytes_eq_refl p)
    go (some special) e = ground (arith, bytes_eq_refl p)

-- What an acquisition leaves: a regular file whose lock is held.
record Taken (p f : Bytes) (w v : World) : Type 0 where
  own : f ≡ p
  text : Bytes
  there : v.files p ≡ some (file text)
  held : v.locks p ≡ true
  same_faults : v.faults ≡ w.faults

module _ (p : Bytes) (w : World) (k0 : w.faults w.clock ≡ none) (k1 : w.faults (w.clock + 1) ≡ none)
    (k2 : w.faults (w.clock + 1 + 1) ≡ none) where
  locked_refused : (f : Bytes) → w.locks p ≡ true → (acquire_dir_lock p w).0 ≢ ok f
  unfolding acquire_dir_lock symlink_metadata open_or_create flock resolve
  locked_refused f l h = ground arith

  acquired_file :
      (o : Option Node)
      → w.files p ≡ o
      → w.locks p ≡ false
      → (f : Bytes) → (acquire_dir_lock p w).0 ≡ ok f
      → Taken p f w (acquire_dir_lock p w).1
  unfolding acquire_dir_lock symlink_metadata open_or_create flock resolve
  acquired_file none e l f h = record {
    own = ground arith;
    text = [];
    there = ground (arith, bytes_eq_refl p);
    held = ground (arith, bytes_eq_refl p);
    same_faults = ground arith;
  }
  acquired_file (some (file s)) e l f h = record {
    own = ground arith;
    text = s;
    there = ground (arith, bytes_eq_refl p);
    held = ground (arith, bytes_eq_refl p);
    same_faults = ground arith;
  }
  acquired_file (some dir) e l f h = absurd (ground arith)
  acquired_file (some (symlink t)) e l f h = absurd (ground arith)
  acquired_file (some special) e l f h = absurd (ground arith)

acquired :
    (p f : Bytes) (w : World)
    → ((n : ℕ) → w.faults n ≡ none)
    → (acquire_dir_lock p w).0 ≡ ok f
    → Taken p f w (acquire_dir_lock p w).1
acquired p f w k h = elim (Bool-cases (w.locks p)) [
  | inl l ↦ absurd (locked_refused p w (k w.clock) (k (w.clock + 1)) (k (w.clock + 1 + 1)) f l h)
  | inr l ↦
      acquired_file p w (k w.clock) (k (w.clock + 1)) (k (w.clock + 1 + 1)) (w.files p) refl l f h
]

-- An attempt on a regular file, by whether its lock is held.
attempted :
    (p s : Bytes) (w : World)
    → ((n : ℕ) → w.faults n ≡ none)
    → w.files p ≡ some (file s)
    → (acquire_dir_lock p w).0 ≡ (if w.locks p then err (contended p) else ok p)
unfolding acquire_dir_lock symlink_metadata open_or_create flock resolve
attempted p s w k h = ground (arith, k w.clock, k (w.clock + 1), k (w.clock + 2))

-- While a lock is held, an attempt to take it reports contention, when no call on the way fails.
pub lock_excludes :
    (p f : Bytes) (w : World)
    → ((n : ℕ) → w.faults n ≡ none)
    → (acquire_dir_lock p w).0 ≡ ok f
    → (acquire_dir_lock p (acquire_dir_lock p w).1).0 ≡ err (contended p)
lock_excludes p f w k h =
    let t = acquired p f w k h in
    attempted p t.text (acquire_dir_lock p w).1 (λ n. ap (λ fs. fs n) t.same_faults ∙ k n) t.there
    ∙ rw t.held

-- A lock that was taken and dropped can be taken again, when no call on the way fails.
pub lock_released :
    (p f : Bytes) (w : World)
    → ((n : ℕ) → w.faults n ≡ none)
    → (acquire_dir_lock p w).0 ≡ ok f
    → (acquire_dir_lock p (drop_dir_lock f (acquire_dir_lock p w).1)).0 ≡ ok f
unfolding drop_dir_lock unlock
lock_released p f w k h =
    let t = acquired p f w k h in
    attempted p t.text (drop_dir_lock f (acquire_dir_lock p w).1)
      (λ n. ap (λ fs. fs n) t.same_faults ∙ k n) t.there
    ∙ ground (arith, t.own, bytes_eq_refl p)
