-- ===== src/Os/Validated.antt =====
-- os/mod.rs: which processes are killed, and what becomes of the pid file.
use nyanpasu_utils.Prelude.{
  ℕ, ◌≡◌, refl, ◌∙◌, ◌⊎◌, inl, inr, true, false, ◌||◌, Option, none, some, List, [], ◌∷◌, ◌++◌,
  Bytes, Bool-cases, Option-cases,
}
use nyanpasu_utils.Io.{Io, ok, err}
use nyanpasu_utils.Text.Search.{contains, find}
use nyanpasu_utils.Text.Search.Laws.{find_before}
use nyanpasu_utils.Text.Utf8.{from_utf8_lossy_valid, is_utf8}
use nyanpasu_utils.System.World.{World}
use nyanpasu_utils.PidFile.Guard.{get_pid_from_file}
use nyanpasu_utils.Os.{
  ProcessTable, pid_exists, kill_pid, remove_killed, kill_read, kill_by_pid_file, any_name,
}

-- A process whose tree is killed.
pub record Validated (t : ProcessTable) (names : List Bytes) (pid : ℕ) : Type 0 where
  pub exe : Option Bytes
  pub found : t.process pid ≡ some exe
  pub matches : any_name t exe names ≡ true

exists_Validated :
    (t : ProcessTable) (names : List Bytes) (pid : ℕ)
    → pid_exists t pid (some names) ≡ true
    → Validated t names pid
unfolding pid_exists
exists_Validated t names pid h = elim (Option-cases (t.process pid)) [
  | inl e ↦ cc
  | inr (exe, e) ↦ record { exe = exe; found = e; matches = rw (e, pid_exists) at h }
]

-- The processes to kill: none, or the one of a number.
abbrev Kills : ProcessTable → List Bytes → ℕ → List ℕ → Type 0
Kills t names pid killed = (killed ≡ []) ⊎ ((killed ≡ pid ∷ []) × Validated t names pid)

kill_pid-Kills :
    (t : ProcessTable) (names : List Bytes) (pid : ℕ)
    → Kills t names pid (kill_pid t pid (some names)).1
unfolding kill_pid
kill_pid-Kills t names pid = elim (Bool-cases (pid_exists t pid (some names))) [
  | inl e ↦ inr (rw (e, kill_pid) refl, exists_Validated t names pid e)
  | inr e ↦ inl (rw (e, kill_pid) refl)
]

pub remove_killed-killed :
    (path : Bytes) (k : Io (Unit {0}) × List ℕ) (w : World) → (remove_killed path k w).killed ≡ k.1
remove_killed-killed path (ok _, killed) w = refl
remove_killed-killed path (err e, killed) w = refl

-- With names to validate by, whatever the pid file holds, at most one process tree is killed: that
-- of the number in the file, and only after a look has found a process of that number whose
-- executable's path, in lower case, contains one of the names.
pub kill_by_pid_file_lem :
    (t : ProcessTable) (path : Bytes) (names : List Bytes) (w : World)
    → ((kill_by_pid_file t path (some names) w).killed ≡ [])
      ⊎ ((pid : ℕ) × ((get_pid_from_file path w).0 ≡ some pid)
          × ((kill_by_pid_file t path (some names) w).killed ≡ pid ∷ [])
          × Validated t names pid)
unfolding kill_by_pid_file
kill_by_pid_file_lem t path names w =
    read_lem (get_pid_from_file path w).0 (get_pid_from_file path w).1
  where
    read_lem :
        (o : Option ℕ) (v : World)
        → ((kill_read t path (some names) (o, v)).killed ≡ [])
          ⊎ ((pid : ℕ) × (o ≡ some pid)
              × ((kill_read t path (some names) (o, v)).killed ≡ pid ∷ [])
              × Validated t names pid)
    read_lem none v = inl refl
    read_lem (some pid) v =
        let shown = remove_killed-killed path (kill_pid t pid (some names)) v in
        elim (kill_pid-Kills t names pid) [
          | inl e ↦ inl (shown ∙ e)
          | inr (e, valid) ↦ inr (pid, refl, shown ∙ e, valid)
        ]

-- A name anywhere in the path of the executable is enough: a process is taken for a core when a
-- directory of its path contains the core's name, whatever the executable is.
pub any_part_matches :
    (t : ProcessTable) (pid c : ℕ) (name pre post : Bytes)
    → t.process pid ≡ some (some (pre ++ (c ∷ name ++ post)))
    → is_utf8 (pre ++ (c ∷ name ++ post)) ≡ true
    → t.lowercase (pre ++ (c ∷ name ++ post)) ≡ pre ++ (c ∷ name ++ post)
    → pid_exists t pid (some ((c ∷ name) ∷ [])) ≡ true
unfolding pid_exists
any_part_matches t pid c name pre post found utf8 lower =
    let (i, e, le) = find_before c name pre post in
    rw (found, pid_exists)
      (rw (from_utf8_lossy_valid (pre ++ (c ∷ name ++ post)) utf8, lower) (contains_found i e))
  where
    contains_found :
        (i : ℕ)
        → find (c ∷ name) (pre ++ (c ∷ name ++ post)) ≡ some i
        → (contains (c ∷ name) (pre ++ (c ∷ name ++ post)) || false) ≡ true
    contains_found i e = unfold contains in rw (e, contains) refl
