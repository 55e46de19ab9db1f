-- ===== src/Os/Elevated.antt =====
-- `is_elevated` of os/elevated.rs on Unix but macOS.
use nyanpasu_utils.Prelude.{
  ℕ, Bool, false, ◌||◌, Option, some, List, [], ◌∷◌, Bytes, bytes_eq, codes, ◌==◌,
}
use nyanpasu_utils.Io.{Io, ok, err}

-- What the nix crate answers: the user, its groups, and the name of a group.
pub record User : Type 0 where
  pub uid : ℕ
  pub groups : Io (List ℕ)
  pub group_name : ℕ → Io (Option Bytes)

-- `ROOT_GROUPS.contains(&name)`
abbrev pub is_root_group : Bytes → Bool
is_root_group name = bytes_eq (codes "root") name || bytes_eq (codes "admin") name

abbrev pub is_root_name : Io (Option Bytes) → Bool
is_root_name (ok (some name)) = is_root_group name
is_root_name _ = false

abbrev pub any_root : User → List ℕ → Bool
any_root u [] = false
any_root u (g ∷ groups) = let rest = any_root u groups in is_root_name (u.group_name g) || rest

abbrev pub groups_root : User → Io (List ℕ) → Bool
groups_root u (ok groups) = any_root u groups
groups_root u (err e) = false

-- `is_elevated`
unfoldable pub is_elevated : User → Bool
unfolding bytes_eq
is_elevated u = u.uid == 0 || groups_root u u.groups
