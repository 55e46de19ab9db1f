-- ===== src/Dirs.antt =====
-- dirs.rs on Linux. What the dirs crate answers is an argument.
use mathlib.Core.Option
use nyanpasu_utils.Prelude.{
  ◌≡◌, refl, Bool, false, Option, some, [], ◌∷◌, Bytes, codes, ◌==◌, if◌then◌else◌,
}
use nyanpasu_utils.Text.FilePath.{join_path, slash}

abbrev is_absolute : Bytes → Bool
is_absolute [] = false
is_absolute (c ∷ s) = c == slash

-- `dir.join(path)`, where an absolute path replaces the directory.
unfoldable pub join_any : Bytes → Bytes → Bytes
unfolding join_path
join_any dir path = if is_absolute path then path else join_path dir path

-- The two directories that the dirs crate finds.
pub record UserDirs : Type 0 where
  pub config_dir : Option Bytes
  pub data_local_dir : Option Bytes

-- `suggest_config_dir`
unfoldable pub suggest_config_dir : UserDirs → Bytes → Option Bytes
unfolding join_any
suggest_config_dir dirs placeholder = Option.map (λ path. join_any path placeholder) dirs.config_dir

-- `suggest_data_dir`
unfoldable pub suggest_data_dir : UserDirs → Bytes → Option Bytes
unfolding join_any
suggest_data_dir dirs placeholder =
    Option.map (λ path. join_any path placeholder) dirs.data_local_dir

-- `suggest_service_config_dir`
unfoldable pub suggest_service_config_dir : Bytes → Option Bytes
unfolding join_any
suggest_service_config_dir placeholder = some (join_any (codes "/etc") placeholder)

-- `suggest_service_data_dir`
unfoldable pub suggest_service_data_dir : Bytes → Bytes
unfolding join_any
suggest_service_data_dir placeholder = join_any (codes "/var/lib") placeholder

service_dirs_run : suggest_service_data_dir (codes "nyanpasu") ≡ codes "/var/lib/nyanpasu"
unfolding suggest_service_data_dir
service_dirs_run = refl
