-- ===== src/Core/CheckConfig.antt =====
-- The check of a configuration by its core: `check_config`, `check_config_` and
-- `get_mihomo_safe_paths` of core/instance.rs, on platforms but Windows.
use nyanpasu_utils.Prelude.{
  ◌≡◌, ap, ◌∙◌, Bool, true, false, Option, none, some, List, [], ◌∷◌, ◌++◌, Bytes, codes, All,
  if◌then◌else◌,
}
use mathlib.Core.Option
use nyanpasu_utils.Io.{Io, IoError, Result, ok, err}
use nyanpasu_utils.Text.Lines.{lf, split, join}
use nyanpasu_utils.Text.Lines.Laws.{Lacks, split-join}
use nyanpasu_utils.Text.Utf8.{is_utf8, from_utf8_lossy, from_utf8_lossy_valid}
use nyanpasu_utils.Text.FilePath.{parent_text}
use nyanpasu_utils.Core.Definition.{CoreType, clash, clash_rust}
use nyanpasu_utils.Core.CheckOutput.{parse_check_output, quote}
use nyanpasu_utils.Core.CheckOutput.Messages.{error_line, error_line_message}

-- `MIHOMO_SAFE_PATHS_ENV_NAME`
abbrev pub mihomo_safe_paths_env_name : Bytes
mihomo_safe_paths_env_name = codes "SAFE_PATHS"

-- `MIHOMO_SAFE_PATHS_SEPARATOR` is `:`.
abbrev pub paths_after : Option (List Bytes) → List Bytes
paths_after none = []
paths_after (some other_paths) = other_paths

-- `get_mihomo_safe_paths`
unfoldable pub get_mihomo_safe_paths : Bytes → Bytes → Option (List Bytes) → Bytes
unfolding join
get_mihomo_safe_paths app_dir config_dir other_paths =
    join b':' (app_dir ∷ config_dir ∷ paths_after other_paths)

-- The paths come back when the variable is split at its separator, if no path holds one.
pub safe_paths-split :
    (app_dir config_dir : Bytes) (other_paths : Option (List Bytes))
    → All (Lacks b':') (app_dir ∷ config_dir ∷ paths_after other_paths)
    → split b':' (get_mihomo_safe_paths app_dir config_dir other_paths)
      ≡ app_dir ∷ config_dir ∷ paths_after other_paths
unfolding get_mihomo_safe_paths
safe_paths-split app_dir config_dir other_paths h =
    split-join b':' app_dir (config_dir ∷ paths_after other_paths) h

-- `CoreInstanceError`
pub data CoreInstanceError : Type 0 where
  io : IoError → CoreInstanceError
  cfg_failed : Bytes → CoreInstanceError
  state_check_failed : CoreInstanceError

-- The command that is run for a check.
pub record CheckCommand : Type 0 where
  pub program : Bytes
  pub args : List Bytes
  pub env : Bytes × Bytes

-- What a command gives back: whether its status is a success, and what it wrote.
pub record CheckOutput : Type 0 where
  pub success : Bool
  pub stdout : Bytes
  pub stderr : Bytes

unfoldable pub check_command : Bytes → Bytes → Bytes → Bytes → CheckCommand
unfolding get_mihomo_safe_paths
check_command config_path config_dir binary_path app_dir = record {
  program = binary_path;
  args = codes "-t" ∷ codes "-d" ∷ app_dir ∷ codes "-f" ∷ config_path ∷ [];
  env = (mihomo_safe_paths_env_name, get_mihomo_safe_paths app_dir config_dir none);
}

abbrev pub is_clash_rust : CoreType → Bool
is_clash_rust (clash clash_rust) = true
is_clash_rust _ = false

-- The text of a failure; none where `parse_check_output` panics.
unfoldable pub failure_text : CoreType → CheckOutput → Option Bytes
unfolding parse_check_output from_utf8_lossy
failure_text core_type output =
    if is_clash_rust core_type
    then some (from_utf8_lossy output.stdout ++ (lf ∷ from_utf8_lossy output.stderr))
    else parse_check_output (from_utf8_lossy output.stdout)

-- The verdict on the output of the command; none is a panic.
abbrev pub check_verdict : CoreType → Io CheckOutput → Option (Result CoreInstanceError (Unit {0}))
check_verdict core_type (err e) = some (err (io e))
check_verdict core_type (ok output) =
    if output.success
    then some (ok tt)
    else Option.map (λ text. err (cfg_failed text)) (failure_text core_type output)

-- `check_config_`, where `run` runs a command; none is a panic, also for a path without a parent.
unfoldable pub check_config_ :
    CoreType
    → Bytes
    → Bytes
    → Bytes
    → (CheckCommand → Io CheckOutput)
    → Option (Result CoreInstanceError (Unit {0}))
unfolding parent_text check_command failure_text
check_config_ core_type config_path binary_path app_dir run = elim (parent_text config_path) [
  | none ↦ none
  | some config_dir ↦
      check_verdict core_type (run (check_command config_path config_dir binary_path app_dir))
]

abbrev pub or_default : Option Bytes → Bytes → Bytes
or_default none path = path
or_default (some config) path = config

-- A check by a core other than clash-rs that fails with an error in its structured log reports the
-- message of that error and nothing else, when the time stamp has no letter l, no quotation mark
-- stands behind the message, and the log is UTF-8.
pub check_config-reports :
    (core_type : CoreType) (config_path config_dir binary_path app_dir : Bytes)
    (run : CheckCommand → Io CheckOutput) (output : CheckOutput) (stamp msg post : Bytes)
    → is_clash_rust core_type ≡ false
    → parent_text config_path ≡ some config_dir
    → run (check_command config_path config_dir binary_path app_dir) ≡ ok output
    → output.success ≡ false
    → output.stdout ≡ error_line stamp msg post
    → is_utf8 output.stdout ≡ true
    → Lacks b'l' stamp
    → Lacks quote post
    → is_utf8 msg ≡ true
    → check_config_ core_type config_path binary_path app_dir run ≡ some (err (cfg_failed msg))
unfolding check_config_
check_config-reports core_type config_path config_dir binary_path app_dir run output stamp msg post
      other parent_found ran failed wrote utf8 hs hp hm =
    rw (parent_found, check_config_)
      (rw (ran, failed) (ap (Option.map (λ text. err (cfg_failed text))) text))
  where
    text : failure_text core_type output ≡ some msg
    text =
        unfold failure_text in
        rw other (
          ap parse_check_output (from_utf8_lossy_valid output.stdout utf8 ∙ wrote)
          ∙ error_line_message stamp msg post hs hp hm)
