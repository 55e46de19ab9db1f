-- ===== src/Core/Builder.antt =====
-- `CoreInstanceBuilder` of core/instance.rs: what is validated before an instance is built.
use nyanpasu_utils.Prelude.{◌≡◌, refl, Bool, true, false, not, ◌&&◌, Option, none, some, Bytes}
use nyanpasu_utils.Io.{Result, ok, err, ◌>>◌}
use nyanpasu_utils.System.World.{Files}
use nyanpasu_utils.System.Files.{path_exists, is_dir, is_file, no_dir_missing, no_file_missing}
use nyanpasu_utils.Core.Definition.{CoreType}

-- The fields of `CoreInstance` that the builder sets, each one or none.
pub record CoreInstanceBuilder : Type 0 where
  pub core_type : Option CoreType
  pub binary_path : Option Bytes
  pub app_dir : Option Bytes
  pub config_path : Option Bytes
  pub pid_path : Option Bytes

pub data Field : Type 0 where
  binary_path app_dir config_path pid_path core_type : Field

-- The messages of `validate`.
pub data ValidateError : Type 0 where
  does_not_exist : Field → ValidateError
  is_required : Field → ValidateError

abbrev refuse_if : Bool → ValidateError → Result ValidateError (Unit {0})
refuse_if true e = err e
refuse_if false e = ok tt

-- One `match` of `validate`: a path that is given is refused by a test.
abbrev pub validate_path : Field → Option Bytes → (Bytes → Bool) → Result ValidateError (Unit {0})
validate_path f none wrong = err (is_required f)
validate_path f (some path) wrong = refuse_if (wrong path) (does_not_exist f)

abbrev pub require {ℓ} : {A : Type ℓ} → Field → Option A → Result ValidateError (Unit {0})
require f none = err (is_required f)
require f (some a) = ok tt

-- `validate`
unfoldable pub validate : Files → CoreInstanceBuilder → Result ValidateError (Unit {0})
unfolding path_exists is_dir is_file
validate fs b =
    validate_path Field.binary_path b.binary_path
      (λ path. not (path_exists fs path) && is_dir fs path)
    >> (validate_path Field.app_dir b.app_dir (λ path. not (path_exists fs path) && is_dir fs path)
        >> (validate_path Field.config_path b.config_path
              (λ path. not (path_exists fs path) && is_file fs path)
            >> (require Field.pid_path b.pid_path >> require Field.core_type b.core_type)))

-- The first field that is not set, in the order of the checks, whatever the paths name.
pub first_missing : CoreInstanceBuilder → Result ValidateError (Unit {0})
first_missing b =
    require Field.binary_path b.binary_path
    >> (require Field.app_dir b.app_dir
        >> (require Field.config_path b.config_path
            >> (require Field.pid_path b.pid_path >> require Field.core_type b.core_type)))

validate_path-require :
    (f : Field) (path : Option Bytes) (wrong : Bytes → Bool)
    → ((p : Bytes) → wrong p ≡ false)
    → validate_path f path wrong ≡ require f path
validate_path-require f none wrong h = refl
validate_path-require f (some p) wrong h = rw (h p) refl

-- On every file system the validation refuses a builder exactly for its first field that is not
-- set, and never for a path that does not exist.
pub validate-ignores_files :
    (fs : Files) (b : CoreInstanceBuilder) → validate fs b ≡ first_missing b
unfolding validate first_missing
validate-ignores_files fs b =
    rw
      (
        validate_path-require Field.binary_path b.binary_path _ (no_dir_missing fs),
        validate_path-require Field.app_dir b.app_dir _ (no_dir_missing fs),
        validate_path-require Field.config_path b.config_path _ (no_file_missing fs),
      )
      refl
