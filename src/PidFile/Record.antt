-- ===== src/PidFile/Record.antt =====
-- The data of src/process/pid_file.rs. A path or a text is its bytes.
use Prim.Native.Nat.{◌^◌}
use nyanpasu_utils.Prelude.{
  ℕ, ◌<◌, ◌≡◌, Bool, true, ◌&&◌, arith, ◌==◌, All, Bytes, IsByte, bytes_eq, bytes_eq_iff,
}
use nyanpasu_utils.Text.Utf8.{is_utf8}
use nyanpasu_utils.Text.FilePath.{components, path_eq}
use nyanpasu_utils.Text.FilePath.Laws.{path_eq_iff}

-- `EpochPidFile`: one manager-owned record of an epoch.
pub record EpochPidFile : Type 0 where
  pub path : Bytes
  pub epoch : ℕ  -- u64
  pub runtime_config : Bytes

-- `EpochPidRecord`: the contents of a pid file.
pub record EpochPidRecord : Type 0 where
  pub pid : ℕ  -- u32
  pub epoch : ℕ  -- u64
  pub executable : Bytes  -- String
  pub start_token : ℕ  -- u64
  pub runtime_config : Bytes  -- PathBuf

pub data OrphanReapOutcome : Type 0 where
  not_found already_exited killed : OrphanReapOutcome

pub record ProcessIdentity : Type 0 where
  pub executable : Bytes
  pub start_token : ℕ

-- A Rust `String`.
abbrev pub IsText : Bytes → Type 0
IsText s = All IsByte s × (is_utf8 s ≡ true)

-- What the types of the fields say of a record whose runtime path is UTF-8.
pub record IsRecord (r : EpochPidRecord) : Type 0 where
  pub pid_fits : r.pid < 2 ^ 32
  pub epoch_fits : r.epoch < 2 ^ 64
  pub executable_text : IsText r.executable
  pub token_fits : r.start_token < 2 ^ 64
  pub config_text : IsText r.runtime_config

-- `exe_names_equal` of a system with case-sensitive names.
unfoldable pub exe_names_equal : Bytes → Bytes → Bool
exe_names_equal left right = bytes_eq left right

-- `record_matches_identity`
unfoldable pub record_matches_identity : EpochPidRecord → ProcessIdentity → Bool
unfolding exe_names_equal
record_matches_identity r i =
    r.start_token == i.start_token && exe_names_equal r.executable i.executable

-- `left == right` on records (the derived `PartialEq`): paths are compared by their components.
unfoldable pub record_eq : EpochPidRecord → EpochPidRecord → Bool
record_eq a b =
    a.pid == b.pid
    && (a.epoch == b.epoch
        && (bytes_eq a.executable b.executable
            && (a.start_token == b.start_token && path_eq a.runtime_config b.runtime_config)))

-- Two records are the same to the code.
pub record SameRecord (a b : EpochPidRecord) : Type 0 where
  pub pid : a.pid ≡ b.pid
  pub epoch : a.epoch ≡ b.epoch
  pub executable : a.executable ≡ b.executable
  pub start_token : a.start_token ≡ b.start_token
  pub runtime_config : components a.runtime_config ≡ components b.runtime_config

pub record_eq_sound : (a b : EpochPidRecord) → record_eq a b ≡ true → SameRecord a b
unfolding record_eq
record_eq_sound a b h =
    ground
      (arith, bytes_eq_iff a.executable b.executable, path_eq_iff a.runtime_config b.runtime_config)

pub record_eq_complete : (a b : EpochPidRecord) → SameRecord a b → record_eq a b ≡ true
unfolding record_eq
record_eq_complete a b h =
    ground
      (arith, bytes_eq_iff a.executable b.executable, path_eq_iff a.runtime_config b.runtime_config)
