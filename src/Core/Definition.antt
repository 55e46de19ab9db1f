-- ===== src/Core/Definition.antt =====
-- core/definition.rs: the cores, their names and arguments, and the events of an instance.
use nyanpasu_utils.Prelude.{Bytes, List, [], ◌∷◌, ◌++◌, codes}
use nyanpasu_utils.Process.{TerminatedPayload}
use mathlib.Core.List.{map}

-- `ClashCoreType`
pub data ClashCoreType : Type 0 where
  mihomo mihomo_alpha clash_rust clash_rust_alpha clash_premium meow : ClashCoreType

-- `CoreType`
pub data CoreType : Type 0 where
  clash : ClashCoreType → CoreType
  sing_box : CoreType

-- `AsRef<str>` of `ClashCoreType`, which `Display` writes.
unfoldable pub clash_as_ref : ClashCoreType → Bytes
clash_as_ref mihomo = codes "mihomo"
clash_as_ref mihomo_alpha = codes "mihomo-alpha"
clash_as_ref clash_rust = codes "clash-rs"
clash_as_ref clash_rust_alpha = codes "clash-rs-alpha"
clash_as_ref clash_premium = codes "clash"
clash_as_ref meow = codes "meow"

-- `AsRef<str>` of `CoreType`
unfoldable pub core_as_ref : CoreType → Bytes
unfolding clash_as_ref
core_as_ref (clash c) = clash_as_ref c
core_as_ref sing_box = codes "singbox"

-- `get_run_args`
unfoldable pub get_run_args : ClashCoreType → Bytes → Bytes → List Bytes
get_run_args clash_rust app_dir config_path = codes "-d" ∷ app_dir ∷ codes "-c" ∷ config_path ∷ []
get_run_args clash_rust_alpha app_dir config_path =
    codes "-d" ∷ app_dir ∷ codes "-c" ∷ config_path ∷ []
get_run_args clash_premium app_dir config_path =
    codes "-d" ∷ app_dir ∷ codes "-f" ∷ config_path ∷ []
get_run_args _ app_dir config_path =
    codes "-m" ∷ codes "-d" ∷ app_dir ∷ codes "-f" ∷ config_path ∷ []

-- `get_executable_name`; `std::env::consts::EXE_SUFFIX` is an argument.
unfoldable pub get_executable_name : Bytes → CoreType → Bytes
get_executable_name exe_suffix (clash mihomo) = codes "mihomo" ++ exe_suffix
get_executable_name exe_suffix (clash mihomo_alpha) = codes "mihomo-alpha" ++ exe_suffix
get_executable_name exe_suffix (clash clash_rust) = codes "clash-rs" ++ exe_suffix
get_executable_name exe_suffix (clash clash_rust_alpha) = codes "clash-rs-alpha" ++ exe_suffix
get_executable_name exe_suffix (clash clash_premium) = codes "clash" ++ exe_suffix
get_executable_name exe_suffix (clash meow) = codes "meow" ++ exe_suffix
get_executable_name exe_suffix sing_box = codes "singbox" ++ exe_suffix

-- `get_supported_cores`
abbrev pub get_supported_cores : List CoreType
get_supported_cores =
    clash mihomo
    ∷ clash mihomo_alpha
    ∷ clash clash_rust
    ∷ clash clash_rust_alpha
    ∷ clash clash_premium
    ∷ clash meow
    ∷ []

-- `get_supported_cores_executables`
unfoldable pub get_supported_cores_executables : Bytes → List Bytes
unfolding get_executable_name
get_supported_cores_executables exe_suffix =
    map (get_executable_name exe_suffix) get_supported_cores

-- `CommandEvent`; the payload has the fields of the one in process/event.rs.
pub data CommandEvent : Type 0 where
  stdout stderr error : Bytes → CommandEvent
  terminated : TerminatedPayload → CommandEvent
  delay_checkpoint_pass : CommandEvent
