-- ===== src/PidFile/Format.antt =====
-- The text of a pid file: `serialize_epoch_record` and `parse_epoch_record`.
pub mod RoundTrip
pub mod Legacy
use nyanpasu_utils.Prelude.{
  ℕ, ◌+◌, ◌^◌, ◌≡◌, refl, Bool, true, false, not, ◌&&◌, Option, none, some, List, [], ◌∷◌, ◌++◌,
  Bytes, codes, length, ◌==◌, if◌then◌else◌,
}
use nyanpasu_utils.Io.{Io, ok, err, ◌>>=◌, ◌>>◌, io_error, ErrorKind}
use nyanpasu_utils.Text.Decimal.{decimal, parse_uint}
use nyanpasu_utils.Text.Lines.{lines, unlines, split_once}
use nyanpasu_utils.Text.Utf8.{is_utf8}
use nyanpasu_utils.Collections.Key.{bytes_key}
use nyanpasu_utils.Collections.BTreeMap.{get, insert}
use nyanpasu_utils.PidFile.Record.{EpochPidRecord}
use nyanpasu_utils.PidFile.Hex.{hex_encode, hex_decode}

abbrev pub epoch_pid_version : ℕ
epoch_pid_version = 2

-- `invalid_input`, `invalid_data`, `identity_error`
abbrev pub invalid_input : {A : Type 0} → Io A
invalid_input = err (io_error ErrorKind.invalid_input)

abbrev pub invalid_data : {A : Type 0} → Io A
invalid_data = err (io_error ErrorKind.invalid_data)

abbrev pub identity_error : {A : Type 0} → Io A
identity_error = err (io_error ErrorKind.permission_denied)

-- `BTreeMap<&str, &str>`
abbrev pub Fields : Type 0
Fields = List (Bytes × Bytes)

-- The six lines of `format!`.
unfoldable pub record_lines : EpochPidRecord → List Bytes
record_lines r =
    (codes "version=" ++ decimal epoch_pid_version)
    ∷ (codes "pid=" ++ decimal r.pid)
    ∷ (codes "epoch=" ++ decimal r.epoch)
    ∷ (codes "executable=" ++ hex_encode r.executable)
    ∷ (codes "start-token=" ++ decimal r.start_token)
    ∷ (codes "runtime-config=" ++ hex_encode r.runtime_config)
    ∷ []

-- `serialize_epoch_record`: `to_str` refuses a path that is not UTF-8.
unfoldable pub serialize_epoch_record : EpochPidRecord → Io Bytes
unfolding record_lines
serialize_epoch_record r =
    if is_utf8 r.runtime_config then ok (unlines (record_lines r)) else invalid_input

-- The loop over the lines: each has a `=`, and no key comes twice.
unfoldable pub parse_lines : List Bytes → Fields → Io Fields
parse_lines [] fields = ok fields
parse_lines (line ∷ rest) fields = elim (split_once b'=' line) [
  | none ↦ invalid_data
  | some (key, value) ↦ elim (get key fields) [
    | some _ ↦ invalid_data
    | none ↦ parse_lines rest (insert key value fields)
  ]
]

abbrev pub expected : List Bytes
expected =
    codes "epoch"
    ∷ codes "executable"
    ∷ codes "pid"
    ∷ codes "runtime-config"
    ∷ codes "start-token"
    ∷ codes "version"
    ∷ []

abbrev pub contains_key : Fields → Bytes → Bool
contains_key fields key = elim (get key fields) [ none ↦ false | some _ ↦ true ]

abbrev pub contains_all : Fields → List Bytes → Bool
contains_all fields [] = true
contains_all fields (key ∷ keys) = contains_key fields key && contains_all fields keys

-- `required`
unfoldable pub required : Fields → Bytes → Io Bytes
required fields key = elim (get key fields) [ none ↦ invalid_data | some v ↦ ok v ]

-- `parse_field::<T>`, where the values of `T` are below `bound`
unfoldable pub parse_field : ℕ → Fields → Bytes → Io ℕ
unfolding required
parse_field bound fields key = do
  value ← required fields key
  elim (parse_uint bound value) [ none ↦ invalid_data | some n ↦ ok n ]

-- `String::from_utf8(hex_decode(required(fields, key)?)?)`
unfoldable pub text_field : Fields → Bytes → Io Bytes
unfolding required
text_field fields key = do
  value ← required fields key
  bytes ← hex_decode value
  if is_utf8 bytes then ok bytes else invalid_data

-- The fields of the record, once the version is known.
unfoldable pub read_record : Fields → Io EpochPidRecord
unfolding parse_field text_field
read_record fields = do
  executable ← text_field fields (codes "executable")
  runtime_config ← text_field fields (codes "runtime-config")
  pid ← parse_field (2 ^ 32) fields (codes "pid")
  epoch ← parse_field (2 ^ 64) fields (codes "epoch")
  start_token ← parse_field (2 ^ 64) fields (codes "start-token")
  ok (record {
    pid = pid;
    epoch = epoch;
    executable = executable;
    start_token = start_token;
    runtime_config = runtime_config;
  })

-- What follows the loop: exactly the expected keys, and the version.
unfoldable pub read_fields : Fields → Io EpochPidRecord
unfolding read_record
read_fields fields =
    if not (length fields == length expected && contains_all fields expected)
    then invalid_data
    else do
      version ← parse_field (2 ^ 32) fields (codes "version")
      if not (version == epoch_pid_version) then invalid_data else read_record fields

-- `parse_epoch_record`
unfoldable pub parse_epoch_record : Bytes → Io EpochPidRecord
unfolding parse_lines read_fields
parse_epoch_record raw = do fields ← parse_lines (lines raw) []; read_fields fields
