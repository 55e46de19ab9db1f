-- ===== src/PidFile/Names.antt =====
-- The names of the files of an epoch: `epoch_from_file_name` of src/process/pid_file.rs.
use nyanpasu_utils.Prelude.{ℕ, ◌^◌, ◌<◌, ◌≡◌, ◌++◌, Bytes, if◌then◌else◌, arith}
use nyanpasu_utils.Io.{Io, ok, err, ◌>>=◌, ok_or, io_error, ErrorKind}
use nyanpasu_utils.Text.Decimal.{decimal, parse_uint}
use nyanpasu_utils.Text.Decimal.RoundTrip.{parse_uint-decimal}
use nyanpasu_utils.Text.Utf8.{is_utf8}
use nyanpasu_utils.Text.Affix.{strip_prefix, strip_suffix, strip_prefix-append, strip_suffix-append}
use nyanpasu_utils.Text.FilePath.{file_name}

-- The part of a name that follows the checks on the path.
unfoldable pub epoch_of_name : Bytes → Bytes → Bytes → Io ℕ
epoch_of_name pre suf name = do
  middle ← ok_or (strip_prefix pre name) (io_error ErrorKind.invalid_input)
  digits ← ok_or (strip_suffix suf middle) (io_error ErrorKind.invalid_input)
  ok_or (parse_uint (2 ^ 64) digits) (io_error ErrorKind.invalid_input)

-- `epoch_from_file_name`
unfoldable pub epoch_from_file_name : Bytes → Bytes → Bytes → Io ℕ
unfolding epoch_of_name
epoch_from_file_name path pre suf = do
  name ← ok_or (file_name path) (io_error ErrorKind.invalid_input)
  if is_utf8 name then epoch_of_name pre suf name else err (io_error ErrorKind.invalid_input)

-- `format!("core-{epoch}.pid")`, `format!("config-{epoch}.yaml")`
unfoldable pub artifact_name : Bytes → Bytes → ℕ → Bytes
artifact_name pre suf epoch = pre ++ (decimal epoch ++ suf)

-- The name of an epoch's file gives the epoch back.
pub epoch-artifact_name :
    (pre suf : Bytes) (epoch : ℕ)
    → epoch < 2 ^ 64
    → epoch_of_name pre suf (artifact_name pre suf epoch) ≡ ok epoch
unfolding epoch_of_name artifact_name
epoch-artifact_name pre suf epoch h = ground (
  arith,
  strip_prefix-append pre (decimal epoch ++ suf),
  strip_suffix-append (decimal epoch) suf,
  parse_uint-decimal (2 ^ 64) epoch h,
)
