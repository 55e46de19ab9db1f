-- ===== src/PidFile/Identity.antt =====
-- Who a process is, on Linux: `process_identity`, `linux_start_ticks`, `boot_bound_start_token`.
pub mod Laws
use Prim.Native.Nat.{bit_xor}
use nyanpasu_utils.Prelude.{
  ℕ, zero, suc, ◌+◌, ◌*◌, ◌/◌, ◌%◌, ◌^◌, ◌≡◌, refl, Bool, true, false, not, Option, none, some,
  List, [], ◌∷◌, ◌++◌, Bytes, codes, get_elem?, ◌==◌, if◌then◌else◌,
}
use nyanpasu_utils.Io.{
  Io, IoError, Result, ok, err, ◌>>=◌, ok_or, ErrorKind, io_error, is_not_found,
}
use nyanpasu_utils.Text.Decimal.{parse_uint}
use nyanpasu_utils.Text.Words.{split_whitespace, trim, after_last}
use nyanpasu_utils.Text.FilePath.{file_name}
use nyanpasu_utils.Text.Utf8.{is_utf8}
use nyanpasu_utils.System.World.{World, ProcReads}
use nyanpasu_utils.System.Act.{Sys, tick}
use nyanpasu_utils.PidFile.Record.{ProcessIdentity}
use nyanpasu_utils.PidFile.Format.{invalid_data}

-- The start time in a `/proc/{pid}/stat`: the twentieth word behind the last parenthesis.
unfoldable pub ticks_of_stat : Bytes → Io ℕ
ticks_of_stat stat = do
  rest ← ok_or (after_last b')' stat) (io_error ErrorKind.invalid_data)
  word ← ok_or (get_elem? (split_whitespace rest) 19) (io_error ErrorKind.invalid_data)
  ok_or (parse_uint (2 ^ 64) word) (io_error ErrorKind.invalid_data)

abbrev pub found_ticks : Io ℕ → Io (Option ℕ)
found_ticks (ok t) = ok (some t)
found_ticks (err e) = err e

-- `linux_start_ticks`, of what reading the file returned
unfoldable pub linux_start_ticks : Io Bytes → Io (Option ℕ)
linux_start_ticks (ok stat) = found_ticks (ticks_of_stat stat)
linux_start_ticks (err e) = if is_not_found e.kind then ok none else err e

-- `ticks.to_le_bytes()`, the lowest byte first.
abbrev le_bytes : ℕ → ℕ → Bytes
le_bytes zero n = []
le_bytes (suc k) n = n % 256 ∷ le_bytes k (n / 256)

abbrev fnv : ℕ → Bytes → ℕ
fnv hash [] = hash
fnv hash (byte ∷ bytes) = fnv (bit_xor hash byte * 0x100000001b3 % 2 ^ 64) bytes

-- `boot_bound_start_token`: FNV-1a over the boot id and the ticks, in u64.
unfoldable pub boot_bound_start_token : Bytes → ℕ → ℕ
boot_bound_start_token boot_id ticks = fnv 0xcbf29ce484222325 (boot_id ++ le_bytes 8 ticks)

-- `executable_path.file_name().and_then(to_str)`
unfoldable pub executable_name : Bytes → Io Bytes
executable_name path = do
  name ← ok_or (file_name path) (io_error ErrorKind.permission_denied)
  if is_utf8 name then ok name else err (io_error ErrorKind.permission_denied)

-- The end of `process_identity`: the name, and then the read of the boot id.
abbrev name_then_boot : Bytes → Io Bytes → ℕ → Io (Option ProcessIdentity)
name_then_boot path boot_read ticks = do
  executable ← executable_name path
  boot ← boot_read
  ok (
      some (record {
        executable = executable;
        start_token = boot_bound_start_token (trim boot) ticks;
      }))

abbrev second_read : ℕ → Bytes → Io Bytes → Option ℕ → Io (Option ProcessIdentity)
second_read first path boot none = ok none
second_read first path boot (some second) =
    if not (first == second) then ok none else name_then_boot path boot first

abbrev exe_read : ℕ → ProcReads → Io Bytes → Io (Option ProcessIdentity)
exe_read first reads (ok path) = do
  second ← linux_start_ticks reads.second_stat
  second_read first path reads.boot_id second
exe_read first reads (err e) = if is_not_found e.kind then ok none else err e

abbrev first_read : ProcReads → Option ℕ → Io (Option ProcessIdentity)
first_read reads none = ok none
first_read reads (some first) = exe_read first reads reads.exe_link

-- What the four reads of `process_identity` make.
unfoldable pub identity_of : ProcReads → Io (Option ProcessIdentity)
identity_of reads = do first ← linux_start_ticks reads.first_stat; first_read reads first

-- `process_identity`
unfoldable pub process_identity : ℕ → Sys (Option ProcessIdentity)
process_identity pid w = (identity_of (w.proc w.clock pid), tick w)
