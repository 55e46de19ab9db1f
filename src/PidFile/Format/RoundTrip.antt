-- ===== src/PidFile/Format/RoundTrip.antt =====
-- The record format of process/pid_file.rs: printing and parsing.
use mathlib.Core.Path.{subst}
use nyanpasu_utils.Text.Utf8.{is_utf8}
use nyanpasu_utils.Prelude.{
  ℕ, ◌^◌, ◌<◌, ◌≡◌, refl, true, false, some, [], ◌∷◌, ◌++◌, Bytes, codes, bytes_eq, All, All-append,
  All-map, IsByte, ◌==◌, arith,
}
use nyanpasu_utils.Io.{ok, ◌>>=◌, passed, ok_inj}
use nyanpasu_utils.Text.Decimal.{decimal}
use nyanpasu_utils.Text.Decimal.RoundTrip.{
  IsDigit, decimal-All, parse_uint-decimal, parse_uint_bounded,
}
use nyanpasu_utils.Text.Lines.{lf, cr, lines, split_once}
use nyanpasu_utils.Text.Lines.Laws.{Lacks, lacks, IsPlain, IsPlain-of_test, lines-unlines}
use nyanpasu_utils.Collections.BTreeMap.{get, insert}
use nyanpasu_utils.Collections.Key.{bytes_lt, bytes_key}
use nyanpasu_utils.PidFile.Record.{EpochPidRecord, IsRecord, IsText}
use nyanpasu_utils.PidFile.Hex.{hex_encode, hex_decode}
use nyanpasu_utils.PidFile.Hex.Laws.{hex_decode-encode, hex_encode-decode, hex_encode_plain}
use nyanpasu_utils.PidFile.Format.{
  epoch_pid_version, Fields, record_lines, serialize_epoch_record, parse_lines, required,
  parse_field, text_field, read_record, read_fields, parse_epoch_record,
}

digit-Lacks : (sep c : ℕ) → sep < b'0' → IsDigit c → (c == sep) ≡ false
digit-Lacks sep c h k = ground arith

decimal-Lacks : (sep n : ℕ) → sep < b'0' → Lacks sep (decimal n)
decimal-Lacks sep n h =
    All-map IsDigit (λ c. (c == sep) ≡ false) (decimal n) (λ c. digit-Lacks sep c h) (decimal-All n)

decimal-IsPlain :
    (key : Bytes) (n : ℕ) → lacks lf key ≡ true → lacks cr key ≡ true → IsPlain (key ++ decimal n)
decimal-IsPlain key n p q =
    let h = IsPlain-of_test key p q in
    (
      All-append _ key (decimal n) h.0 (decimal-Lacks lf n (omega arith)),
      All-append _ key (decimal n) h.1 (decimal-Lacks cr n (omega arith)),
    )

hex-IsPlain :
    (key bs : Bytes)
    → lacks lf key ≡ true
    → lacks cr key ≡ true
    → All IsByte bs
    → IsPlain (key ++ hex_encode bs)
hex-IsPlain key bs p q k =
    let h = IsPlain-of_test key p q in
    (
      All-append _ key (hex_encode bs) h.0 (hex_encode_plain lf bs (omega arith) k),
      All-append _ key (hex_encode bs) h.1 (hex_encode_plain cr bs (omega arith) k),
    )

record_lines-IsPlain : (r : EpochPidRecord) → IsRecord r → All IsPlain (record_lines r)
unfolding record_lines
record_lines-IsPlain r h = (
  decimal-IsPlain (codes "version=") epoch_pid_version refl refl,
  (
    decimal-IsPlain (codes "pid=") r.pid refl refl,
    (
      decimal-IsPlain (codes "epoch=") r.epoch refl refl,
      (
        hex-IsPlain (codes "executable=") r.executable refl refl h.executable_text.0,
        (
          decimal-IsPlain (codes "start-token=") r.start_token refl refl,
          (hex-IsPlain (codes "runtime-config=") r.runtime_config refl refl h.config_text.0, tt),
        ),
      ),
    ),
  ),
)

-- The fields as the loop leaves them.
fields_of : EpochPidRecord → Fields
fields_of r =
    (codes "epoch", decimal r.epoch)
    ∷ (codes "executable", hex_encode r.executable)
    ∷ (codes "pid", decimal r.pid)
    ∷ (codes "runtime-config", hex_encode r.runtime_config)
    ∷ (codes "start-token", decimal r.start_token)
    ∷ (codes "version", decimal 2)
    ∷ []

parse_lines-record_lines : (r : EpochPidRecord) → parse_lines (record_lines r) [] ≡ ok (fields_of r)
unfolding parse_lines record_lines fields_of split_once get insert bytes_eq bytes_lt
parse_lines-record_lines r = refl

field_lem :
    (bound n : ℕ) (fields : Fields) (key : Bytes)
    → get key fields ≡ some (decimal n)
    → n < bound
    → parse_field bound fields key ≡ ok n
unfolding parse_field
field_lem bound n fields key h k = ground (arith, parse_uint-decimal bound n k)

text_lem :
    (s : Bytes) (fields : Fields) (key : Bytes)
    → get key fields ≡ some (hex_encode s)
    → IsText s
    → text_field fields key ≡ ok s
unfolding text_field
text_lem s fields key h k = ground (arith, hex_decode-encode s k.0, k.1)

read_fields-fields_of : (r : EpochPidRecord) → IsRecord r → read_fields (fields_of r) ≡ ok r
unfolding read_fields fields_of get bytes_eq
read_fields-fields_of r h = rw (
  field_lem (2 ^ 32) 2 (fields_of r) (codes "version") refl (omega arith),
  text_lem r.executable (fields_of r) (codes "executable") refl h.executable_text,
  text_lem r.runtime_config (fields_of r) (codes "runtime-config") refl h.config_text,
  field_lem (2 ^ 32) r.pid (fields_of r) (codes "pid") refl h.pid_fits,
  field_lem (2 ^ 64) r.epoch (fields_of r) (codes "epoch") refl h.epoch_fits,
  field_lem (2 ^ 64) r.start_token (fields_of r) (codes "start-token") refl h.token_fits,
)

-- A record whose numbers are in range and whose texts are UTF-8 is read back unchanged from what is
-- written for it.
pub parse-serialize :
    (r : EpochPidRecord) → IsRecord r → (serialize_epoch_record r >>= parse_epoch_record) ≡ ok r
unfolding serialize_epoch_record parse_epoch_record
parse-serialize r h =
    rw
      (
        h.config_text.1,
        lines-unlines (record_lines r) (record_lines-IsPlain r h),
        parse_lines-record_lines r,
      )
      (read_fields-fields_of r h)

required_inv :
    (fields : Fields) (key v : Bytes) → required fields key ≡ ok v → get key fields ≡ some v
unfolding required
required_inv fields key v e = ground arith

field_inv :
    (bound n : ℕ) (fields : Fields) (key : Bytes)
    → 0 < bound
    → parse_field bound fields key ≡ ok n
    → n < bound
unfolding parse_field
field_inv bound n fields key h e =
    let (v, p, e') = passed (required fields key) _ e in
    parse_uint_bounded bound n v h (ground arith)

IsText-inv : (s : Bytes) (fields : Fields) (key : Bytes) → text_field fields key ≡ ok s → IsText s
unfolding text_field
IsText-inv s fields key e =
    let (v, p, e') = passed (required fields key) _ e in
    let (bs, q, e'') = passed (hex_decode v) _ e' in
    let same : bs ≡ s = ground arith in
    let valid : is_utf8 bs ≡ true = ground arith in
    subst (λ t. IsText t) same ((hex_encode-decode v bs q).0, valid)

IsRecord-parts :
    (executable runtime_config : Bytes) (pid epoch start_token : ℕ) (r : EpochPidRecord)
    → IsText executable
    → IsText runtime_config
    → pid < 2 ^ 32
    → epoch < 2 ^ 64
    → start_token < 2 ^ 64
    → (record {
      pid = pid;
      epoch = epoch;
      executable = executable;
      start_token = start_token;
      runtime_config = runtime_config;
    })
      ≡ r
    → IsRecord r
IsRecord-parts x c p n s r hx hc hp hn hs e = subst IsRecord e (record {
  pid_fits = hp;
  epoch_fits = hn;
  executable_text = hx;
  token_fits = hs;
  config_text = hc;
})

read_record_inv : (fields : Fields) (r : EpochPidRecord) → read_record fields ≡ ok r → IsRecord r
unfolding read_record
read_record_inv fields r e =
    let (x, px, e1) = passed (text_field fields (codes "executable")) _ e in
    let (c, pc, e2) = passed (text_field fields (codes "runtime-config")) _ e1 in
    let (p, pp, e3) = passed (parse_field (2 ^ 32) fields (codes "pid")) _ e2 in
    let (n, pn, e4) = passed (parse_field (2 ^ 64) fields (codes "epoch")) _ e3 in
    let (s, ps, e5) = passed (parse_field (2 ^ 64) fields (codes "start-token")) _ e4 in
    IsRecord-parts x c p n s r (IsText-inv x fields (codes "executable") px)
      (IsText-inv c fields (codes "runtime-config") pc)
      (field_inv (2 ^ 32) p fields (codes "pid") (omega arith) pp)
      (field_inv (2 ^ 64) n fields (codes "epoch") (omega arith) pn)
      (field_inv (2 ^ 64) s fields (codes "start-token") (omega arith) ps) (ok_inj e5)

read_inv : (fields : Fields) (r : EpochPidRecord) → read_fields fields ≡ ok r → IsRecord r
unfolding read_fields
read_inv fields r e = read_record_inv fields r (ground arith)

-- Every record that is read has fields in the range of their types.
pub parse-IsRecord : (raw : Bytes) (r : EpochPidRecord) → parse_epoch_record raw ≡ ok r → IsRecord r
unfolding parse_epoch_record
parse-IsRecord raw r e =
    let (fields, p, e') = passed (parse_lines (lines raw) []) _ e in read_inv fields r e'
