-- ===== src/PidFile/Store/Reading.antt =====
-- What is read of a record that was written, and what is removed.
use mathlib.Core.Path.{subst}
use nyanpasu_utils.Prelude.{
  ℕ, ◌+◌, ◌<◌, ◌≡◌, refl, ◌⊎◌, sym, ◌∙◌, ap, Bool, true, none, some, List, [], ◌∷◌, ◌++◌, Bytes,
  bytes_eq_iff, arith, All, All-append, All-map, codes, ltb, ◌&&◌, ltb→lt,
}
use nyanpasu_utils.Io.{Io, ok, ok_inj, ◌>>=◌}
use nyanpasu_utils.Text.Decimal.{decimal}
use nyanpasu_utils.Text.Decimal.RoundTrip.{IsDigit, decimal-All}
use nyanpasu_utils.Text.Lines.{unlines}
use nyanpasu_utils.Text.Utf8.{is_utf8, IsAscii, is_utf8_ascii}
use nyanpasu_utils.System.World.{World, file}
use nyanpasu_utils.System.Files.{symlink_metadata, read_to_string, remove_file, resolve}
use nyanpasu_utils.PidFile.Record.{EpochPidRecord, record_eq, IsRecord}
use nyanpasu_utils.PidFile.Hex.{hex_encode}
use nyanpasu_utils.PidFile.Hex.Laws.{hex_encode_ascii}
use nyanpasu_utils.PidFile.Format.{
  epoch_pid_version, record_lines, serialize_epoch_record, parse_epoch_record,
}
use nyanpasu_utils.PidFile.Format.RoundTrip.{parse-serialize}
use nyanpasu_utils.PidFile.Store.{read_epoch_pid_file, write_epoch_record, remove_record_if_matches}
use nyanpasu_utils.PidFile.Store.Publish.{HasTemps, write_lem}

ascii : Bytes → Bool
ascii [] = true
ascii (c ∷ s) = ltb c 128 && ascii s

All-of_ascii : (s : Bytes) → ascii s ≡ true → All IsAscii s
unfolding ascii
All-of_ascii [] h = tt
All-of_ascii (c ∷ s) h = (ltb→lt c 128 (ground arith), All-of_ascii s (ground arith))

digit-IsAscii : (c : ℕ) → IsDigit c → IsAscii c
digit-IsAscii c h = ground arith

decimal-IsAscii : (key : Bytes) (n : ℕ) → ascii key ≡ true → All IsAscii (key ++ decimal n)
decimal-IsAscii key n h =
    All-append IsAscii key (decimal n) (All-of_ascii key h)
      (All-map IsDigit IsAscii (decimal n) digit-IsAscii (decimal-All n))

hex-IsAscii :
    (key bs : Bytes) → ascii key ≡ true → All (λ b. b < 256) bs → All IsAscii (key ++ hex_encode bs)
hex-IsAscii key bs h k =
    All-append IsAscii key (hex_encode bs) (All-of_ascii key h) (hex_encode_ascii bs k)

unlines-IsAscii : (ls : List Bytes) → All (All IsAscii) ls → All IsAscii (unlines ls)
unfolding unlines
unlines-IsAscii [] h = tt
unlines-IsAscii (l ∷ ls) h = All-append IsAscii l _ h.0 (omega arith, unlines-IsAscii ls h.1)

serialize-utf8 :
    (r : EpochPidRecord) (s : Bytes)
    → IsRecord r
    → serialize_epoch_record r ≡ ok s
    → is_utf8 s ≡ true
unfolding serialize_epoch_record record_lines ascii
serialize-utf8 r s h e =
    subst (λ t. is_utf8 t ≡ true) (ok_inj (sym serialized ∙ e)) (is_utf8_ascii _ ascii_lines)
  where
    ascii_lines : All IsAscii (unlines (record_lines r))
    ascii_lines = unlines-IsAscii (record_lines r) (
      decimal-IsAscii (codes "version=") epoch_pid_version refl,
      (
        decimal-IsAscii (codes "pid=") r.pid refl,
        (
          decimal-IsAscii (codes "epoch=") r.epoch refl,
          (
            hex-IsAscii (codes "executable=") r.executable refl h.executable_text.0,
            (
              decimal-IsAscii (codes "start-token=") r.start_token refl,
              (hex-IsAscii (codes "runtime-config=") r.runtime_config refl h.config_text.0, tt),
            ),
          ),
        ),
      ),
    )

    serialized : serialize_epoch_record r ≡ ok (unlines (record_lines r))
    serialized = rw h.config_text.1

-- Reading a file with no fault in the way gives what its text parses to.
read_lem :
    (path raw : Bytes) (w : World)
    → w.files path ≡ some (file raw)
    → w.faults w.clock ≡ none
    → w.faults (w.clock + 1) ≡ none
    → is_utf8 raw ≡ true
    → (r : EpochPidRecord) → parse_epoch_record raw ≡ ok r
    → (read_epoch_pid_file path w).0 ≡ ok (some r)
unfolding read_epoch_pid_file symlink_metadata read_to_string resolve
read_lem path raw w h f g u r p = ground arith

-- A record in range that was written to a free name is read back, whatever calls had failed before,
-- when the two calls of the reading do not fail. It is assumed that no temporary name of the record
-- is its own name.
pub read-write :
    (path : Bytes) (r : EpochPidRecord) (w written : World)
    → HasTemps path
    → IsRecord r
    → w.files path ≡ none
    → write_epoch_record path r w ≡ (ok tt, written)
    → written.faults written.clock ≡ none
    → written.faults (written.clock + 1) ≡ none
    → (read_epoch_pid_file path written).0 ≡ ok (some r)
read-write path r w written temps h free e f g =
    let (s, p, q) = write_lem path r temps w free (ap (λ (x : Io (Unit {0}) × World). x.0) e) in
    read_lem path s written (sym (ap (λ (x : Io (Unit {0}) × World). x.1.files path) e) ∙ q) f g
      (serialize-utf8 r s h p) r
      (sym (ap (λ (t : Io Bytes). t >>= parse_epoch_record) p) ∙ parse-serialize r h)

-- `remove_record_if_matches` removes nothing but a file whose text is the expected record.
pub remove_only_matching :
    (path q : Bytes) (expected : EpochPidRecord) (w : World)
    → ((remove_record_if_matches path expected w).1.files q ≡ w.files q)
      ⊎ ((path ≡ q)
          × (raw : Bytes) × (found : EpochPidRecord) × (w.files q ≡ some (file raw))
          × (parse_epoch_record raw ≡ ok found)
          × (record_eq found expected ≡ true))
unfolding remove_record_if_matches read_epoch_pid_file symlink_metadata read_to_string remove_file
    resolve
remove_only_matching path q expected w = ground (arith, bytes_eq_iff path q)
