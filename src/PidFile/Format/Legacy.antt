-- ===== src/PidFile/Format/Legacy.antt =====
-- The record format of process/pid_file.rs: legacy pid files, which hold a number only.
use nyanpasu_utils.Prelude.{◌≡◌, refl, List, [], ◌∷◌, Bytes, All, arith}
use nyanpasu_utils.Io.{◌>>=◌}
use nyanpasu_utils.Text.Lines.{lines}
use nyanpasu_utils.Text.Lines.Laws.{Lacks, lines-Lacks, split_once_lacking}
use nyanpasu_utils.Collections.BTreeMap.{get}
use nyanpasu_utils.PidFile.Format.{invalid_data, parse_lines, read_fields, parse_epoch_record}

parse_lines_lacking :
    (ls : List Bytes) → All (Lacks b'=') ls → (parse_lines ls [] >>= read_fields) ≡ invalid_data
unfolding parse_lines read_fields get
parse_lines_lacking [] h = refl
parse_lines_lacking (l ∷ ls) h = ground (arith, split_once_lacking b'=' l h.0)

-- A text without `=`, which every legacy file is, is refused as invalid data.
pub parse_lacking : (raw : Bytes) → Lacks b'=' raw → parse_epoch_record raw ≡ invalid_data
unfolding parse_epoch_record
parse_lacking raw h = parse_lines_lacking (lines raw) (lines-Lacks b'=' raw h)
