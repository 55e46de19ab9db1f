-- ===== src/Examples/PidFiles.antt =====
-- Records of pid files at concrete inputs.
use nyanpasu_utils.Prelude.{◌≡◌, refl, Bytes, codes, arith}
use nyanpasu_utils.Io.{ok, ◌>>=◌}
use nyanpasu_utils.Text.Utf8.{is_utf8}
use nyanpasu_utils.PidFile.Record.{EpochPidRecord, IsRecord}
use nyanpasu_utils.PidFile.Format.{serialize_epoch_record, parse_epoch_record}
use nyanpasu_utils.PidFile.Format.RoundTrip.{parse-serialize}

abbrev pub mihomo : EpochPidRecord
mihomo = record {
  pid = 4242;
  epoch = 7;
  executable = codes "mihomo";
  start_token = 18446744073709551615;
  runtime_config = codes "/run/nyanpasu/config-7.yaml";
}

pub mihomo-IsRecord : IsRecord mihomo
unfolding is_utf8
mihomo-IsRecord = record {
  pid_fits = omega arith;
  epoch_fits = omega arith;
  executable_text = (omega arith, refl);
  token_fits = omega arith;
  config_text = (omega arith, refl);
}

abbrev mihomo_text : Bytes
mihomo_text =
    codes
      "version=2\npid=4242\nepoch=7\nexecutable=6d69686f6d6f\nstart-token=18446744073709551615\nruntime-config=2f72756e2f6e79616e706173752f636f6e6669672d372e79616d6c\n"

parse-serialize_example : (serialize_epoch_record mihomo >>= parse_epoch_record) ≡ ok mihomo
parse-serialize_example = parse-serialize mihomo mihomo-IsRecord
