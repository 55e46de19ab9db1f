-- ===== src/Examples/Reaping.antt =====
-- Reaping at concrete inputs.
use nyanpasu_utils.Prelude.{bytes_eq}
use nyanpasu_utils.Text.Utf8.{is_utf8}
use nyanpasu_utils.Text.FilePath.{file_name}
use nyanpasu_utils.Text.Decimal.{parse_uint}
use nyanpasu_utils.Text.Words.{split_whitespace}
use nyanpasu_utils.Text.Words.{after_last}
use nyanpasu_utils.Text.Decimal.{decimal}
use nyanpasu_utils.Prelude.{
  ltb, bytes_eq, ◌≡◌, refl, true, false, some, List, [], ◌∷◌, ◌++◌, Bytes, codes, if◌then◌else◌,
  arith,
}
use nyanpasu_utils.Io.{ok}
use nyanpasu_utils.Text.Lines.{join}
use nyanpasu_utils.Text.Lines.Laws.{Lacks}
use nyanpasu_utils.Text.Words.{trim}
use nyanpasu_utils.Collections.Key.{nat_key}
use nyanpasu_utils.System.World.{World, ProcReads}
use nyanpasu_utils.PidFile.Record.{
  EpochPidRecord, ProcessIdentity, killed, exe_names_equal, record_matches_identity,
}
use nyanpasu_utils.PidFile.Identity.{
  ticks_of_stat, linux_start_ticks, boot_bound_start_token, executable_name, identity_of,
  process_identity,
}
use nyanpasu_utils.PidFile.Identity.Laws.{ticks_of_stat_lem}
use nyanpasu_utils.PidFile.Reap.{
  kill_recorded_process, reap_identified, confirm, kill_opened, pidfd_open, pidfd_kill,
  check_identity,
}
use nyanpasu_utils.PidFile.Reap.Signals.{Lawful}
use nyanpasu_utils.PidFile.Descendants.Safety.{TreeSignal, reap_record_justified}
use nyanpasu_utils.PidFile.Reap.Confirm.{SeenGone, reap_identified_lem}
use nyanpasu_utils.PidFile.Descendants.{Process, descendants_in, reap_record}
use nyanpasu_utils.PidFile.Descendants.Reachable.{Descendant, descendants_lem}
use nyanpasu_utils.Prelude.{◌↔◌, ◌==◌}
use nyanpasu_utils.PidFile.Descendants.{member}
use nyanpasu_utils.Examples.PidFiles.{mihomo}
use nyanpasu_utils.Examples.Files.{quiet, no_reads}

-- The fields behind the command's name.
abbrev stat_rest : List Bytes
stat_rest =
    codes "1"
    ∷ codes "2"
    ∷ codes "3"
    ∷ codes "4"
    ∷ codes "5"
    ∷ codes "6"
    ∷ codes "7"
    ∷ codes "8"
    ∷ codes "9"
    ∷ codes "10"
    ∷ codes "11"
    ∷ codes "12"
    ∷ codes "13"
    ∷ codes "14"
    ∷ codes "15"
    ∷ codes "16"
    ∷ codes "17"
    ∷ codes "18"
    ∷ codes "987"
    ∷ codes "0"
    ∷ []

abbrev stat_line : Bytes
stat_line = codes "4242 (a ) b" ++ 41 ∷ 32 ∷ (join 32 (codes "S" ∷ stat_rest) ++ 10 ∷ [])

stat_rest-Lacks : Lacks 41 (join 32 (codes "S" ∷ stat_rest))
unfolding join
stat_rest-Lacks = ground arith

ticks_of_stat_example : ticks_of_stat stat_line ≡ ok 987
unfolding decimal
ticks_of_stat_example =
    ticks_of_stat_lem (codes "4242 (a ) b") (codes "S") stat_rest 987 (omega arith) stat_rest-Lacks
      refl (omega arith)

abbrev pub live : ProcReads
live = record {
  first_stat = ok stat_line;
  exe_link = ok (codes "/usr/bin/mihomo");
  second_stat = ok stat_line;
  boot_id = ok (codes "abc");
}

abbrev pub mihomo_identity : ProcessIdentity
mihomo_identity = record {
  executable = codes "mihomo";
  start_token = boot_bound_start_token (codes "abc") 987;
}

-- The process of the record, alive until its third query.
abbrev pub running : EpochPidRecord
running = record mihomo { start_token = mihomo_identity.start_token }

abbrev pub dying : World
dying = record quiet { proc = λ t pid. if ltb t 5 then live else no_reads }

-- The process of the record and a child of it, which outlives it.
abbrev tree : World
tree = record quiet {
  proc = λ t pid. if ltb t (if pid == 4242 then 11 else 20) then live else no_reads;
  processes = λ t. (4243, some 4242) ∷ [];
}

reap_record_justified_example :
    Lawful
      (TreeSignal tree.proc tree.processes tree.clock tree.signals running)
      tree.signals
      (reap_record running tree).1.signals
reap_record_justified_example = reap_record_justified running tree

running_matches : record_matches_identity running mihomo_identity ≡ true
unfolding record_matches_identity boot_bound_start_token bytes_eq
running_matches = refl

reap_identified_lem_example :
    (killed ≡ killed)
    × SeenGone dying.proc running false (kill_recorded_process running dying).1.clock
unfolding kill_recorded_process kill_opened pidfd_open pidfd_kill process_identity identity_of
    linux_start_ticks ticks_of_stat after_last join split_whitespace parse_uint executable_name
    file_name is_utf8 check_identity record_matches_identity boot_bound_start_token exe_names_equal
    bytes_eq trim reap_identified confirm
reap_identified_lem_example =
    reap_identified_lem running false (kill_recorded_process running) mihomo_identity killed dying
      running_matches refl refl

-- A process table in which two processes are each other's parent.
abbrev cyclic : List Process
cyclic = (2, some 1) ∷ (1, some 2) ∷ (3, some 2) ∷ []

descendants_lem_example : (member 1 (descendants_in cyclic 1) ≡ true) ↔ Descendant cyclic 1 1
descendants_lem_example = descendants_lem cyclic 1 1
