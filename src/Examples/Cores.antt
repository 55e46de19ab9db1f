-- ===== src/Examples/Cores.antt =====
-- The legacy instance of a core at concrete inputs.
use nyanpasu_utils.Prelude.{
  ◌<◌, ◌≤◌, ◌≡◌, refl, true, false, none, some, [], ◌++◌, Bytes, codes, arith,
}
use nyanpasu_utils.Io.{Io, ok, err}
use nyanpasu_utils.Text.Search.{find}
use nyanpasu_utils.Text.Utf8.{is_utf8}
use nyanpasu_utils.Text.FilePath.{parent_text}
use nyanpasu_utils.Os.{ProcessTable}
use nyanpasu_utils.Core.Definition.{clash, mihomo}
use nyanpasu_utils.Core.Builder.{
  CoreInstanceBuilder, validate, first_missing, validate-ignores_files,
}
use nyanpasu_utils.Core.CheckOutput.{parse_check_output}
use nyanpasu_utils.Core.CheckOutput.Messages.{error_line, ends_at_error-panics}
use nyanpasu_utils.Core.CheckConfig.{
  cfg_failed, CheckCommand, CheckOutput, check_config_, check_config-reports,
}
use nyanpasu_utils.Core.Instance.{CoreInstance, running, stopped, RunAnswers, KillAnswers, kill}
use nyanpasu_utils.Core.Instance.Kill.{KillSound, kill_confirmed}
use nyanpasu_utils.Core.Instance.Threads.{
  Threads, Checker, update, first_threads, Reach, here, next, run_checked, run_spawned,
}
use nyanpasu_utils.Core.Instance.Threads.Told.{
  ends, passes, told_once, Stale, check_point_overtaken,
}
use nyanpasu_utils.Examples.Files.{quiet}

-- A builder whose paths name nothing, and that has no file for the pid.
abbrev half_built : CoreInstanceBuilder
half_built = record {
  core_type = some (clash mihomo);
  binary_path = some (codes "/nowhere/mihomo");
  app_dir = some (codes "/nowhere");
  config_path = some (codes "/nowhere/config.yaml");
  pid_path = none;
}

validate-ignores_files_example : validate quiet.files half_built ≡ first_missing half_built
validate-ignores_files_example = validate-ignores_files quiet.files half_built

ends_at_error-panics_example : parse_check_output (codes "fatal: " ++ codes "error=") ≡ none
unfolding find
ends_at_error-panics_example = ends_at_error-panics (codes "fatal: ") refl (ground arith)

abbrev bad_log : CheckOutput
bad_log = record {
  success = false;
  stdout = error_line (codes "today ") (codes "no such rule") (codes " path=/c");
  stderr = [];
}

abbrev config_file : Bytes
config_file = codes "/etc/mihomo/config.yaml"

abbrev fails : CheckCommand → Io CheckOutput
fails command = ok bad_log

check_config-reports_example :
    check_config_ (clash mihomo) config_file (codes "/bin/mihomo") (codes "/etc/mihomo") fails
    ≡ some (err (cfg_failed (codes "no such rule")))
unfolding parent_text is_utf8
check_config-reports_example =
    check_config-reports (clash mihomo) config_file (codes "/etc/mihomo") (codes "/bin/mihomo")
      (codes "/etc/mihomo") fails bad_log (codes "today ") (codes "no such rule") (codes " path=/c")
      refl refl refl refl refl refl (ground arith) (ground arith) refl

abbrev marked : CoreInstance
marked = record {
  core_type = clash mihomo;
  binary_path = codes "/bin/mihomo";
  app_dir = codes "/etc/mihomo";
  config_path = config_file;
  pid_path = codes "/run/mihomo.pid";
  instance = some 0;
  state = running;
}

abbrev dead_child : KillAnswers
dead_child = record { joined = true; term = ok tt; forced = ok tt; tries = λ n. ok (some false) }

kill_confirmed_example : KillSound dead_child.tries 81 (kill marked dead_child)
kill_confirmed_example = kill_confirmed marked dead_child

abbrev no_processes : ProcessTable
no_processes = record { process = λ pid. none; kill_tree = λ pid. ok tt; lowercase = λ s. s }

abbrev run_answers : RunAnswers
run_answers = record {
  table = no_processes;
  pipes = ok tt;
  spawned = ok (1, 4243);
  exe_suffix = [];
}

-- The first child was spawned a moment ago.
abbrev just_spawned : Threads
just_spawned = record {
  state = stopped;
  instance = some 0;
  spawned = 1;
  starting = 0;
  alive = update (λ n. false) 0 true;
  waiting = update (λ n. false) 0 true;
  checker = update (λ n. Checker.absent) 0 Checker.asleep;
  sent = [];
}

spawn_run : Reach first_threads just_spawned
unfolding first_threads
spawn_run = next (next here (run_checked _ refl)) (run_spawned _ 0 refl)

told_once_example :
    (ends 0 just_spawned.sent ≤ 1)
    × (passes 0 just_spawned.sent ≤ 1)
    × (0 < ends 0 just_spawned.sent → just_spawned.alive 0 ≡ false)
told_once_example = told_once 0 just_spawned spawn_run

check_point_overtaken_example : (t : Threads) × Reach first_threads t × Stale 0 t
check_point_overtaken_example =
    check_point_overtaken 0 (record { code = some 1; signal = none }) just_spawned spawn_run refl
      refl refl refl
