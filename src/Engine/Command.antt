-- ===== src/Engine/Command.antt =====
-- The builder `Command` of process/command.rs, and `build_pk` of process/engine.rs.
use nyanpasu_utils.Prelude.{
  ℕ, ◌*◌, ◌^◌, ◌≤◌, Bool, true, false, Option, none, some, List, [], ◌∷◌, ◌++◌, Bytes, max, arith,
  if◌then◌else◌,
}
use nyanpasu_utils.PidFile.Record.{EpochPidFile}

-- `PidFile`
pub data PidFile : Type 0 where
  legacy : Bytes → PidFile
  epoch : EpochPidFile → PidFile

-- `Command`; an encoding is its name, and durations are in nanoseconds.
pub record Command : Type 0 where
  pub program : Bytes
  pub args : List Bytes
  pub envs : List (Bytes × Bytes)
  pub current_dir : Option Bytes
  pub encoding : Option Bytes
  pub hide_window : Bool
  pub kill_grace : ℕ
  pub event_channel_capacity : ℕ
  pub timeout : Option ℕ
  pub pipe_stdin : Bool
  pub pid_file : Option PidFile

-- `Command::new`
unfoldable pub new_command : Bytes → Command
new_command program = record {
  program = program;
  args = [];
  envs = [];
  current_dir = none;
  encoding = none;
  hide_window = true;
  kill_grace = 5 * 10 ^ 9;
  event_channel_capacity = 64;
  timeout = none;
  pipe_stdin = false;
  pid_file = none;
}

-- The methods of the builder, with their arguments.
pub data Setting : Type 0 where
  arg : Bytes → Setting
  args : List Bytes → Setting
  env : Bytes → Bytes → Setting
  current_dir : Bytes → Setting
  encoding : Option Bytes → Setting
  hide_window : Bool → Setting
  kill_grace : ℕ → Setting
  event_channel_capacity : ℕ → Setting
  timeout : ℕ → Setting
  pipe_stdin : Bool → Setting
  pid_file : Bytes → Setting
  epoch_pid_file : EpochPidFile → Setting

-- A call of one method.
unfoldable pub with_setting : Setting → Command → Command
with_setting (Setting.arg a) c = record c { args = c.args ++ a ∷ [] }
with_setting (Setting.args more) c = record c { args = c.args ++ more }
with_setting (Setting.env k v) c = record c { envs = c.envs ++ (k, v) ∷ [] }
with_setting (Setting.current_dir dir) c = record c { current_dir = some dir }
with_setting (Setting.encoding enc) c = record c { encoding = enc }
with_setting (Setting.hide_window hide) c = record c { hide_window = hide }
with_setting (Setting.kill_grace d) c = record c { kill_grace = d }
with_setting (Setting.event_channel_capacity cap) c = record c {
  event_channel_capacity = max cap 1;
}
with_setting (Setting.timeout d) c = record c { timeout = some d }
with_setting (Setting.pipe_stdin pipe) c = record c { pipe_stdin = pipe }
with_setting (Setting.pid_file path) c = record c { pid_file = some (legacy path) }
with_setting (Setting.epoch_pid_file spec) c = record c { pid_file = some (epoch spec) }

-- A chain of calls on a command.
pub with_settings : List Setting → Command → Command
with_settings [] c = c
with_settings (s ∷ more) c = with_settings more (with_setting s c)

setting_capacity :
    (s : Setting) (c : Command)
    → 1 ≤ c.event_channel_capacity
    → 1 ≤ (with_setting s c).event_channel_capacity
unfolding with_setting
setting_capacity (Setting.event_channel_capacity cap) c h = omega arith
setting_capacity s c h = h

settings_capacity :
    (l : List Setting) (c : Command)
    → 1 ≤ c.event_channel_capacity
    → 1 ≤ (with_settings l c).event_channel_capacity
unfolding with_settings
settings_capacity [] c h = h
settings_capacity (s ∷ l) c h = settings_capacity l (with_setting s c) (setting_capacity s c h)

-- Whatever methods are called, the event channel of a command has room for an event, as the channel
-- requires.
pub capacity_positive :
    (program : Bytes) (l : List Setting)
    → 1 ≤ (with_settings l (new_command program)).event_channel_capacity
unfolding new_command
capacity_positive program l = settings_capacity l (new_command program) (omega arith)

-- What is asked of processkit's command, in order.
pub data PkSetting : Type 0 where
  pk_args : List Bytes → PkSetting
  pk_env : Bytes → Bytes → PkSetting
  pk_current_dir : Bytes → PkSetting
  pk_encoding : Bytes → PkSetting
  pk_timeout : ℕ → PkSetting
  pk_max_bytes : ℕ → PkSetting
  pk_keep_stdin_open : PkSetting

abbrev pk_envs : List (Bytes × Bytes) → List PkSetting → List PkSetting
pk_envs [] rest = rest
pk_envs ((k, v) ∷ envs) rest = pk_env k v ∷ pk_envs envs rest

abbrev pk_option {ℓ} : {A : Type ℓ} → (A → PkSetting) → Option A → List PkSetting → List PkSetting
pk_option f none rest = rest
pk_option f (some a) rest = f a ∷ rest

-- `build_pk`, on platforms but Windows: the program, and the settings.
unfoldable pub build_pk : Command → Bool → Bytes × List PkSetting
build_pk cmd include_timeout = (
  cmd.program,
  pk_args cmd.args
      ∷ pk_envs cmd.envs (
          pk_option pk_current_dir cmd.current_dir (
            pk_option pk_encoding cmd.encoding (
              pk_option pk_timeout (if include_timeout then cmd.timeout else none) (
                pk_max_bytes (256 * 1024)
                ∷ (if cmd.pipe_stdin then pk_keep_stdin_open ∷ [] else []))))),
)
