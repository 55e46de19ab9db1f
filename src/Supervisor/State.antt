-- ===== src/Supervisor/State.antt =====
-- The state of the supervision loop of process/supervisor.rs, and its start.
use nyanpasu_utils.Prelude.{
  ℕ, ◌*◌, ◌+◌, ◌^◌, Bool, true, false, Option, some, List, [], codes, ◌∷◌, if◌then◌else◌,
}
use nyanpasu_utils.Process.{TerminatedPayload, ProcessEvent, ProcessError}
use nyanpasu_utils.Io.{Result, ok, err, ◌>>=◌}
use nyanpasu_utils.Supervisor.Backoff.{exponential, with_jitter}
use nyanpasu_utils.Supervisor.Storm.{default_storm_policy}
use nyanpasu_utils.Supervisor.Backoff.{Backoff}
use nyanpasu_utils.Supervisor.Storm.{RestartStormPolicy}

pub data RestartPolicy : Type 0 where
  never : RestartPolicy
  on_failure : (max_restarts : ℕ) → RestartPolicy

pub data ReadinessProbe : Type 0 where
  alive_after : (delay : ℕ) → ReadinessProbe
  acknowledged : ReadinessProbe

pub data SupervisorEvent : Type 0 where
  started : (pid : ℕ) → SupervisorEvent
  ready : SupervisorEvent
  exited : TerminatedPayload → SupervisorEvent
  restarting : (attempt delay : ℕ) → SupervisorEvent
  gave_up : SupervisorEvent
  stopped : SupervisorEvent

-- What `SupervisorBuilder` has collected.
pub record Config : Type 0 where
  pub policy : RestartPolicy
  pub backoff : Backoff
  pub readiness : ReadinessProbe
  pub storm_policy : RestartStormPolicy

-- `Supervisor::builder`, less the hooks, the factory and the token.
abbrev pub default_config : Config
default_config = record {
  policy = on_failure 5;
  backoff = with_jitter (exponential (10 ^ 9) (30 * 10 ^ 9));
  readiness = alive_after (1500 * 10 ^ 6);
  storm_policy = default_storm_policy;
}

-- The handle of the current child.
pub record Child : Type 0 where
  pub pid : ℕ
  pub terminated : Bool

-- Where the loop waits: for the child, for the end of a backoff, for a spawn, or not any more. A watch
-- keeps `ready_at`, `readiness_pending`, and whether the cancellation was seen.
pub data Phase : Type 0 where
  watching : (ready_at : ℕ) (readiness_pending cancel_seen : Bool) → Phase
  backing_off : (wake_at : ℕ) → Phase
  spawning : Phase
  finished : Phase

-- The loop's variables, what it shares with its owner, and what it has given to the two hooks, the
-- latest first.
pub record Supervision : Type 0 where
  pub clock : ℕ
  pub cancelled : Bool
  pub current : Option Child
  pub ready_pending : ℕ
  pub ready_queue : List ℕ
  pub attempt : ℕ
  pub abnormal_exits : List ℕ
  pub phase : Phase
  pub events : List SupervisorEvent
  pub forwarded : List ProcessEvent

abbrev pub emit : SupervisorEvent → Supervision → Supervision
emit e s = record s { events = e ∷ s.events }

abbrev pub finish_with : SupervisorEvent → Supervision → Supervision
finish_with e s = record s { phase = finished; events = e ∷ s.events }

abbrev pub is_acknowledged : ReadinessProbe → Bool
is_acknowledged (alive_after _) = false
is_acknowledged acknowledged = true

-- The start of a watch, when `next_rx` holds a receiver.
abbrev pub watch_phase : Config → ℕ → Phase
watch_phase c now = elim c.readiness [
  | alive_after delay ↦ watching (now + delay) true false
  | acknowledged ↦ watching now true false
]

-- The state after the first spawn, which `spawn` itself awaits.
unfoldable pub start : Config → ℕ → ℕ → Supervision
start c now pid = record {
  clock = now;
  cancelled = false;
  current = some (record { pid = pid; terminated = false });
  ready_pending = if is_acknowledged c.readiness then pid else 0;
  ready_queue = [];
  attempt = 0;
  abnormal_exits = [];
  phase = watch_phase c now;
  events = started pid ∷ [];
  forwarded = [];
}

-- `SupervisorBuilder::spawn`, up to the start of the loop: whether the given token is cancelled already,
-- and what the first spawn returns.
unfoldable pub spawn_supervisor :
    Config → ℕ → Bool → Result ProcessError ℕ → Result ProcessError Supervision
unfolding start
spawn_supervisor c now is_cancelled first =
    if is_cancelled
    then err (ProcessError.engine (codes "supervisor started with cancelled token"))
    else first >>= λ pid. ok (start c now pid)
