-- ===== src/Supervisor/Loop.antt =====
-- The supervision loop of `SupervisorBuilder::spawn` in process/supervisor.rs, with
-- `acknowledge_ready` and the first half of `stop`, which other tasks call meanwhile.
--
-- The code between two awaits is one step. Which branch of a `select!` is taken is an input: a branch
-- can be taken when its condition holds, also where the code would try an earlier one first. Time
-- is counted in nanoseconds, and the owner, the child and the clock move between any two steps.
pub mod Silence
pub mod Ending
pub mod Budget
pub mod Protocol
pub mod Readiness
pub mod Window
use nyanpasu_utils.Supervisor.State.{
  Child, Config, Phase, ReadinessProbe, RestartPolicy, Supervision, SupervisorEvent, acknowledged,
  alive_after, backing_off, default_config, emit, exited, finish_with, finished, gave_up,
  is_acknowledged, never, on_failure, ready, restarting, spawn_supervisor, spawning, start, started,
  stopped, watch_phase, watching,
}
use nyanpasu_utils.Prelude.{
  ℕ, ◌*◌, ◌+◌, ◌%◌, ◌^◌, ◌≡◌, refl, Bool, true, false, not, ◌&&◌, ◌||◌, Option, none, some, List,
  [], ◌∷◌, ◌++◌, ◌-◌, ltb, leb, ◌==◌, if◌then◌else◌,
}
use nyanpasu_utils.Process.{TerminatedPayload, is_clean, ProcessEvent, ProcessError}
use nyanpasu_utils.Io.{Result, ok, err, ◌>>=◌}
use nyanpasu_utils.Supervisor.Backoff.{exponential, with_jitter}
use nyanpasu_utils.Supervisor.Storm.{default_storm_policy}
use nyanpasu_utils.Supervisor.Backoff.{Backoff, delay_for}
use nyanpasu_utils.Supervisor.Storm.{RestartStormPolicy, note_exit, is_storm}

-- One less, on 32 bits.
abbrev pub pred_u32 : ℕ → ℕ
pred_u32 n = (n + (2 ^ 32 - 1)) % 2 ^ 32

-- From `attempt += 1` to the wait for the backoff.
unfoldable pub try_restart : Config → ℕ → Supervision → Supervision
try_restart c entropy s =
    let attempt = (s.attempt + 1) % 2 ^ 32 in
    elim c.policy [
      | never ↦ record s { attempt = attempt; phase = finished }
      | on_failure max_restarts ↦
          if ltb max_restarts attempt
          then finish_with gave_up (record s { attempt = attempt })
          else (let delay = delay_for c.backoff (pred_u32 ((s.attempt + 1) % 2 ^ 32)) entropy in
              record s {
                attempt = attempt;
                phase = backing_off (s.clock + delay);
                events = restarting attempt delay ∷ s.events;
              })
    ]

abbrev pub is_never : RestartPolicy → Bool
is_never never = true
is_never (on_failure _) = false

-- An abnormal exit is noted in the window.
abbrev pub note_failure : Config → ℕ → Supervision → Supervision
note_failure c entropy s =
    let exits = note_exit c.storm_policy s.clock s.abnormal_exits in
    if is_storm c.storm_policy exits
    then finish_with gave_up (record s { abnormal_exits = exits })
    else try_restart c entropy (record s { abnormal_exits = exits })

-- What follows the inner loop, with its payload.
unfoldable pub after_exit : Config → TerminatedPayload → ℕ → Bool → Supervision → Supervision
unfolding try_restart
after_exit c payload entropy cancel_seen s =
    let s' = record s { current = none; ready_pending = 0; events = exited payload ∷ s.events } in
    if cancel_seen || s.cancelled
    then finish_with stopped s'
    else if is_clean payload || is_never c.policy
    then record s' { phase = finished }
    else note_failure c entropy s'

-- An event of the child, when it was forwarded.
unfoldable pub on_child_event : Config → ProcessEvent → ℕ → Bool → Supervision → Supervision
unfolding after_exit
on_child_event c (ProcessEvent.terminated payload) entropy cancel_seen s =
    after_exit c payload entropy cancel_seen s
on_child_event c _ entropy cancel_seen s = s

abbrev pub is_alive : Option Child → Bool
is_alive none = false
is_alive (some child) = not child.terminated

abbrev pub is_current : ℕ → Option Child → Bool
is_current pid none = false
is_current pid (some child) = child.pid == pid && not child.terminated

-- The child is ready, unless the supervision was cancelled.
abbrev pub pass_ready : ℕ → Bool → Supervision → Supervision
pass_ready ready_at cancel_seen s = record s {
  attempt = 0;
  phase = watching ready_at false cancel_seen;
  events = ready ∷ s.events;
}

-- The branch of the deadline.
unfoldable pub on_deadline : ℕ → Bool → Supervision → Supervision
on_deadline ready_at cancel_seen s =
    if is_alive s.current && not s.cancelled
    then pass_ready ready_at cancel_seen s
    else record s { phase = watching ready_at false cancel_seen }

-- The branch of an acknowledgement, of the first one in the channel.
unfoldable pub on_acknowledged : ℕ → Bool → ℕ → List ℕ → Supervision → Supervision
on_acknowledged ready_at cancel_seen pid rest s =
    let s' = record s { ready_queue = rest } in
    if is_current pid s.current && not s.cancelled then pass_ready ready_at cancel_seen s' else s'

-- The end of a spawn.
unfoldable pub on_spawned : Config → ℕ → Supervision → Supervision
on_spawned c pid s =
    let s' = record s {
      current = some (record { pid = pid; terminated = false });
      phase = watch_phase c s.clock;
    } in
    if s.cancelled then s' else record s' {
      ready_pending = if is_acknowledged c.readiness then pid else s.ready_pending;
      events = started pid ∷ s.events;
    }

-- A spawn that failed: the loop goes round without a receiver.
unfoldable pub on_spawn_failed : Config → ℕ → Supervision → Supervision
unfolding try_restart
on_spawn_failed c entropy s = if s.cancelled then finish_with stopped s else try_restart c entropy s

-- What an await of the loop brings.
pub data Input : Type 0 where
  cancel_noticed : Input
  deadline_reached : Input
  acknowledgement_received : Input
  acknowledgements_closed : Input
  child_event : (event : ProcessEvent) (entropy : ℕ) → Input
  child_events_closed : (entropy : ℕ) → Input
  slept : Input
  spawned : (pid : ℕ) → Input
  spawn_failed : (entropy : ℕ) → Input

abbrev pub watch_input : Config → ℕ → Bool → Bool → Input → Supervision → Option Supervision
watch_input c ready_at pending seen cancel_noticed s =
    if s.cancelled && not seen
    then some (record s { phase = watching ready_at false true; current = none })
    else none
watch_input c ready_at pending seen deadline_reached s =
    if pending && (not (is_acknowledged c.readiness) && leb ready_at s.clock)
    then some (on_deadline ready_at seen s)
    else none
watch_input c ready_at pending seen acknowledgement_received s = elim s.ready_queue [
  | [] ↦ none
  | pid ∷ rest ↦
      if pending && is_acknowledged c.readiness
      then some (on_acknowledged ready_at seen pid rest s)
      else none
]
watch_input c ready_at pending seen acknowledgements_closed s =
    if pending && is_acknowledged c.readiness
    then some (record s { phase = watching ready_at false seen })
    else none
watch_input c ready_at pending seen (child_event event entropy) s =
    some (on_child_event c event entropy seen (record s { forwarded = event ∷ s.forwarded }))
watch_input c ready_at pending seen (child_events_closed entropy) s =
    some (after_exit c (record { code = none; signal = none }) entropy seen s)
watch_input c ready_at pending seen slept s = none
watch_input c ready_at pending seen (spawned _) s = none
watch_input c ready_at pending seen (spawn_failed _) s = none

abbrev pub backoff_input : ℕ → Input → Supervision → Option Supervision
backoff_input wake_at cancel_noticed s = if s.cancelled then some (finish_with stopped s) else none
backoff_input wake_at slept s =
    if leb wake_at s.clock
    then some (if s.cancelled then finish_with stopped s else record s { phase = spawning })
    else none
backoff_input wake_at _ s = none

abbrev pub spawn_input : Config → Input → Supervision → Option Supervision
spawn_input c (spawned pid) s = some (on_spawned c pid s)
spawn_input c (spawn_failed entropy) s = some (on_spawn_failed c entropy s)
spawn_input c _ s = none

-- One step of the loop, where it can take one.
unfoldable pub loop_step : Config → Input → Supervision → Option Supervision
unfolding after_exit on_child_event on_deadline on_acknowledged on_spawned on_spawn_failed
loop_step c i s = elim s.phase [
  | watching ready_at pending seen ↦ watch_input c ready_at pending seen i s
  | backing_off wake_at ↦ backoff_input wake_at i s
  | spawning ↦ spawn_input c i s
  | finished ↦ none
]

-- `acknowledge_ready`; the loop keeps its receiver while it runs.
unfoldable pub acknowledge_ready : ℕ → Supervision → Bool × Supervision
acknowledge_ready pid s =
    if not (is_current pid s.current) || not (s.ready_pending == pid)
    then (false, s)
    else elim s.phase [
      | finished ↦ (false, s)
      | _ ↦ (true, record s { ready_pending = 0; ready_queue = s.ready_queue ++ pid ∷ [] })
    ]

-- The token is cancelled, by `stop`, by a drop, or through its parent.
abbrev pub cancel : Supervision → Supervision
cancel s = record s { cancelled = true }

-- `stop`, up to the wait for the loop.
abbrev pub stop : Supervision → Supervision
stop s = record s { cancelled = true; current = none }

abbrev pub terminate : Option Child → Option Child
terminate none = none
terminate (some child) = some (record child { terminated = true })

-- `stop_process`: what the two kills return, the second of which is sent if the first failed.
unfoldable pub stop_process :
    Result ProcessError (Unit {0}) → Result ProcessError (Unit {0}) → Result ProcessError (Unit {0})
stop_process (ok _) killed = ok tt
stop_process (err _) (err ProcessError.already_exited) = ok tt
stop_process (err _) killed = killed

pub data Step (c : Config) (s : Supervision) : Supervision → Type 0 where
  ticked : (d : ℕ) → Step c s (record s { clock = s.clock + d })
  child_died : Step c s (record s { current = terminate s.current })
  was_cancelled : Step c s (cancel s)
  was_stopped : Step c s (stop s)
  was_acknowledged : (pid : ℕ) → Step c s (acknowledge_ready pid s).1
  looped : (i : Input) {t : Supervision} → loop_step c i s ≡ some t → Step c s t

pub data Steps (c : Config) (s : Supervision) : Supervision → Type 0 where
  here : Steps c s s
  then_one : {t u : Supervision} → Steps c s t → Step c t u → Steps c s u
