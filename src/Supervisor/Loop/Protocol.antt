-- ===== src/Supervisor/Loop/Protocol.antt =====
-- The supervision loop of process/supervisor.rs: the order of its events.
use nyanpasu_utils.Prelude.{
  ℕ, ◌≡◌, refl, Bool, true, false, not, ◌||◌, Option, none, some, List, [], ◌∷◌, arith, ◌⊎◌, inl,
  inr, Bool-cases, sym,
}
use mathlib.Core.Path.{subst}
use mathlib.Core.Option.{some-injective}
use nyanpasu_utils.Process.{TerminatedPayload, stdout, stderr, error, terminated, is_clean}
use nyanpasu_utils.Supervisor.Storm.{note_exit, is_storm}
use nyanpasu_utils.Supervisor.State.{
  Config, SupervisorEvent, started, ready, exited, restarting, gave_up, stopped, Phase, watching,
  backing_off, spawning, finished, Supervision, start,
}
use nyanpasu_utils.Supervisor.Loop.{
  try_restart, note_failure, after_exit, on_child_event, on_deadline, on_acknowledged, on_spawned,
  on_spawn_failed, Input, cancel_noticed, deadline_reached, acknowledgement_received,
  acknowledgements_closed, child_event, child_events_closed, slept, spawned, spawn_failed,
  watch_input, backoff_input, spawn_input, loop_step, acknowledge_ready, Step, ticked, child_died,
  was_cancelled, was_stopped, was_acknowledged, looped, Steps, here, then_one, is_never,
}

-- What an owner that has seen the events so far knows.
pub data Seen : Type 0 where
  nothing up up_and_ready down waiting closed : Seen

-- The event that may come next, and what is known after it.
abbrev pub next : Seen → SupervisorEvent → Option Seen
next nothing (started _) = some up
next up ready = some up_and_ready
next up (exited _) = some down
next up_and_ready (exited _) = some down
next down (restarting _ _) = some waiting
next down gave_up = some closed
next down stopped = some closed
next waiting (started _) = some up
next waiting (restarting _ _) = some waiting
next waiting (exited _) = some down
next waiting gave_up = some closed
next waiting stopped = some closed
next _ _ = none

-- What is known after the events, the latest first, if they follow the protocol.
abbrev pub seen_after : List SupervisorEvent → Option Seen
seen_after [] = some nothing
seen_after (e ∷ events) = elim (seen_after events) [ none ↦ none | some k ↦ next k e ]

-- What an owner may know in a phase, by whether the policy never restarts.
abbrev pub fits : Bool → Phase → Bool → Seen → Bool
fits never_restarts (watching _ pending _) cancelled up = true
fits never_restarts (watching _ pending _) cancelled up_and_ready = not pending
fits never_restarts (watching _ pending _) cancelled waiting = cancelled
fits never_restarts (backing_off _) cancelled waiting = not never_restarts
fits never_restarts spawning cancelled waiting = not never_restarts
fits never_restarts finished cancelled down = true
fits never_restarts finished cancelled closed = true
fits _ _ _ _ = false

abbrev pub known_fits : Bool → Phase → Bool → Option Seen → Bool
known_fits never_restarts ph cancelled none = false
known_fits never_restarts ph cancelled (some k) = fits never_restarts ph cancelled k

-- The events follow the protocol, and agree with the phase.
abbrev pub Follows : Config → Supervision → Type 0
Follows c s = known_fits (is_never c.policy) s.phase s.cancelled (seen_after s.events) ≡ true

cancel-fits :
    (never_restarts : Bool) (ph : Phase) (cancelled : Bool) (k : Option Seen)
    → known_fits never_restarts ph cancelled k ≡ true
    → known_fits never_restarts ph true k ≡ true
cancel-fits never_restarts ph cancelled k h = ground arith

-- The owner may be told of a restart, of a surrender or of the end.
abbrev IsIdle : Option Seen → Type 0
IsIdle known = (known ≡ some down) ⊎ (known ≡ some waiting)

restart-Follows :
    (c : Config) (entropy : ℕ) (s : Supervision)
    → is_never c.policy ≡ false
    → IsIdle (seen_after s.events)
    → Follows c (try_restart c entropy s)
unfolding try_restart
restart-Follows c entropy s p (inl h) = ground arith
restart-Follows c entropy s p (inr h) = ground arith

failure-Follows :
    (c : Config) (entropy : ℕ) (s : Supervision)
    → is_never c.policy ≡ false
    → seen_after s.events ≡ some down
    → Follows c (note_failure c entropy s)
failure-Follows c entropy s p h = elim (Bool-cases storm) [
  | inl e ↦ rw e (rw h refl)
  | inr e ↦ rw e (restart-Follows c entropy (record s { abnormal_exits = exits }) p (inl h))
]
  where
    exits : List ℕ
    exits = note_exit c.storm_policy s.clock s.abnormal_exits

    storm : Bool
    storm = is_storm c.storm_policy exits

exit_is_down :
    (never_restarts : Bool) (ready_at : ℕ) (pending seen cancelled : Bool)
    (payload : TerminatedPayload) (events : List SupervisorEvent)
    → known_fits never_restarts (watching ready_at pending seen) cancelled (seen_after events)
      ≡ true
    → seen_after (exited payload ∷ events) ≡ some down
exit_is_down never_restarts ready_at pending seen cancelled payload events h = ground arith

exit-Follows :
    (c : Config) (payload : TerminatedPayload) (entropy ready_at : ℕ) (pending seen : Bool)
    (s : Supervision)
    → known_fits
        (is_never c.policy)
        (watching ready_at pending seen)
        s.cancelled
        (seen_after s.events)
      ≡ true
    → Follows c (after_exit c payload entropy seen s)
unfolding after_exit
exit-Follows c payload entropy ready_at pending seen s h = elim (Bool-cases (seen || s.cancelled)) [
  | inl e ↦ rw e (rw is_down refl)
  | inr e ↦ rw e elim (Bool-cases (is_clean payload || is_never c.policy)) [
    | inl f ↦ rw f (rw is_down refl)
    | inr f ↦ rw f (failure-Follows c entropy after (ground arith) is_down)
  ]
]
  where
    after : Supervision
    after = record s { current = none; ready_pending = 0; events = exited payload ∷ s.events }

    is_down : seen_after (exited payload ∷ s.events) ≡ some down
    is_down = exit_is_down (is_never c.policy) ready_at pending seen s.cancelled payload s.events h

watch-Follows :
    (c : Config) (ready_at : ℕ) (pending seen : Bool) (i : Input) (s t : Supervision)
    → s.phase ≡ watching ready_at pending seen
    → Follows c s
    → watch_input c ready_at pending seen i s ≡ some t
    → Follows c t
unfolding on_child_event on_deadline on_acknowledged
watch-Follows c ready_at pending seen cancel_noticed s t e h k = ground arith
watch-Follows c ready_at pending seen deadline_reached s t e h k = ground arith
watch-Follows c ready_at pending seen acknowledgement_received s t e h k = ground arith
watch-Follows c ready_at pending seen acknowledgements_closed s t e h k = ground arith
watch-Follows c ready_at pending seen (child_event (stdout _) entropy) s t e h k = ground arith
watch-Follows c ready_at pending seen (child_event (stderr _) entropy) s t e h k = ground arith
watch-Follows c ready_at pending seen (child_event (error _) entropy) s t e h k = ground arith
watch-Follows c ready_at pending seen (child_event (terminated payload) entropy) s t e h k =
    subst (Follows c) (some-injective _ _ k) (
      exit-Follows c payload entropy ready_at pending seen
        (record s { forwarded = terminated payload ∷ s.forwarded }) (rw (sym e) h))
watch-Follows c ready_at pending seen (child_events_closed entropy) s t e h k =
    subst (Follows c) (some-injective _ _ k)
      (exit-Follows c _ entropy ready_at pending seen s (rw (sym e) h))
watch-Follows c ready_at pending seen slept s t e h k = ground arith
watch-Follows c ready_at pending seen (spawned pid) s t e h k = ground arith
watch-Follows c ready_at pending seen (spawn_failed entropy) s t e h k = ground arith

backoff-Follows :
    (c : Config) (wake_at : ℕ) (i : Input) (s t : Supervision)
    → s.phase ≡ backing_off wake_at
    → Follows c s
    → backoff_input wake_at i s ≡ some t
    → Follows c t
backoff-Follows c wake_at i s t e h k = ground arith

spawned-Follows :
    (c : Config) (pid : ℕ) (s : Supervision)
    → s.phase ≡ spawning
    → Follows c s
    → Follows c (on_spawned c pid s)
unfolding on_spawned
spawned-Follows c pid s e h = ground arith

failed-Follows :
    (c : Config) (entropy : ℕ) (s : Supervision)
    → s.phase ≡ spawning
    → Follows c s
    → Follows c (on_spawn_failed c entropy s)
unfolding on_spawn_failed
failed-Follows c entropy s e h = elim (Bool-cases s.cancelled) [
  | inl f ↦ rw f (ground arith)
  | inr f ↦
      subst (Follows c) {x = try_restart c entropy s} {y = on_spawn_failed c entropy s} (rw f refl)
        (restart-Follows c entropy s (ground arith) (inr (ground arith)))
]

spawn-Follows :
    (c : Config) (i : Input) (s t : Supervision)
    → s.phase ≡ spawning
    → Follows c s
    → spawn_input c i s ≡ some t
    → Follows c t
spawn-Follows c (spawned pid) s t e h k =
    subst (Follows c) (some-injective _ _ k) (spawned-Follows c pid s e h)
spawn-Follows c (spawn_failed entropy) s t e h k =
    subst (Follows c) (some-injective _ _ k) (failed-Follows c entropy s e h)
spawn-Follows c _ s t e h k = ground arith

loop-Follows :
    (c : Config) (i : Input) (ph : Phase) (s t : Supervision)
    → s.phase ≡ ph
    → Follows c s
    → loop_step c i s ≡ some t
    → Follows c t
unfolding loop_step
loop-Follows c i (watching ready_at pending seen) s t e h k =
    watch-Follows c ready_at pending seen i s t e h (ground arith)
loop-Follows c i (backing_off wake_at) s t e h k =
    backoff-Follows c wake_at i s t e h (ground arith)
loop-Follows c i spawning s t e h k = spawn-Follows c i s t e h (ground arith)
loop-Follows c i finished s t e h k = ground arith

acknowledge-Follows :
    (c : Config) (pid : ℕ) (s : Supervision) → Follows c s → Follows c (acknowledge_ready pid s).1
unfolding acknowledge_ready
acknowledge-Follows c pid s h = ground arith

Step-Follows : (c : Config) {s t : Supervision} → Step c s t → Follows c s → Follows c t
Step-Follows c (ticked d) h = h
Step-Follows c child_died h = h
Step-Follows c {s} was_cancelled h =
    cancel-fits (is_never c.policy) s.phase s.cancelled (seen_after s.events) h
Step-Follows c {s} was_stopped h =
    cancel-fits (is_never c.policy) s.phase s.cancelled (seen_after s.events) h
Step-Follows c {s} (was_acknowledged pid) h = acknowledge-Follows c pid s h
Step-Follows c {s} {t} (looped i k) h = loop-Follows c i s.phase s t refl h k

Steps-Follows : (c : Config) {s t : Supervision} → Steps c s t → Follows c s → Follows c t
Steps-Follows c here h = h
Steps-Follows c (then_one steps step) h = Step-Follows c step (Steps-Follows c steps h)

start-Follows : (c : Config) (now pid : ℕ) → Follows c (start c now pid)
unfolding start
start-Follows c now pid = ground arith

-- Whatever the owner, the child and the system do, the events of a supervision follow the protocol:
-- readiness comes after the announcement of its child, once at most; an exit after the announcement
-- of a child or of a restart; a restart after an exit or another restart; and nothing after a
-- surrender or a stop. The events also agree with the phase of the loop.
pub events_follow :
    (c : Config) (now pid : ℕ) (t : Supervision) → Steps c (start c now pid) t → Follows c t
events_follow c now pid t steps = Steps-Follows c steps (start-Follows c now pid)
