-- ===== src/Supervisor/Loop/Ending.antt =====
-- The end of a supervision that is cancelled: how many steps of the loop are left.
use nyanpasu_utils.Prelude.{
  ℕ, suc, ◌+◌, ◌≤◌, ◌≡◌, ◌⊎◌, inl, inr, Bool, true, false, Option, none, some, ◌&&◌, [], ◌∷◌,
  length, arith, if◌then◌else◌, Bool-cases, length-append,
}
use nyanpasu_utils.Process.{ProcessEvent, TerminatedPayload, terminated}
use nyanpasu_utils.Supervisor.State.{
  Child, Config, Phase, watching, backing_off, spawning, finished, Supervision,
}
use nyanpasu_utils.Supervisor.Loop.{
  after_exit, on_child_event, on_deadline, on_acknowledged, on_spawned, on_spawn_failed, Input,
  child_event, child_events_closed, cancel_noticed, spawned, spawn_failed, loop_step,
  acknowledge_ready, Step, ticked, child_died, was_cancelled, was_stopped, was_acknowledged, looped,
  Steps, here, then_one,
}
use nyanpasu_utils.Supervisor.Loop.Silence.{
  is_over, ends_stopped, over-Step, still_cancelled, cancelled_stops,
}

-- Output of the child, which the loop forwards.
abbrev pub is_output : Input → Bool
is_output (child_event (ProcessEvent.terminated _) _) = false
is_output (child_event _ _) = true
is_output _ = false

abbrev bit : Bool → ℕ
bit true = 1
bit false = 0

-- How many steps a phase may still take, once the token is cancelled.
abbrev phase_rank : Phase → ℕ
phase_rank (watching ready_at pending seen) = 1 + bit pending + bit (if seen then false else true)
phase_rank (backing_off wake_at) = 1
phase_rank spawning = 4
phase_rank finished = 0

abbrev rank : Supervision → ℕ
rank s = phase_rank s.phase + length s.ready_queue

-- The steps of the loop that forward no output, and the acknowledgements, in a run.
pub loop_steps : {c : Config} {s t : Supervision} → Steps c s t → ℕ
loop_steps here = 0
loop_steps (then_one steps (looped i _)) =
    let n = loop_steps steps in if is_output i then n else suc n
loop_steps (then_one steps _) = loop_steps steps

pub acknowledgements : {c : Config} {s t : Supervision} → Steps c s t → ℕ
acknowledgements here = 0
acknowledgements (then_one steps (was_acknowledged _)) = suc (acknowledgements steps)
acknowledgements (then_one steps _) = acknowledgements steps

loop-rank :
    (c : Config) (i : Input) (s t : Supervision)
    → s.cancelled ≡ true
    → loop_step c i s ≡ some t
    → is_over t.phase ≡ false
    → rank t + (if is_output i then 0 else 1) ≤ rank s
unfolding loop_step after_exit on_child_event on_deadline on_acknowledged on_spawned on_spawn_failed
loop-rank c i s t h k o = ground arith

ack-rank : (pid : ℕ) (s : Supervision) → rank (acknowledge_ready pid s).1 ≤ suc (rank s)
unfolding acknowledge_ready
ack-rank pid s = ground (arith, length-append s.ready_queue (pid ∷ []))

-- A run that has not ended had not ended before.
not_over :
    (c : Config) {s t : Supervision}
    → Step c s t
    → is_over t.phase ≡ false
    → is_over s.phase ≡ false
not_over c {s} step o = elim (Bool-cases (is_over s.phase)) [
  | inl e ↦ absurd (cc ((over-Step c step e).1))
  | inr e ↦ e
]

bounded :
    (c : Config) {s t : Supervision} (steps : Steps c s t)
    → s.cancelled ≡ true
    → is_over t.phase ≡ false
    → loop_steps steps + rank t ≤ rank s + acknowledgements steps
unfolding loop_steps acknowledgements
bounded c here h o = omega arith
bounded c (then_one steps (ticked d)) h o = bounded c steps h o
bounded c (then_one steps child_died) h o = bounded c steps h o
bounded c (then_one steps was_cancelled) h o = bounded c steps h o
bounded c (then_one steps was_stopped) h o = bounded c steps h o
bounded c (then_one {t} steps (was_acknowledged pid)) h o =
    omega (arith, bounded c steps h (not_over c (was_acknowledged pid) o), ack-rank pid t)
bounded c (then_one {t} {u} steps (looped i k)) h o = ground (
  arith,
  bounded c steps h (not_over c (looped i k) o),
  loop-rank c i t u (still_cancelled c steps h) k o,
)

rank_start : (s : Supervision) → rank s ≤ 4 + length s.ready_queue
rank_start s = ground arith

rank_left : (s : Supervision) → is_over s.phase ≡ false → 1 ≤ rank s
rank_left s o = ground arith

-- The step was taken, and the supervision has ended with the event that says so.
abbrev ends : Option Supervision → Bool
ends none = false
ends (some t) = is_over t.phase && ends_stopped t.events

abbrev is_dropped : Option Child → Bool
is_dropped none = true
is_dropped (some _) = false

module _ (c : Config) (payload : TerminatedPayload) (entropy pid : ℕ) where
  -- Both the exit of the child and the end of its events end the supervision.
  abbrev ends_on_exit : Supervision → Bool
  ends_on_exit t =
      ends (loop_step c (child_events_closed entropy) t)
      && ends (loop_step c (child_event (terminated payload) entropy) t)

  -- The step was taken, has dropped the child, and its exit is the end.
  abbrev lets_go : Option Supervision → Bool
  lets_go none = false
  lets_go (some t) = is_dropped t.current && ends_on_exit t

  abbrev notices : Option Supervision → Bool
  notices none = false
  notices (some t) = lets_go (loop_step c cancel_noticed t)

  -- By what the loop awaits, how the supervision comes to its end: while it watches, the cancellation is
  -- noticed, once, and drops the child, whose exit ends it; in a backoff the cancellation ends it; a
  -- spawn ends it if it fails, and otherwise its child is watched and dropped in turn.
  abbrev pub can_end : Supervision → Bool
  can_end t = elim t.phase [
    | watching ready_at pending seen ↦
        if seen then ends_on_exit t else lets_go (loop_step c cancel_noticed t)
    | backing_off wake_at ↦ ends (loop_step c cancel_noticed t)
    | spawning ↦
        ends (loop_step c (spawn_failed entropy) t) && notices (loop_step c (spawned pid) t)
    | finished ↦ false
  ]

  cancelled-can_end :
      (t : Supervision) → t.cancelled ≡ true → is_over t.phase ≡ false → can_end t ≡ true
  unfolding loop_step after_exit on_child_event on_spawned on_spawn_failed
  cancelled-can_end t h o = ground arith

-- A supervision that is cancelled while it runs ends soon, with the event that says so: after any run,
-- it has ended so; or its loop has made at most three steps besides the forwarding of output, and one
-- for each acknowledgement that waited or came, and a step towards the end is open: the loop notices
-- the cancellation, drops its child and ends with its exit, ends out of a backoff, or ends after the
-- spawn under way, whether that fails or starts a child.
pub cancelled_ends :
    (c : Config) (payload : TerminatedPayload) (entropy pid : ℕ) (s t : Supervision)
    (steps : Steps c s t)
    → s.cancelled ≡ true
    → is_over s.phase ≡ false
    → ((is_over t.phase ≡ true) × (ends_stopped t.events ≡ true))
      ⊎ ((loop_steps steps ≤ 3 + length s.ready_queue + acknowledgements steps)
          × (can_end c payload entropy pid t ≡ true))
cancelled_ends c payload entropy pid s t steps h running = elim (Bool-cases (is_over t.phase)) [
  | inl e ↦ inl (e, cancelled_stops c s t h running steps e)
  | inr e ↦ inr (
    omega (arith, bounded c steps h e, rank_start s, rank_left t e),
    cancelled-can_end c payload entropy pid t (still_cancelled c steps h) e,
  )
]
