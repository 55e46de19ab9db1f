-- ===== src/Engine/Pump/Patience.antt =====
-- `pump` of process/engine.rs: how long it waits for a receiver once the process is dying.
use mathlib.Core.Path.{subst}
use mathlib.Core.Option.{some-injective}
use nyanpasu_utils.Prelude.{
  ℕ, ◌-◌, ◌+◌, ◌≤◌, ◌≡◌, refl, Bool, true, false, not, ◌&&◌, ◌||◌, Option, none, some, List, [],
  ◌∷◌, leb, arith, Bool-cases, inl, inr,
}
use nyanpasu_utils.Process.{ProcessEvent}
use nyanpasu_utils.Engine.Control.{Handled}
use nyanpasu_utils.Engine.Finish.{FinishOutput, FinishResult}
use nyanpasu_utils.Engine.PumpState.{
  PumpParts, Stage, pumping, finishing, flushing, ended, Pump, start_pump, has_none,
  dying_event_stall,
}
use nyanpasu_utils.Engine.Pump.{
  take_ctrl, take_output, take_finish, start_flush, end_output, next_round, rounds, enter_flush,
  entered, Input, mark_kill, set_stall, kill_now, ctrl_received, hard_deadline, finished,
  stall_deadline, permitted, output_ended, flush_deadline, pump_input, finishing_input, flush_input,
  pump_step, PumpSteps, here, after_time, then_one,
}

-- A moment at most a stall away.
abbrev soon : Option ℕ → ℕ → Bool
soon none now = false
soon (some d) now = leb d (now + dying_event_stall)

-- An event of the output waits only while somebody listens and output is kept, and not for long once
-- the process is dying, before which no deadline is set; nor do the last events.
abbrev patient : Pump → Bool
patient s = elim s.stage [
  | pumping ↦
      (s.dying || has_none s.drop_pending_at)
      && (has_none s.pending_event
          || (s.events_open
              && (not s.drop_output && (not s.dying || soon s.drop_pending_at s.clock))))
  | finishing ↦ true
  | flushing left deadline ↦ leb deadline (s.clock + dying_event_stall)
  | ended ↦ true
]

abbrev IsPatient : Pump → Type 0
IsPatient s = patient s ≡ true

round-IsPatient : (s : Pump) → IsPatient s → IsPatient (next_round s)
round-IsPatient s h = ground arith

end_output-IsPatient :
    (out : Option FinishOutput) (s : Pump)
    → s.finish_output ≡ out
    → IsPatient (enter_flush (end_output s))
unfolding end_output start_flush
end_output-IsPatient none s f = ground arith
end_output-IsPatient (some out) s f = ground arith

-- A process that begins to die gives the event that waits a deadline.
stall-IsPatient :
    (p : Option ProcessEvent) (d : Option ℕ) (s : Pump)
    → s.pending_event ≡ p
    → s.drop_pending_at ≡ d
    → s.stage ≡ pumping
    → IsPatient s
    → IsPatient (enter_flush (set_stall s))
stall-IsPatient none d s e f g h = ground arith
stall-IsPatient (some x) none s e f g h = ground arith
stall-IsPatient (some x) (some d) s e f g h = ground arith

finish-IsPatient :
    (p : Option ProcessEvent) (d : Option ℕ) (result : FinishResult) (s : Pump)
    → s.pending_event ≡ p
    → s.drop_pending_at ≡ d
    → s.stage ≡ pumping
    → IsPatient s
    → IsPatient (enter_flush (take_finish result (set_stall s)))
unfolding take_finish
finish-IsPatient none d result s e f g h = ground arith
finish-IsPatient (some x) none result s e f g h = ground arith
finish-IsPatient (some x) (some d) result s e f g h = ground arith

mark-IsPatient :
    (h : Handled) (s : Pump)
    → s.stage ≡ pumping
    → IsPatient s
    → IsPatient (enter_flush (mark_kill (h, s)))
mark-IsPatient h s e p = elim (Bool-cases h.is_kill) [
  | inl k ↦ rw k (stall-IsPatient s.pending_event s.drop_pending_at s refl refl e p)
  | inr k ↦ rw k (ground arith)
]

pump_input-IsPatient :
    (parts : PumpParts) (i : Input) (s t : Pump)
    → s.stage ≡ pumping
    → IsPatient s
    → pump_input parts i s ≡ some t
    → IsPatient (enter_flush t)
unfolding pump_input take_ctrl take_output take_finish
pump_input-IsPatient parts output_ended s t e h k =
    subst (λ u. IsPatient (enter_flush u)) {x = end_output s} {y = t} (ground arith)
      (end_output-IsPatient s.finish_output s refl)
pump_input-IsPatient parts (ctrl_received c a) s t e h k =
    subst (λ u. IsPatient (enter_flush u)) {x = mark_kill (take_ctrl parts c a s)} {y = t}
      (ground arith) (mark-IsPatient (take_ctrl parts c a s).0 (take_ctrl parts c a s).1 e h)
pump_input-IsPatient parts hard_deadline s t e h k =
    subst (λ u. IsPatient (enter_flush u)) {x = set_stall (kill_now s)} {y = t} (ground arith)
      (stall-IsPatient s.pending_event s.drop_pending_at (kill_now s) refl refl e h)
pump_input-IsPatient parts (finished result) s t e h k =
    subst (λ u. IsPatient (enter_flush u)) {x = take_finish result (set_stall s)} {y = t}
      (ground arith) (finish-IsPatient s.pending_event s.drop_pending_at result s refl refl e h)
pump_input-IsPatient parts i s t e h k = ground arith

finishing_input-IsPatient :
    (parts : PumpParts) (i : Input) (s t : Pump)
    → s.stage ≡ finishing
    → finishing_input parts i s ≡ some t
    → IsPatient (enter_flush t)
unfolding finishing_input take_ctrl take_finish start_flush
finishing_input-IsPatient parts (finished result) s t e k =
    subst (λ u. IsPatient (enter_flush u)) (some-injective _ _ k) (ground arith)
finishing_input-IsPatient parts i s t e k = ground arith

flush_input-IsPatient :
    (parts : PumpParts) (left : List ProcessEvent) (deadline : ℕ) (i : Input) (s t : Pump)
    → s.stage ≡ flushing left deadline
    → IsPatient s
    → flush_input parts left deadline i s ≡ some t
    → IsPatient t
unfolding flush_input take_ctrl
flush_input-IsPatient parts (x ∷ left) deadline permitted s t e h k = ground arith
flush_input-IsPatient parts left deadline i s t e h k = ground arith

rounds-IsPatient :
    (o : Option Pump) (t : Pump)
    → ((u : Pump) → o ≡ some u → IsPatient (enter_flush u))
    → rounds (entered o) ≡ some t
    → IsPatient t
rounds-IsPatient none t h k = cc
rounds-IsPatient (some u) t h k =
    subst IsPatient (some-injective _ _ k) (round-IsPatient (enter_flush u) (h u refl))

step-IsPatient :
    (parts : PumpParts) (i : Input) (stage : Stage) (s t : Pump)
    → s.stage ≡ stage
    → IsPatient s
    → pump_step parts i s ≡ some t
    → IsPatient t
unfolding pump_step
step-IsPatient parts i pumping s t e h k =
    rounds-IsPatient (pump_input parts i s) t (λ u f. pump_input-IsPatient parts i s u e h f)
      (ground arith)
step-IsPatient parts i finishing s t e h k =
    rounds-IsPatient (finishing_input parts i s) t
      (λ u f. finishing_input-IsPatient parts i s u e f) (ground arith)
step-IsPatient parts i (flushing left deadline) s t e h k =
    flush_input-IsPatient parts left deadline i s t e h (ground arith)
step-IsPatient parts i ended s t e h k = ground arith

time-IsPatient : (d : ℕ) (s : Pump) → IsPatient s → IsPatient (record s { clock = s.clock + d })
time-IsPatient d s h = ground arith

steps-IsPatient : (parts : PumpParts) {s t : Pump} → PumpSteps parts s t → IsPatient s → IsPatient t
steps-IsPatient parts here h = h
steps-IsPatient parts (after_time {t} d steps) h =
    time-IsPatient d t (steps-IsPatient parts steps h)
steps-IsPatient parts (then_one {t} {u} i steps k) h =
    step-IsPatient parts i t.stage t u refl (steps-IsPatient parts steps h) k

-- The pump waits for its receiver while the process dies, or with the last events.
abbrev pub awaits : Pump → Bool
awaits s = elim s.stage [
  | pumping ↦ s.dying && not (has_none s.pending_event)
  | finishing ↦ false
  | flushing left deadline ↦ true
  | ended ↦ false
]

-- The input by which the pump gives up on its receiver.
abbrev pub give_up : Stage → Input
give_up (flushing left deadline) = flush_deadline
give_up _ = stall_deadline

abbrev is_end : Stage → Bool
is_end ended = true
is_end _ = false

-- Whether a step was taken after which nothing waits: output is dropped from then on, or the pump has
-- ended.
abbrev pub gave_up : Stage → Option Pump → Bool
gave_up stage none = false
gave_up (flushing left deadline) (some t) = is_end t.stage
gave_up _ (some t) = has_none t.pending_event && t.drop_output

abbrev pub later : ℕ → Pump → Pump
later d s = record s { clock = s.clock + d }

-- A pump that awaits can give up within the stall.
abbrev GivesUp : PumpParts → Stage → Pump → Type 0
GivesUp parts stage s =
    (wait : ℕ) × (wait ≤ dying_event_stall)
    × (gave_up stage (pump_step parts (give_up stage) (later wait s)) ≡ true)

drops :
    (parts : PumpParts) (p : Option ProcessEvent) (d : Option ℕ) (s : Pump)
    → s.pending_event ≡ p
    → s.drop_pending_at ≡ d
    → s.stage ≡ pumping
    → IsPatient s
    → awaits s ≡ true
    → GivesUp parts pumping s
unfolding pump_step pump_input
drops parts none d s e f g h a = absurd (ground arith)
drops parts (some x) none s e f g h a = absurd (ground arith)
drops parts (some x) (some d) s e f g h a = (d - s.clock, ground arith, ground arith)

ends :
    (parts : PumpParts) (left : List ProcessEvent) (deadline : ℕ) (s : Pump)
    → s.stage ≡ flushing left deadline
    → IsPatient s
    → GivesUp parts (flushing left deadline) s
unfolding pump_step flush_input
ends parts [] deadline s e h = (deadline - s.clock, ground arith, ground arith)
ends parts (x ∷ left) deadline s e h = (deadline - s.clock, ground arith, ground arith)

gives_up :
    (parts : PumpParts) (stage : Stage) (s : Pump)
    → s.stage ≡ stage
    → IsPatient s
    → awaits s ≡ true
    → GivesUp parts stage s
gives_up parts pumping s e h a = drops parts s.pending_event s.drop_pending_at s refl refl e h a
gives_up parts finishing s e h a = absurd (ground arith)
gives_up parts (flushing left deadline) s e h a = ends parts left deadline s e h
gives_up parts ended s e h a = absurd (ground arith)

-- A receiver that stops listening cannot hold up a dying process: whenever the pump waits for its
-- receiver while the process dies, or with the last events, it can give up at a moment five seconds
-- away at most. Output is dropped from then on, or the pump has ended.
pub receiver_cannot_stall :
    (parts : PumpParts) (now : ℕ) (s : Pump)
    → PumpSteps parts (start_pump parts now) s
    → awaits s ≡ true
    → (wait : ℕ) × (wait ≤ dying_event_stall)
      × (gave_up s.stage (pump_step parts (give_up s.stage) (later wait s)) ≡ true)
receiver_cannot_stall parts now s steps a =
    gives_up parts s.stage s refl (steps-IsPatient parts steps (unfold start_pump in refl)) a
