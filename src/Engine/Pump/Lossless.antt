-- ===== src/Engine/Pump/Lossless.antt =====
-- `pump` of process/engine.rs: the lines of output and the count of dropped events.
use mathlib.Core.Path.{subst}
use mathlib.Core.Option.{some-injective}
use nyanpasu_utils.Prelude.{
  length, ◌<◌, ◌==◌, ℕ, ◌+◌, ◌≡◌, refl, ◌⊎◌, inl, inr, Bool, true, false, ◌&&◌, Option, none, some,
  List, ◌∷◌, arith,
}
use nyanpasu_utils.Process.{ProcessEvent}
use nyanpasu_utils.Engine.PumpState.{
  PumpParts, Stage, pumping, finishing, flushing, ended, Pump, start_pump,
}
use nyanpasu_utils.Engine.Pump.{
  take_ctrl, take_output, take_finish, start_flush, end_output, next_round, rounds, enter_flush,
  entered, Input, ctrl_received, ctrl_closed, hard_deadline, finished, stall_deadline, permitted,
  receiver_closed, output_line, other_output, output_ended, flush_deadline, pump_input,
  finishing_input, flush_input, pump_step, PumpSteps, here, after_time, then_one,
}

-- The delivered events with the one that waits, the latest first.
abbrev pub with_pending : Option ProcessEvent → List ProcessEvent → List ProcessEvent
with_pending none delivered = delivered
with_pending (some e) delivered = e ∷ delivered

abbrev pub is_early : Stage → Bool
is_early pumping = true
is_early finishing = true
is_early _ = false

-- Either the receiver is gone or the output has been handed on, or every line that was taken in was
-- delivered, waits, or was counted; and if none was counted, they are the same in the same order.
abbrev Kept : Pump → Type 0
Kept s =
    (s.events_open ≡ false)
    ⊎ (is_early s.stage ≡ false)
    ⊎ ((length s.taken
          ≡ length (with_pending s.pending_event s.delivered) + s.dropped_output_events)
        × ((s.drop_output && (s.dropped_output_events == 0)) ≡ false)
        × ((0 < s.dropped_output_events) ⊎ (with_pending s.pending_event s.delivered ≡ s.taken)))

pump_input-Kept :
    (parts : PumpParts) (i : Input) (s t : Pump)
    → s.stage ≡ pumping
    → Kept s
    → pump_input parts i s ≡ some t
    → Kept (next_round (enter_flush t))
unfolding pump_input take_ctrl take_output take_finish end_output start_flush
pump_input-Kept parts (ctrl_received c a) s t e h k = ground arith
pump_input-Kept parts ctrl_closed s t e h k = ground arith
pump_input-Kept parts hard_deadline s t e h k = ground arith
pump_input-Kept parts (finished result) s t e h k = ground arith
pump_input-Kept parts stall_deadline s t e h k = ground arith
pump_input-Kept parts permitted s t e h k = ground arith
pump_input-Kept parts receiver_closed s t e h k = ground arith
pump_input-Kept parts (output_line is_stderr text) s t e h k = ground arith
pump_input-Kept parts other_output s t e h k = ground arith
pump_input-Kept parts output_ended s t e h k = ground arith
pump_input-Kept parts flush_deadline s t e h k = ground arith

finishing_input-Kept :
    (parts : PumpParts) (i : Input) (s t : Pump)
    → s.stage ≡ finishing
    → Kept s
    → finishing_input parts i s ≡ some t
    → Kept (next_round (enter_flush t))
unfolding finishing_input take_ctrl take_finish start_flush
finishing_input-Kept parts i s t e h k = ground arith

flush_input-Kept :
    (parts : PumpParts) (left : List ProcessEvent) (deadline : ℕ) (i : Input) (s t : Pump)
    → s.stage ≡ flushing left deadline
    → flush_input parts left deadline i s ≡ some t
    → is_early t.stage ≡ false
unfolding flush_input take_ctrl
flush_input-Kept parts left deadline i s t e k = ground arith

rounds-Kept :
    (o : Option Pump) (t : Pump)
    → ((u : Pump) → o ≡ some u → Kept (next_round (enter_flush u)))
    → rounds (entered o) ≡ some t
    → Kept t
rounds-Kept none t h k = cc
rounds-Kept (some u) t h k = subst Kept (some-injective _ _ k) (h u refl)

step-Kept :
    (parts : PumpParts) (i : Input) (stage : Stage) (s t : Pump)
    → s.stage ≡ stage
    → Kept s
    → pump_step parts i s ≡ some t
    → Kept t
unfolding pump_step
step-Kept parts i pumping s t e h k =
    rounds-Kept (pump_input parts i s) t (λ u f. pump_input-Kept parts i s u e h f) (ground arith)
step-Kept parts i finishing s t e h k =
    rounds-Kept (finishing_input parts i s) t (λ u f. finishing_input-Kept parts i s u e h f)
      (ground arith)
step-Kept parts i (flushing left deadline) s t e h k =
    inr (inl (flush_input-Kept parts left deadline i s t e (ground arith)))
step-Kept parts i ended s t e h k = ground arith

steps-Kept : (parts : PumpParts) {s t : Pump} → PumpSteps parts s t → Kept s → Kept t
steps-Kept parts here h = h
steps-Kept parts (after_time d steps) h = steps-Kept parts steps h
steps-Kept parts (then_one {t} {u} i steps k) h =
    step-Kept parts i t.stage t u refl (steps-Kept parts steps h) k

start-Kept : (parts : PumpParts) (now : ℕ) → Kept (start_pump parts now)
unfolding start_pump
start-Kept parts now = inr (inr (refl, refl, inr refl))

-- Until the output has been handed on, and while the receiver listens, every line that was taken in
-- was delivered, or waits, or was counted as dropped.
pub accounted :
    (parts : PumpParts) (now : ℕ) (t : Pump)
    → PumpSteps parts (start_pump parts now) t
    → t.events_open ≡ true
    → is_early t.stage ≡ true
    → length t.taken ≡ length (with_pending t.pending_event t.delivered) + t.dropped_output_events
accounted parts now t steps o e = ground (arith, steps-Kept parts steps (start-Kept parts now))

-- Until the output has been handed on, while the receiver listens and nothing was dropped, the
-- lines were delivered in the order in which they were taken in, all but one that waits at most.
pub lossless :
    (parts : PumpParts) (now : ℕ) (t : Pump)
    → PumpSteps parts (start_pump parts now) t
    → t.events_open ≡ true
    → is_early t.stage ≡ true
    → t.dropped_output_events ≡ 0
    → with_pending t.pending_event t.delivered ≡ t.taken
lossless parts now t steps o e n = ground (arith, steps-Kept parts steps (start-Kept parts now))
