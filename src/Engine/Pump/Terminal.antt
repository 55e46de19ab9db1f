-- ===== src/Engine/Pump/Terminal.antt =====
-- `pump` of process/engine.rs: the status it publishes and the terminal event.
use mathlib.Core.Path.{subst}
use mathlib.Core.Option.{some-injective}
use nyanpasu_utils.Prelude.{
  ℕ, ◌≡◌, refl, Bool, true, false, not, ◌&&◌, ◌||◌, Option, none, some, List, [], ◌∷◌, Bytes,
  if◌then◌else◌, arith,
}
use nyanpasu_utils.Process.{ProcessEvent, terminated}
use nyanpasu_utils.Engine.Finish.{FinishOutput, normalize_finish, terminal_events}
use nyanpasu_utils.Engine.PumpState.{
  PumpParts, Stage, pumping, finishing, flushing, ended, Pump, start_pump, has_none,
}
use nyanpasu_utils.Engine.Pump.{
  take_ctrl, take_output, take_finish, start_flush, end_output, next_round, rounds, enter_flush,
  entered, flushed, Input, ctrl_received, ctrl_closed, hard_deadline, finished, stall_deadline,
  permitted, receiver_closed, output_line, other_output, output_ended, flush_deadline, pump_input,
  finishing_input, flush_input, pump_step, PumpSteps, here, after_time, then_one,
}

abbrev pub is_terminated : ProcessEvent → Bool
is_terminated (terminated _) = true
is_terminated _ = false

-- None of the events says that the process has terminated.
pub no_terminated : List ProcessEvent → Bool
no_terminated [] = true
no_terminated (e ∷ events) = let rest = no_terminated events in not (is_terminated e) && rest

-- At most the latest event, the first of the list, says so.
abbrev pub only_latest : List ProcessEvent → Bool
only_latest [] = true
only_latest (e ∷ events) = no_terminated events

-- The last event of a queue says so, and no other.
closes : List ProcessEvent → Bool
closes [] = false
closes (e ∷ events) =
    let rest = closes events in
    elim events [ [] ↦ is_terminated e | _ ∷ _ ↦ not (is_terminated e) && rest ]

abbrev pub has_one : {A : Type 0} → List A → Bool
has_one (_ ∷ []) = true
has_one _ = false

abbrev pub is_ended : Stage → Bool
is_ended ended = true
is_ended _ = false

abbrev pub is_nil : {A : Type 0} → List A → Bool
is_nil [] = true
is_nil (_ ∷ _) = false

abbrev is_plain : Option ProcessEvent → Bool
is_plain none = true
is_plain (some e) = not (is_terminated e)

-- What holds in each stage.
abbrev stage_sound : Pump → Bool
stage_sound s = elim s.stage [
  | pumping ↦
      (is_plain s.pending_event && no_terminated s.delivered)
      && (if has_none s.finish_output then is_nil s.published else has_one s.published)
  | finishing ↦ (has_none s.finish_output && is_nil s.published) && no_terminated s.delivered
  | flushing left _ ↦
      (s.cleaned && has_one s.published) && (no_terminated s.delivered && closes left)
  | ended ↦ (s.cleaned && has_one s.published) && only_latest s.delivered
]

terminal_closes : (out : FinishOutput) (n : ℕ) → closes (terminal_events out n) ≡ true
unfolding terminal_events closes
terminal_closes out n = go out.stderr_tail
  where
    go : (ls : List Bytes) → closes (terminal_events (record out { stderr_tail = ls }) n) ≡ true
    go [] = ground arith
    go (l ∷ ls) = ground (arith, go ls)

abbrev IsSound : Pump → Type 0
IsSound s = stage_sound s ≡ true

no_terminated-latest :
    (events : List ProcessEvent) → no_terminated events ≡ true → only_latest events ≡ true
unfolding no_terminated
no_terminated-latest [] h = refl
no_terminated-latest (e ∷ events) h = ground arith

start_flush-IsSound :
    (out : FinishOutput) (s : Pump)
    → has_one s.published ≡ true
    → no_terminated s.delivered ≡ true
    → IsSound (enter_flush (start_flush out s))
unfolding start_flush
start_flush-IsSound out s h k =
    ground (arith, terminal_closes out s.dropped_output_events, no_terminated-latest s.delivered k)

round-IsSound : (s : Pump) → IsSound s → IsSound (next_round s)
round-IsSound s h = ground arith

end_output-IsSound :
    (out : Option FinishOutput) (s : Pump)
    → s.finish_output ≡ out
    → s.stage ≡ pumping
    → IsSound s
    → IsSound (enter_flush (end_output s))
unfolding end_output
end_output-IsSound none s f e h = ground arith
end_output-IsSound (some out) s f e h =
    subst (λ u. IsSound (enter_flush u)) {x = start_flush out s} {y = end_output s} (ground arith)
      (start_flush-IsSound out s (ground arith) (ground arith))

pump_input-IsSound :
    (parts : PumpParts) (i : Input) (s t : Pump)
    → s.stage ≡ pumping
    → IsSound s
    → pump_input parts i s ≡ some t
    → IsSound (enter_flush t)
unfolding pump_input take_ctrl take_output take_finish no_terminated
pump_input-IsSound parts (ctrl_received c a) s t e h k = ground arith
pump_input-IsSound parts ctrl_closed s t e h k = ground arith
pump_input-IsSound parts hard_deadline s t e h k = ground arith
pump_input-IsSound parts (finished result) s t e h k = ground arith
pump_input-IsSound parts stall_deadline s t e h k = ground arith
pump_input-IsSound parts permitted s t e h k = ground arith
pump_input-IsSound parts receiver_closed s t e h k = ground arith
pump_input-IsSound parts (output_line is_stderr text) s t e h k = ground arith
pump_input-IsSound parts other_output s t e h k = ground arith
pump_input-IsSound parts output_ended s t e h k =
    subst (λ u. IsSound (enter_flush u)) {x = end_output s} {y = t} (ground arith)
      (end_output-IsSound s.finish_output s refl e h)
pump_input-IsSound parts flush_deadline s t e h k = ground arith

finishing_input-IsSound :
    (parts : PumpParts) (i : Input) (s t : Pump)
    → s.stage ≡ finishing
    → IsSound s
    → finishing_input parts i s ≡ some t
    → IsSound (enter_flush t)
unfolding finishing_input take_ctrl take_finish
finishing_input-IsSound parts (finished result) s t e h k =
    subst (λ u. IsSound (enter_flush u)) (some-injective _ _ k)
      (start_flush-IsSound (normalize_finish result) (take_finish result s) (ground arith)
        (ground arith))
finishing_input-IsSound parts i s t e h k = ground arith

flushed-IsSound :
    (left : List ProcessEvent) (deadline : ℕ) (s : Pump)
    → s.cleaned ≡ true
    → has_one s.published ≡ true
    → no_terminated s.delivered ≡ true
    → closes left ≡ true
    → IsSound (flushed left deadline s)
unfolding closes
flushed-IsSound left deadline s c p d l = ground (arith, no_terminated-latest s.delivered d)

flush_input-IsSound :
    (parts : PumpParts) (left : List ProcessEvent) (deadline : ℕ) (i : Input) (s t : Pump)
    → s.stage ≡ flushing left deadline
    → IsSound s
    → flush_input parts left deadline i s ≡ some t
    → IsSound t
unfolding flush_input take_ctrl no_terminated closes
flush_input-IsSound parts left deadline (ctrl_received c a) s t e h k =
    ground (arith, no_terminated-latest s.delivered)
flush_input-IsSound parts left deadline ctrl_closed s t e h k =
    ground (arith, no_terminated-latest s.delivered)
flush_input-IsSound parts left deadline hard_deadline s t e h k =
    ground (arith, no_terminated-latest s.delivered)
flush_input-IsSound parts left deadline receiver_closed s t e h k =
    ground (arith, no_terminated-latest s.delivered)
flush_input-IsSound parts [] deadline permitted s t e h k = ground arith
flush_input-IsSound parts (x ∷ []) deadline permitted s t e h k = ground arith
flush_input-IsSound parts (x ∷ y ∷ left) deadline permitted s t e h k = ground arith
flush_input-IsSound parts left deadline flush_deadline s t e h k =
    ground (arith, no_terminated-latest s.delivered)
flush_input-IsSound parts left deadline _ s t e h k = ground arith

rounds-IsSound :
    (o : Option Pump) (t : Pump)
    → ((u : Pump) → o ≡ some u → IsSound (enter_flush u))
    → rounds (entered o) ≡ some t
    → IsSound t
rounds-IsSound none t h k = cc
rounds-IsSound (some u) t h k =
    subst IsSound (some-injective _ _ k) (round-IsSound (enter_flush u) (h u refl))

step-IsSound :
    (parts : PumpParts) (i : Input) (stage : Stage) (s t : Pump)
    → s.stage ≡ stage
    → IsSound s
    → pump_step parts i s ≡ some t
    → IsSound t
unfolding pump_step
step-IsSound parts i pumping s t e h k =
    rounds-IsSound (pump_input parts i s) t (λ u f. pump_input-IsSound parts i s u e h f)
      (ground arith)
step-IsSound parts i finishing s t e h k =
    rounds-IsSound (finishing_input parts i s) t (λ u f. finishing_input-IsSound parts i s u e h f)
      (ground arith)
step-IsSound parts i (flushing left deadline) s t e h k =
    flush_input-IsSound parts left deadline i s t e h (ground arith)
step-IsSound parts i ended s t e h k = ground arith

steps-IsSound : (parts : PumpParts) {s t : Pump} → PumpSteps parts s t → IsSound s → IsSound t
steps-IsSound parts here h = h
steps-IsSound parts (after_time d steps) h = steps-IsSound parts steps h
steps-IsSound parts (then_one {t} {u} i steps k) h =
    step-IsSound parts i t.stage t u refl (steps-IsSound parts steps h) k

start-IsSound : (parts : PumpParts) (now : ℕ) → IsSound (start_pump parts now)
unfolding start_pump no_terminated
start-IsSound parts now = refl

-- The end is told: at most once to those who wait, and by the latest of the delivered events at most,
-- which comes when those who wait have been told and the pid file is cleaned.
pub record EndTold (s : Pump) : Type 0 where
  pub told_once : (is_nil s.published || has_one s.published) ≡ true
  pub told_last : only_latest s.delivered ≡ true
  pub told_after : (no_terminated s.delivered || (s.cleaned && has_one s.published)) ≡ true
  pub told_at_end : (not (is_ended s.stage) || (s.cleaned && has_one s.published)) ≡ true

sound-EndTold : (stage : Stage) (s : Pump) → s.stage ≡ stage → IsSound s → EndTold s
sound-EndTold pumping s e h = record {
  told_once = ground arith;
  told_last = no_terminated-latest s.delivered (ground arith);
  told_after = ground arith;
  told_at_end = ground arith;
}
sound-EndTold finishing s e h = record {
  told_once = ground arith;
  told_last = no_terminated-latest s.delivered (ground arith);
  told_after = ground arith;
  told_at_end = ground arith;
}
sound-EndTold (flushing left deadline) s e h = record {
  told_once = ground arith;
  told_last = no_terminated-latest s.delivered (ground arith);
  told_after = ground arith;
  told_at_end = ground arith;
}
sound-EndTold ended s e h = record {
  told_once = ground arith;
  told_last = ground arith;
  told_after = ground arith;
  told_at_end = ground arith;
}

-- In every state that a pump reaches, those who wait for the process were told its end at most once; the
-- event of the termination is the last one delivered, if it was; it was delivered after those who
-- wait were told and the pid file was cleaned; and a pump that has ended has done both.
pub terminal_lem :
    (parts : PumpParts) (now : ℕ) (t : Pump) → PumpSteps parts (start_pump parts now) t → EndTold t
terminal_lem parts now t steps =
    sound-EndTold t.stage t refl (steps-IsSound parts steps (start-IsSound parts now))
