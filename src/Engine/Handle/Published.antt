-- ===== src/Engine/Handle/Published.antt =====
-- `pump` of process/engine.rs: the end that it has published stays published.
use mathlib.Core.Path.{subst}
use mathlib.Core.Option.{some-injective}
use nyanpasu_utils.Prelude.{ℕ, ◌≡◌, refl, Option, none, some, List, [], ◌∷◌, Bytes, arith}
use nyanpasu_utils.Io.{Result}
use nyanpasu_utils.Process.{ProcessEvent, TerminatedPayload}
use nyanpasu_utils.Engine.Finish.{FinishOutput}
use nyanpasu_utils.Engine.PumpState.{PumpParts, Stage, pumping, finishing, flushing, ended, Pump}
use nyanpasu_utils.Engine.Pump.{
  take_ctrl, take_output, take_finish, start_flush, end_output, next_round, rounds, enter_flush,
  entered, Input, ctrl_received, finished, permitted, output_ended, pump_input, finishing_input,
  flush_input, pump_step, PumpSteps, here, after_time, then_one,
}

-- What was published first: the last of the list.
unfoldable pub oldest :
    List (Result Bytes TerminatedPayload) → Option (Result Bytes TerminatedPayload)
oldest [] = none
oldest (x ∷ l) = elim (oldest l) [ none ↦ some x | some y ↦ some y ]

module _ (x : Result Bytes TerminatedPayload) where
  abbrev Told : Pump → Type 0
  Told s = oldest s.published ≡ some x

  end_output-Told :
      (out : Option FinishOutput) (s : Pump)
      → s.finish_output ≡ out
      → Told s
      → Told (enter_flush (end_output s))
  unfolding end_output start_flush
  end_output-Told none s f h = ground arith
  end_output-Told (some out) s f h = ground arith

  pump_input-Told :
      (parts : PumpParts) (i : Input) (s t : Pump)
      → Told s
      → pump_input parts i s ≡ some t
      → Told (enter_flush t)
  unfolding pump_input take_ctrl take_output take_finish oldest
  pump_input-Told parts output_ended s t h k =
      subst (λ u. Told (enter_flush u)) {x = end_output s} {y = t} (ground arith)
        (end_output-Told s.finish_output s refl h)
  pump_input-Told parts (ctrl_received c a) s t h k = ground arith
  pump_input-Told parts i s t h k = ground arith

  finishing_input-Told :
      (parts : PumpParts) (i : Input) (s t : Pump)
      → Told s
      → finishing_input parts i s ≡ some t
      → Told (enter_flush t)
  unfolding finishing_input take_ctrl take_finish start_flush oldest
  finishing_input-Told parts (finished result) s t h k =
      subst (λ u. Told (enter_flush u)) (some-injective _ _ k) (ground arith)
  finishing_input-Told parts i s t h k = ground arith

  flush_input-Told :
      (parts : PumpParts) (left : List ProcessEvent) (deadline : ℕ) (i : Input) (s t : Pump)
      → Told s
      → flush_input parts left deadline i s ≡ some t
      → Told t
  unfolding flush_input take_ctrl
  flush_input-Told parts [] deadline permitted s t h k = ground arith
  flush_input-Told parts (e ∷ left) deadline permitted s t h k = ground arith
  flush_input-Told parts left deadline i s t h k = ground arith

  round-Told : (s : Pump) → Told s → Told (next_round s)
  round-Told s h = ground arith

  rounds-Told :
      (o : Option Pump) (t : Pump)
      → ((u : Pump) → o ≡ some u → Told (enter_flush u))
      → rounds (entered o) ≡ some t
      → Told t
  rounds-Told none t h k = cc
  rounds-Told (some u) t h k =
      subst Told (some-injective _ _ k) (round-Told (enter_flush u) (h u refl))

  step-Told :
      (parts : PumpParts) (i : Input) (stage : Stage) (s t : Pump)
      → s.stage ≡ stage
      → Told s
      → pump_step parts i s ≡ some t
      → Told t
  unfolding pump_step
  step-Told parts i pumping s t e h k =
      rounds-Told (pump_input parts i s) t (λ u f. pump_input-Told parts i s u h f) (ground arith)
  step-Told parts i finishing s t e h k =
      rounds-Told (finishing_input parts i s) t (λ u f. finishing_input-Told parts i s u h f)
        (ground arith)
  step-Told parts i (flushing left deadline) s t e h k =
      flush_input-Told parts left deadline i s t h (ground arith)
  step-Told parts i ended s t e h k = ground arith

  -- The end that was published first stays the first.
  pub steps-Told :
      (parts : PumpParts) {s t : Pump}
      → PumpSteps parts s t
      → oldest s.published ≡ some x
      → oldest t.published ≡ some x
  steps-Told parts here h = h
  steps-Told parts (after_time d steps) h = steps-Told parts steps h
  steps-Told parts (then_one {t} {u} i steps k) h =
      step-Told parts i t.stage t u refl (steps-Told parts steps h) k
