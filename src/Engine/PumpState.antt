-- ===== src/Engine/PumpState.antt =====
-- The variables of `pump` of process/engine.rs.
use nyanpasu_utils.Prelude.{ℕ, ◌*◌, ◌^◌, Bool, true, false, Option, none, some, List, [], Bytes}
use nyanpasu_utils.Io.{Result}
use nyanpasu_utils.Process.{TerminatedPayload, ProcessEvent, ProcessError}
use nyanpasu_utils.Engine.Finish.{FinishOutput}

-- `DYING_EVENT_STALL`, in nanoseconds.
abbrev pub dying_event_stall : ℕ
dying_event_stall = 5 * 10 ^ 9

-- What the pump was given.
pub record PumpParts : Type 0 where
  pub has_stdin : Bool
  pub kill_grace : ℕ
  pub timeout_at : Option ℕ

-- Where the pump waits: in the loop over the output, for the end of the process, in the delivery of
-- the last events, or not any more.
pub data Stage : Type 0 where
  pumping : Stage
  finishing : Stage
  flushing : (left : List ProcessEvent) (deadline : ℕ) → Stage
  ended : Stage

-- The variables of `pump`, and what it has done: the output it took in and the events it delivered,
-- the latest first, what it sent to those who wait, its kills, its replies, and the clean-up.
pub record Pump : Type 0 where
  pub clock : ℕ
  pub stage : Stage
  pub finish_output : Option FinishOutput
  pub pending_event : Option ProcessEvent
  pub hard_kill_at : Option ℕ
  pub events_open : Bool
  pub ctrl_open : Bool
  pub dying : Bool
  pub drop_output : Bool
  pub drop_pending_at : Option ℕ
  pub dropped_output_events : ℕ
  pub abandoned : Bool
  pub taken : List ProcessEvent
  pub delivered : List ProcessEvent
  pub published : List (Result Bytes TerminatedPayload)
  pub kills : ℕ
  pub replies : List (Result ProcessError (Unit {0}))
  pub cleaned : Bool

unfoldable pub start_pump : PumpParts → ℕ → Pump
start_pump parts now = record {
  clock = now;
  stage = pumping;
  finish_output = none;
  pending_event = none;
  hard_kill_at = parts.timeout_at;
  events_open = true;
  ctrl_open = true;
  dying = false;
  drop_output = false;
  drop_pending_at = none;
  dropped_output_events = 0;
  abandoned = false;
  taken = [];
  delivered = [];
  published = [];
  kills = 0;
  replies = [];
  cleaned = false;
}

abbrev pub has_none {ℓ} : {A : Type ℓ} → Option A → Bool
has_none none = true
has_none (some _) = false
