-- ===== src/Engine/Pump.antt =====
-- `pump` of process/engine.rs: the loop that forwards the output of a process, waits for its end,
-- cleans its pid file, and delivers the last events. What a `select!` brings is an input.
pub mod Terminal
pub mod Lossless
pub mod Patience
use nyanpasu_utils.Engine.PumpState.{
  Pump, PumpParts, Stage, dying_event_stall, ended, finishing, flushing, has_none, pumping,
  start_pump,
}
use nyanpasu_utils.Prelude.{
  ℕ, suc, ◌+◌, ◌*◌, ◌^◌, ◌≡◌, refl, Bool, true, false, not, ◌&&◌, Option, none, some, List, [], ◌∷◌,
  Bytes, leb, if◌then◌else◌,
}
use nyanpasu_utils.Io.{Result, ok, err}
use nyanpasu_utils.Process.{
  TerminatedPayload, ProcessEvent, stdout, stderr, error, terminated, ProcessError,
}
use nyanpasu_utils.Engine.Control.{Ctrl, Answers, Handled, handle_ctrl}
use nyanpasu_utils.Engine.Finish.{
  FinishOutput, FinishResult, normalize_finish, watched, terminal_events,
}

-- The event that waits is dropped after a stall, once the process is dying.
abbrev pub set_stall : Pump → Pump
set_stall s =
    if not (has_none s.pending_event) && has_none s.drop_pending_at
    then record s { dying = true; drop_pending_at = some (s.clock + dying_event_stall) }
    else record s { dying = true }

abbrev pub add_reply :
    Option (Result ProcessError (Unit {0}))
    → List (Result ProcessError (Unit {0}))
    → List (Result ProcessError (Unit {0}))
add_reply none replies = replies
add_reply (some r) replies = r ∷ replies

-- A request, when it was handled; the process is not marked as dying here.
unfoldable pub take_ctrl : PumpParts → Ctrl → Answers → Pump → Handled × Pump
unfolding handle_ctrl
take_ctrl parts c a s =
    let h = handle_ctrl s.clock parts.kill_grace parts.has_stdin s.hard_kill_at c a in
    (
      h,
      record s {
        hard_kill_at = h.hard_kill_at;
        kills = if h.kill_all then suc s.kills else s.kills;
        replies = add_reply h.reply s.replies;
      },
    )

abbrev pub kill_now : Pump → Pump
kill_now s = record s { hard_kill_at = none; kills = suc s.kills }

-- The start of a round: when nobody listens any more, the group is killed, once.
abbrev pub abandon : Pump → Pump
abandon s =
    if not s.events_open && (not s.ctrl_open && not s.abandoned)
    then record s { abandoned = true; dying = true; hard_kill_at = none; kills = suc s.kills }
    else s

abbrev pub close_events : Pump → Pump
close_events s = record s { events_open = false; pending_event = none; drop_pending_at = none }

-- A line of output, when no event waits.
unfoldable pub take_output : ProcessEvent → Pump → Pump
take_output e s =
    if s.drop_output
    then record s { taken = e ∷ s.taken; dropped_output_events = suc s.dropped_output_events }
    else if s.events_open
    then record s {
      taken = e ∷ s.taken;
      pending_event = some e;
      drop_pending_at = if s.dying then some (s.clock + dying_event_stall) else s.drop_pending_at;
    }
    else record s { taken = e ∷ s.taken }

-- The process has ended: those who wait are told.
unfoldable pub take_finish : FinishResult → Pump → Pump
unfolding normalize_finish
take_finish result s =
    let out = normalize_finish result in
    record s { finish_output = some out; published = watched out ∷ s.published }

-- The pid file is cleaned, and the last events are to be delivered.
unfoldable pub start_flush : FinishOutput → Pump → Pump
unfolding terminal_events
start_flush out s = record s {
  cleaned = true;
  stage = flushing (terminal_events out s.dropped_output_events) (s.clock + dying_event_stall);
}

-- The output has ended.
unfoldable pub end_output : Pump → Pump
unfolding start_flush
end_output s = elim s.finish_output [
  | none ↦ record s { stage = finishing }
  | some out ↦ start_flush out s
]

-- What a `select!` brings.
pub data Input : Type 0 where
  ctrl_received : Ctrl → Answers → Input
  ctrl_closed : Input
  hard_deadline : Input
  finished : FinishResult → Input
  stall_deadline : Input
  permitted : Input
  receiver_closed : Input
  output_line : (is_stderr : Bool) → Bytes → Input
  other_output : Input
  output_ended : Input
  flush_deadline : Input

abbrev pub reached : Option ℕ → ℕ → Bool
reached none now = false
reached (some at) now = leb at now

abbrev pub mark_kill : Handled × Pump → Pump
mark_kill (h, s) = if h.is_kill then set_stall s else s

-- The first loop.
unfoldable pub pump_input : PumpParts → Input → Pump → Option Pump
unfolding take_ctrl take_output take_finish end_output
pump_input parts (ctrl_received c a) s =
    if s.ctrl_open then some (mark_kill (take_ctrl parts c a s)) else none
pump_input parts ctrl_closed s = if s.ctrl_open then some (record s { ctrl_open = false }) else none
pump_input parts hard_deadline s =
    if reached s.hard_kill_at s.clock then some (set_stall (kill_now s)) else none
pump_input parts (finished result) s =
    if has_none s.finish_output then some (take_finish result (set_stall s)) else none
pump_input parts stall_deadline s =
    if reached s.drop_pending_at s.clock
      && (s.dying && (not s.drop_output && not (has_none s.pending_event)))
    then some (record s {
      drop_pending_at = none;
      pending_event = none;
      dropped_output_events = suc s.dropped_output_events;
      drop_output = true;
    })
    else none
pump_input parts permitted s = elim s.pending_event [
  | none ↦ none
  | some e ↦
      if s.events_open && not s.drop_output
      then some
          (record s { pending_event = none; drop_pending_at = none; delivered = e ∷ s.delivered })
      else none
]
pump_input parts receiver_closed s = if s.events_open then some (close_events s) else none
pump_input parts (output_line is_stderr text) s =
    if has_none s.pending_event
    then some (take_output (if is_stderr then stderr text else stdout text) s)
    else none
pump_input parts other_output s = if has_none s.pending_event then some s else none
pump_input parts output_ended s = if has_none s.pending_event then some (end_output s) else none
pump_input parts flush_deadline s = none

-- The second loop, for a process whose output ended before it did.
unfoldable pub finishing_input : PumpParts → Input → Pump → Option Pump
unfolding take_ctrl take_finish start_flush
finishing_input parts (ctrl_received c a) s =
    if s.ctrl_open then some (take_ctrl parts c a s).1 else none
finishing_input parts ctrl_closed s =
    if s.ctrl_open then some (record s { ctrl_open = false }) else none
finishing_input parts hard_deadline s =
    if reached s.hard_kill_at s.clock then some (kill_now s) else none
finishing_input parts receiver_closed s =
    if s.events_open then some (record s { events_open = false }) else none
finishing_input parts (finished result) s =
    some (start_flush (normalize_finish result) (take_finish result s))
finishing_input parts _ s = none

-- The third loop ends when nobody listens or nothing is left.
abbrev pub flushed : List ProcessEvent → ℕ → Pump → Pump
flushed [] deadline s = record s { stage = ended }
flushed (e ∷ left) deadline s =
    if s.events_open
    then record s { stage = flushing (e ∷ left) deadline }
    else record s { stage = ended }

-- The third loop.
unfoldable pub flush_input : PumpParts → List ProcessEvent → ℕ → Input → Pump → Option Pump
unfolding take_ctrl
flush_input parts left deadline (ctrl_received c a) s =
    if s.ctrl_open then some (flushed left deadline (take_ctrl parts c a s).1) else none
flush_input parts left deadline ctrl_closed s =
    if s.ctrl_open then some (flushed left deadline (record s { ctrl_open = false })) else none
flush_input parts left deadline hard_deadline s =
    if reached s.hard_kill_at s.clock then some (flushed left deadline (kill_now s)) else none
flush_input parts left deadline receiver_closed s =
    some (flushed left deadline (record s { events_open = false }))
flush_input parts [] deadline permitted s = none
flush_input parts (e ∷ left) deadline permitted s =
    some (flushed left (s.clock + dying_event_stall) (record s { delivered = e ∷ s.delivered }))
flush_input parts left deadline flush_deadline s =
    if leb deadline s.clock
    then some (flushed left deadline (record s { events_open = false }))
    else none
flush_input parts left deadline _ s = none

-- The loop of the last events is entered only when somebody listens.
abbrev pub enter_flush : Pump → Pump
enter_flush s = elim s.stage [ flushing left deadline ↦ flushed left deadline s | _ ↦ s ]

-- The kill of an abandoned process while the second loop waits leaves `dying` alone.
abbrev pub abandon_finishing : Pump → Pump
abandon_finishing s =
    if not s.events_open && (not s.ctrl_open && not s.abandoned)
    then record s { abandoned = true; hard_kill_at = none; kills = suc s.kills }
    else s

-- What stands at the start of the next round.
abbrev pub next_round : Pump → Pump
next_round s = elim s.stage [ pumping ↦ abandon s | finishing ↦ abandon_finishing s | _ ↦ s ]

abbrev pub rounds : Option Pump → Option Pump
rounds none = none
rounds (some s) = some (next_round s)

abbrev pub entered : Option Pump → Option Pump
entered none = none
entered (some s) = some (enter_flush s)

-- One step of `pump`.
unfoldable pub pump_step : PumpParts → Input → Pump → Option Pump
unfolding pump_input finishing_input flush_input
pump_step parts i s = elim s.stage [
  | pumping ↦ rounds (entered (pump_input parts i s))
  | finishing ↦ rounds (entered (finishing_input parts i s))
  | flushing left deadline ↦ flush_input parts left deadline i s
  | ended ↦ none
]

pub data PumpSteps (parts : PumpParts) (s : Pump) : Pump → Type 0 where
  here : PumpSteps parts s s
  after_time :
      {t : Pump} (d : ℕ)
      → PumpSteps parts s t
      → PumpSteps parts s (record t { clock = t.clock + d })
  then_one :
      {t u : Pump} (i : Input)
      → PumpSteps parts s t
      → pump_step parts i t ≡ some u
      → PumpSteps parts s u
