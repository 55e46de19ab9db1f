-- ===== src/Examples/Pumping.antt =====
-- The process engine at concrete inputs.
use nyanpasu_utils.Prelude.{◌+◌, ◌≡◌, refl, true, false, none, some, [], ◌∷◌, codes, length}
use nyanpasu_utils.Io.{ok}
use nyanpasu_utils.Engine.Control.{Ctrl}
use nyanpasu_utils.Engine.PumpState.{dying_event_stall}
use nyanpasu_utils.Engine.Pump.{ctrl_received}
use nyanpasu_utils.Engine.Pump.Patience.{gave_up, give_up, later, receiver_cannot_stall}
use nyanpasu_utils.Prelude.{ℕ, ◌≤◌}
use nyanpasu_utils.Process.{TerminatedPayload, stdout, stderr, terminated}
use nyanpasu_utils.Engine.Control.{Answers}
use nyanpasu_utils.Engine.PumpState.{PumpParts, Stage, Pump, start_pump}
use nyanpasu_utils.Engine.Pump.{
  output_line, permitted, finished, output_ended, pump_step, PumpSteps, here, then_one,
}
use nyanpasu_utils.Engine.Pump.Terminal.{EndTold, terminal_lem}
use nyanpasu_utils.Engine.Pump.Lossless.{with_pending, accounted, lossless}

abbrev sent : Answers
sent = record { term_sent = true; killed = ok tt; queued = true }

abbrev pub parts : PumpParts
parts = record { has_stdin = false; kill_grace = 5; timeout_at = none }

abbrev pub fresh : Pump
fresh = start_pump parts 0

-- Two lines of output, the first of which is delivered.
abbrev one_waits : Pump
one_waits = record fresh {
  taken = stdout (codes "b") ∷ stderr (codes "a") ∷ [];
  pending_event = some (stdout (codes "b"));
  delivered = stderr (codes "a") ∷ [];
}

output_run : PumpSteps parts fresh one_waits
unfolding pump_step start_pump
output_run =
    then_one (output_line false (codes "b"))
      (then_one permitted (then_one (output_line true (codes "a")) here refl) refl) refl

accounted_example :
    length one_waits.taken
    ≡ length (with_pending one_waits.pending_event one_waits.delivered)
      + one_waits.dropped_output_events
unfolding start_pump
accounted_example = accounted parts 0 one_waits output_run refl refl

lossless_example : with_pending one_waits.pending_event one_waits.delivered ≡ one_waits.taken
unfolding start_pump
lossless_example = lossless parts 0 one_waits output_run refl refl refl

abbrev pub exit_code_1 : TerminatedPayload
exit_code_1 = record { code = some 1; signal = none }

-- The process has ended, and its last event was delivered.
abbrev pub told : Pump
told = record fresh {
  stage = Stage.ended;
  finish_output = some (record { payload = exit_code_1; stderr_tail = []; failure = none });
  dying = true;
  published = ok exit_code_1 ∷ [];
  delivered = terminated exit_code_1 ∷ [];
  cleaned = true;
}

pub told_run : PumpSteps parts fresh told
unfolding pump_step start_pump
told_run =
    then_one permitted
      (then_one output_ended (then_one (finished (ok (exit_code_1, []))) here refl) refl) refl

terminal_lem_example : EndTold told
terminal_lem_example = terminal_lem parts 0 told told_run

-- A line waits, and the process is killed.
abbrev stalled : Pump
stalled = record fresh {
  taken = stdout (codes "b") ∷ [];
  pending_event = some (stdout (codes "b"));
  dying = true;
  drop_pending_at = some dying_event_stall;
  kills = 1;
  replies = ok tt ∷ [];
}

stalled_run : PumpSteps parts fresh stalled
unfolding pump_step start_pump
stalled_run =
    then_one (ctrl_received Ctrl.kill sent) (then_one (output_line false (codes "b")) here refl)
      refl

receiver_cannot_stall_example :
    (wait : ℕ) × (wait ≤ dying_event_stall)
    × (gave_up stalled.stage (pump_step parts (give_up stalled.stage) (later wait stalled)) ≡ true)
unfolding start_pump
receiver_cannot_stall_example = receiver_cannot_stall parts 0 stalled stalled_run refl
