-- ===== src/Examples/Supervising.antt =====
-- Supervision at concrete inputs.
use nyanpasu_utils.Prelude.{
  ◌+◌, ◌-◌, ◌*◌, ◌/◌, ◌^◌, ◌≤◌, ◌≡◌, ◌⊎◌, length, refl, true, false, none, some, [], ◌∷◌, arith,
}
use nyanpasu_utils.Process.{TerminatedPayload, terminated}
use nyanpasu_utils.Supervisor.Backoff.{Backoff, exponential, with_jitter, base_delay, delay_for}
use nyanpasu_utils.Supervisor.Backoff.Bounds.{jitter_bounds}
use nyanpasu_utils.Supervisor.Storm.{new_storm_policy, note_all, note_exit, is_storm}
use nyanpasu_utils.Supervisor.Storm.Laws.{recent, latest, window_exact}
use nyanpasu_utils.Supervisor.State.{
  Config, default_config, Supervision, SupervisorEvent, Phase, start, acknowledged,
}
use nyanpasu_utils.Supervisor.Loop.{
  child_event, cancel_noticed, loop_step, after_exit, on_child_event, try_restart, on_deadline,
  cancel, looped, Steps, here, then_one,
}
use nyanpasu_utils.Supervisor.Loop.Silence.{Adds, is_over, ends_stopped, cancelled_quiet}
use nyanpasu_utils.Supervisor.Loop.Ending.{loop_steps, acknowledgements, can_end, cancelled_ends}
use nyanpasu_utils.Supervisor.Loop.Protocol.{Follows, events_follow}
use nyanpasu_utils.Supervisor.Loop.Budget.{restarts_since_ready, restarts_bounded}
use nyanpasu_utils.Supervisor.Loop.Window.{Spared, abnormal_times, last_window, window_of_run}

abbrev one_second : Backoff
one_second = exponential (10 ^ 9) (30 * 10 ^ 9)

jitter_bounds_example :
    (base_delay (with_jitter one_second) 2 - base_delay (with_jitter one_second) 2 / 4
      ≤ delay_for (with_jitter one_second) 2 77)
    × (delay_for (with_jitter one_second) 2 77
        ≤ base_delay (with_jitter one_second) 2 + base_delay (with_jitter one_second) 2 / 4)
unfolding base_delay
jitter_bounds_example = jitter_bounds (with_jitter one_second) 2 77 refl (omega arith) (omega arith)

window_exact_example :
    note_all (new_storm_policy 2 (10 ^ 6)) (5 ∷ 6 ∷ 2000000 ∷ []) []
    ≡ recent (10 ^ 6) (latest 5 (6 ∷ 2000000 ∷ [])) (5 ∷ 6 ∷ 2000000 ∷ [])
window_exact_example = window_exact (new_storm_policy 2 (10 ^ 6)) 5 (6 ∷ 2000000 ∷ []) (omega arith)

abbrev config : Config
config = record default_config { backoff = one_second }

abbrev crash : TerminatedPayload
crash = record { code = some 1; signal = none }

abbrev first_child : Supervision
first_child = start config 0 10

abbrev crashed : Supervision
crashed = after_exit config crash 0 false (record first_child { forwarded = terminated crash ∷ [] })

crash_run : Steps config first_child crashed
unfolding loop_step start on_child_event
crash_run = then_one here (looped (child_event (terminated crash) 0) refl)

events_follow_example : Follows config crashed
events_follow_example = events_follow config 0 10 crashed crash_run

restarts_bounded_example : restarts_since_ready crashed.events ≤ 5
restarts_bounded_example = restarts_bounded config 5 0 10 crashed refl (omega arith) crash_run

window_of_run_example :
    (crashed.abnormal_exits ≡ last_window config.storm_policy.window (abnormal_times crash_run))
    × Spared config crashed
window_of_run_example = window_of_run config 0 10 crashed crash_run (omega arith)

-- The owner cancels while the loop waits for the end of the backoff.
abbrev given_up_by_owner : Supervision
given_up_by_owner = cancel crashed

abbrev ended : Supervision
ended = record given_up_by_owner {
  phase = Phase.finished;
  events = SupervisorEvent.stopped ∷ crashed.events;
}

end_run : Steps config given_up_by_owner ended
unfolding loop_step start after_exit try_restart is_storm note_exit
end_run = then_one here (looped cancel_noticed refl)

cancelled_quiet_example : Adds crashed.events (SupervisorEvent.stopped ∷ crashed.events)
cancelled_quiet_example = cancelled_quiet config given_up_by_owner ended refl end_run

-- The owner cancels while the child is watched, and the loop notices.
abbrev let_go : Supervision
let_go = record first_child {
  cancelled = true;
  phase = Phase.watching (1500 * 10 ^ 6) false true;
  current = none;
}

notice_run : Steps config (cancel first_child) let_go
unfolding loop_step start
notice_run = then_one here (looped cancel_noticed refl)

cancelled_ends_example :
    ((is_over let_go.phase ≡ true) × (ends_stopped let_go.events ≡ true))
    ⊎ ((loop_steps notice_run
          ≤ 3 + length (cancel first_child).ready_queue + acknowledgements notice_run)
        × (can_end config crash 0 11 let_go ≡ true))
unfolding start
cancelled_ends_example =
    cancelled_ends config crash 0 11 (cancel first_child) let_go notice_run refl refl

abbrev acknowledging : Config
acknowledging = record config { readiness = acknowledged }

abbrev awaiting : Supervision
awaiting = start acknowledging 0 10

-- The delay of the probe has passed.
abbrev settled : Supervision
settled = record first_child { clock = 1500 * 10 ^ 6 }

abbrev now_ready : Supervision
now_ready = on_deadline (1500 * 10 ^ 6) false settled
