-- ===== src/Supervisor/Loop/Window.antt =====
-- The storm window of a running supervision.
use nyanpasu_utils.Prelude.{
  ℕ, ◌+◌, ◌≤◌, ◌≡◌, refl, ap, sym, ◌∙◌, Bool, true, false, not, ◌||◌, ◌&&◌, Option, none, some,
  List, [], ◌∷◌, ◌++◌, length, ltb, if◌then◌else◌, All, All-append, All-map, arith,
}
use nyanpasu_utils.Process.{TerminatedPayload, terminated, is_clean}
use nyanpasu_utils.Supervisor.Storm.{RestartStormPolicy, note_exit, note_all, is_storm}
use nyanpasu_utils.Supervisor.Storm.Laws.{
  IsSorted, IsSorted-snoc, recent, latest, note_all-append, window_exact,
}
use nyanpasu_utils.Supervisor.State.{Config, watching, Supervision, start}
use nyanpasu_utils.Supervisor.Loop.{
  try_restart, after_exit, on_child_event, on_deadline, on_acknowledged, on_spawned,
  on_spawn_failed, is_never, Input, child_event, child_events_closed, loop_step, acknowledge_ready,
  Step, ticked, child_died, was_cancelled, was_stopped, was_acknowledged, looped, Steps, here,
  then_one,
}
use nyanpasu_utils.Supervisor.Loop.Silence.{is_over}

-- The window holds fewer exits than the policy allows.
abbrev pub Spared : Config → Supervision → Type 0
Spared c s = (is_over s.phase || ltb (length s.abnormal_exits) c.storm_policy.max_failures) ≡ true

loop-Spared :
    (c : Config) (i : Input) (s t : Supervision)
    → Spared c s
    → loop_step c i s ≡ some t
    → Spared c t
unfolding loop_step after_exit on_child_event on_deadline on_acknowledged on_spawned on_spawn_failed
    try_restart is_storm
loop-Spared c i s t h k = ground arith

Step-Spared : (c : Config) {s t : Supervision} → Step c s t → Spared c s → Spared c t
unfolding acknowledge_ready
Step-Spared c (ticked d) h = h
Step-Spared c child_died h = h
Step-Spared c was_cancelled h = h
Step-Spared c was_stopped h = h
Step-Spared c (was_acknowledged pid) h = ground arith
Step-Spared c {s} {t} (looped i k) h = loop-Spared c i s t h k

Steps-Spared : (c : Config) {s t : Supervision} → Steps c s t → Spared c s → Spared c t
Steps-Spared c here h = h
Steps-Spared c (then_one steps step) h = Step-Spared c step (Steps-Spared c steps h)

start-Spared :
    (c : Config) (now pid : ℕ) → 1 ≤ c.storm_policy.max_failures → Spared c (start c now pid)
unfolding start
start-Spared c now pid h = ground arith

-- The exit that an input of a watch reports.
abbrev exit_of : Input → Option TerminatedPayload
exit_of (child_event (terminated payload) _) = some payload
exit_of (child_events_closed _) = some (record { code = none; signal = none })
exit_of _ = none

abbrev is_failure : Config → Option TerminatedPayload → Bool
is_failure c none = false
is_failure c (some payload) = not (is_clean payload) && not (is_never c.policy)

-- An abnormal exit, under a policy that restarts: the child was watched, and no cancellation was seen
-- or has come.
abbrev is_abnormal : Config → Input → Supervision → Bool
is_abnormal c i s = elim s.phase [
  | watching _ _ seen ↦ not (seen || s.cancelled) && is_failure c (exit_of i)
  | _ ↦ false
]

-- The times of the abnormal exits of a run, the first one first.
pub abnormal_times : {c : Config} {s t : Supervision} → Steps c s t → List ℕ
abnormal_times here = []
abnormal_times {c} (then_one {t} steps (looped i _)) =
    let times = abnormal_times steps in if is_abnormal c i t then times ++ t.clock ∷ [] else times
abnormal_times (then_one steps _) = abnormal_times steps

loop_noted :
    (c : Config) (i : Input) (s t : Supervision)
    → loop_step c i s ≡ some t
    → (t.abnormal_exits ≡ (
        if is_abnormal c i s
        then note_exit c.storm_policy s.clock s.abnormal_exits
        else s.abnormal_exits))
      × (t.clock ≡ s.clock)
unfolding loop_step after_exit on_child_event on_deadline on_acknowledged on_spawned on_spawn_failed
    try_restart
loop_noted c i s t k = ground arith

acknowledged_keeps :
    (pid : ℕ) (s : Supervision)
    → ((acknowledge_ready pid s).1.abnormal_exits ≡ s.abnormal_exits)
      × ((acknowledge_ready pid s).1.clock ≡ s.clock)
unfolding acknowledge_ready
acknowledged_keeps pid s = ground arith

-- The times of a run are in order, and not after its end; the window is what noting them made of it.
record Noted (c : Config) (times : List ℕ) (t : Supervision) : Type 0 where
  noted : t.abnormal_exits ≡ note_all c.storm_policy times []
  in_order : IsSorted times
  past : All (λ u. u ≤ t.clock) times

exit-Noted :
    (c : Config) (i : Input) (s t : Supervision) (times : List ℕ)
    → Noted c times s
    → loop_step c i s ≡ some t
    → (b : Bool) → is_abnormal c i s ≡ b
    → Noted c (if b then times ++ s.clock ∷ [] else times) t
exit-Noted c i s t times h k true e = record {
  noted =
      (loop_noted c i s t k).0
      ∙ rw e (ap (note_exit c.storm_policy s.clock) h.noted)
      ∙ sym (note_all-append c.storm_policy times [] s.clock);
  in_order = IsSorted-snoc times s.clock h.in_order h.past;
  past =
      rw ((loop_noted c i s t k).1)
        (All-append (λ u. u ≤ s.clock) times (s.clock ∷ []) h.past (omega arith, tt));
}
exit-Noted c i s t times h k false e = record {
  noted = (loop_noted c i s t k).0 ∙ rw e h.noted;
  in_order = h.in_order;
  past = rw ((loop_noted c i s t k).1) h.past;
}

Steps-Noted :
    (c : Config) (s t : Supervision) (steps : Steps c s t)
    → s.abnormal_exits ≡ []
    → Noted c (abnormal_times steps) t
unfolding abnormal_times note_all
Steps-Noted c s t here h = record { noted = h; in_order = tt; past = tt }
Steps-Noted c s t (then_one {t = u} steps (ticked d)) h =
    let n = Steps-Noted c s u steps h in
    record {
      noted = n.noted;
      in_order = n.in_order;
      past =
          All-map (λ x. x ≤ u.clock) (λ x. x ≤ u.clock + d) (abnormal_times steps)
            (λ x le. omega (arith, le)) n.past;
    }
Steps-Noted c s t (then_one {t = u} steps child_died) h =
    let n = Steps-Noted c s u steps h in
    record { noted = n.noted; in_order = n.in_order; past = n.past }
Steps-Noted c s t (then_one {t = u} steps was_cancelled) h =
    let n = Steps-Noted c s u steps h in
    record { noted = n.noted; in_order = n.in_order; past = n.past }
Steps-Noted c s t (then_one {t = u} steps was_stopped) h =
    let n = Steps-Noted c s u steps h in
    record { noted = n.noted; in_order = n.in_order; past = n.past }
Steps-Noted c s t (then_one {t = u} steps (was_acknowledged pid)) h =
    let n = Steps-Noted c s u steps h in
    record {
      noted = (acknowledged_keeps pid u).0 ∙ n.noted;
      in_order = n.in_order;
      past = rw ((acknowledged_keeps pid u).1) n.past;
    }
Steps-Noted c s t (then_one {t = u} steps (looped i k)) h =
    exit-Noted c i u t (abnormal_times steps) (Steps-Noted c s u steps h) k (is_abnormal c i u) refl

-- Of the times of exits, in order, those that are not older than the window at the last of them.
abbrev pub last_window : ℕ → List ℕ → List ℕ
last_window window [] = []
last_window window (t ∷ times) = recent window (latest t times) (t ∷ times)

note_all-last_window :
    (p : RestartStormPolicy) (times : List ℕ)
    → IsSorted times
    → note_all p times [] ≡ last_window p.window times
unfolding note_all
note_all-last_window p [] h = refl
note_all-last_window p (t ∷ times) h = window_exact p t times h

start_empty : (c : Config) (now pid : ℕ) → (start c now pid).abnormal_exits ≡ []
unfolding start
start_empty c now pid = refl

-- In every run from the start the storm window holds exactly those abnormal exits of the whole run that
-- are not older than its length at the last one: neither readiness nor a spawn clears it. And while
-- the supervision runs, these are fewer than the policy's limit, which is one at least.
pub window_of_run :
    (c : Config) (now pid : ℕ) (t : Supervision) (steps : Steps c (start c now pid) t)
    → 1 ≤ c.storm_policy.max_failures
    → (t.abnormal_exits ≡ last_window c.storm_policy.window (abnormal_times steps)) × Spared c t
window_of_run c now pid t steps h =
    let n = Steps-Noted c (start c now pid) t steps (start_empty c now pid) in
    (
      n.noted ∙ note_all-last_window c.storm_policy (abnormal_times steps) n.in_order,
      Steps-Spared c steps (start-Spared c now pid h),
    )
