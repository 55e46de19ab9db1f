-- ===== src/Supervisor/Loop/Budget.antt =====
-- How often a supervision restarts its child.
use mathlib.Core.Path.{subst}
use mathlib.Core.Option.{some-injective}
use nyanpasu_utils.Prelude.{
  ℕ, suc, ◌-◌, ◌^◌, ◌≤◌, ◌<◌, ◌≡◌, refl, inl, inr, Bool, true, false, ◌||◌, none, some, List, [],
  ◌∷◌, ◌==◌, arith, Bool-cases,
}
use nyanpasu_utils.Process.{TerminatedPayload, terminated, is_clean}
use nyanpasu_utils.Supervisor.Storm.{note_exit, is_storm}
use nyanpasu_utils.Supervisor.State.{
  Config, on_failure, SupervisorEvent, ready, exited, restarting, Phase, watching, backing_off,
  spawning, finished, Supervision, start,
}
use nyanpasu_utils.Supervisor.Loop.{
  try_restart, note_failure, after_exit, on_child_event, on_deadline, on_acknowledged, on_spawned,
  on_spawn_failed, Input, child_event, child_events_closed, spawn_failed, watch_input, spawn_input,
  loop_step, acknowledge_ready, is_never, Step, ticked, child_died, was_cancelled, was_stopped,
  was_acknowledged, looped, Steps, here, then_one,
}
use nyanpasu_utils.Supervisor.Loop.Silence.{is_over}

-- How many restarts were announced since a child was last ready, in events of which the latest is first.
pub restarts_since_ready : List SupervisorEvent → ℕ
restarts_since_ready [] = 0
restarts_since_ready (ready ∷ events) = 0
restarts_since_ready (restarting _ _ ∷ events) = suc (restarts_since_ready events)
restarts_since_ready (_ ∷ events) = restarts_since_ready events

-- The restarts are within the budget, and the loop has counted them.
record Within (m : ℕ) (s : Supervision) : Type 0 where
  few : restarts_since_ready s.events ≤ m
  counted : (is_over s.phase || (s.attempt == restarts_since_ready s.events)) ≡ true

restart-Within :
    (c : Config) (m entropy : ℕ) (s : Supervision)
    → c.policy ≡ on_failure m
    → m < 2 ^ 32 - 1
    → restarts_since_ready s.events ≤ m
    → s.attempt ≡ restarts_since_ready s.events
    → Within m (try_restart c entropy s)
unfolding try_restart restarts_since_ready
restart-Within c m entropy s p small few counted = record {
  few = ground arith;
  counted = ground arith;
}

failure-Within :
    (c : Config) (m entropy : ℕ) (s : Supervision)
    → c.policy ≡ on_failure m
    → m < 2 ^ 32 - 1
    → restarts_since_ready s.events ≤ m
    → s.attempt ≡ restarts_since_ready s.events
    → Within m (note_failure c entropy s)
unfolding restarts_since_ready
failure-Within c m entropy s p small few counted = elim (Bool-cases storm) [
  | inl e ↦ rw e (record { few = few; counted = refl })
  | inr e ↦
      rw e (restart-Within c m entropy (record s { abnormal_exits = exits }) p small few counted)
]
  where
    exits : List ℕ
    exits = note_exit c.storm_policy s.clock s.abnormal_exits

    storm : Bool
    storm = is_storm c.storm_policy exits

exit-Within :
    (c : Config) (m : ℕ) (payload : TerminatedPayload) (entropy : ℕ) (seen : Bool) (s : Supervision)
    → c.policy ≡ on_failure m
    → m < 2 ^ 32 - 1
    → restarts_since_ready s.events ≤ m
    → s.attempt ≡ restarts_since_ready s.events
    → Within m (after_exit c payload entropy seen s)
unfolding after_exit restarts_since_ready
exit-Within c m payload entropy seen s p small few counted =
    elim (Bool-cases (seen || s.cancelled)) [
      | inl e ↦ rw e (record { few = few; counted = refl })
      | inr e ↦ rw e elim (Bool-cases (is_clean payload || is_never c.policy)) [
        | inl f ↦ rw f (record { few = few; counted = refl })
        | inr f ↦ rw f (failure-Within c m entropy after p small few counted)
      ]
    ]
  where
    after : Supervision
    after = record s { current = none; ready_pending = 0; events = exited payload ∷ s.events }

counted_while :
    (m : ℕ) (s : Supervision)
    → Within m s
    → is_over s.phase ≡ false
    → s.attempt ≡ restarts_since_ready s.events
counted_while m s w e = ground (arith, w.counted)

watch-Within :
    (c : Config) (m ready_at : ℕ) (pending seen : Bool) (i : Input) (s t : Supervision)
    → c.policy ≡ on_failure m
    → m < 2 ^ 32 - 1
    → restarts_since_ready s.events ≤ m
    → s.attempt ≡ restarts_since_ready s.events
    → watch_input c ready_at pending seen i s ≡ some t
    → Within m t
unfolding on_child_event on_deadline on_acknowledged restarts_since_ready
watch-Within c m ready_at pending seen (child_event (terminated payload) entropy) s t p small few
      counted k =
    subst (Within m) (some-injective _ _ k) (
      exit-Within c m payload entropy seen
        (record s { forwarded = terminated payload ∷ s.forwarded }) p small few counted)
watch-Within c m ready_at pending seen (child_events_closed entropy) s t p small few counted k =
    subst (Within m) (some-injective _ _ k)
      (exit-Within c m (record { code = none; signal = none }) entropy seen s p small few counted)
watch-Within c m ready_at pending seen i s t p small few counted k = record {
  few = ground arith;
  counted = ground arith;
}

rest-Within :
    (c : Config) (m : ℕ) (i : Input) (s t : Supervision)
    → c.policy ≡ on_failure m
    → m < 2 ^ 32 - 1
    → restarts_since_ready s.events ≤ m
    → s.attempt ≡ restarts_since_ready s.events
    → spawn_input c i s ≡ some t
    → Within m t
unfolding on_spawned on_spawn_failed restarts_since_ready
rest-Within c m (spawn_failed entropy) s t p small few counted k = elim (Bool-cases s.cancelled) [
  | inl f ↦ record { few = ground arith; counted = ground arith }
  | inr f ↦
      subst (Within m) {x = try_restart c entropy s} {y = t} (ground arith)
        (restart-Within c m entropy s p small few counted)
]
rest-Within c m i s t p small few counted k = record { few = ground arith; counted = ground arith }

loop-Within :
    (c : Config) (m : ℕ) (i : Input) (ph : Phase) (s t : Supervision)
    → s.phase ≡ ph
    → c.policy ≡ on_failure m
    → m < 2 ^ 32 - 1
    → Within m s
    → loop_step c i s ≡ some t
    → Within m t
unfolding loop_step restarts_since_ready
loop-Within c m i (watching ready_at pending seen) s t e p small w k =
    watch-Within c m ready_at pending seen i s t p small w.few (counted_while m s w (ground arith))
      (ground arith)
loop-Within c m i (backing_off wake_at) s t e p small w k = record {
  few = ground (arith, w.few);
  counted = ground (arith, counted_while m s w (ground arith));
}
loop-Within c m i spawning s t e p small w k =
    rest-Within c m i s t p small w.few (counted_while m s w (ground arith)) (ground arith)
loop-Within c m i finished s t e p small w k = absurd (ground arith)

acknowledge-Within :
    (m pid : ℕ) (s : Supervision) → Within m s → Within m (acknowledge_ready pid s).1
unfolding acknowledge_ready
acknowledge-Within m pid s w = record {
  few = ground (arith, w.few);
  counted = ground (arith, w.counted);
}

Step-Within :
    (c : Config) (m : ℕ) {s t : Supervision}
    → c.policy ≡ on_failure m
    → m < 2 ^ 32 - 1
    → Step c s t
    → Within m s
    → Within m t
Step-Within c m p small (ticked d) w = record { few = w.few; counted = w.counted }
Step-Within c m p small child_died w = record { few = w.few; counted = w.counted }
Step-Within c m p small was_cancelled w = record { few = w.few; counted = w.counted }
Step-Within c m p small was_stopped w = record { few = w.few; counted = w.counted }
Step-Within c m {s} p small (was_acknowledged pid) w = acknowledge-Within m pid s w
Step-Within c m {s} {t} p small (looped i k) w = loop-Within c m i s.phase s t refl p small w k

Steps-Within :
    (c : Config) (m : ℕ) {s t : Supervision}
    → c.policy ≡ on_failure m
    → m < 2 ^ 32 - 1
    → Steps c s t
    → Within m s
    → Within m t
Steps-Within c m p small here w = w
Steps-Within c m p small (then_one steps step) w =
    Step-Within c m p small step (Steps-Within c m p small steps w)

start-Within : (c : Config) (m now pid : ℕ) → Within m (start c now pid)
unfolding start restarts_since_ready
start-Within c m now pid = record { few = omega arith; counted = ground arith }

-- Under a policy that restarts on failure, at no moment have more restarts been announced since the
-- last readiness than the policy allows, for every limit below the largest number of 32 bits.
pub restarts_bounded :
    (c : Config) (m now pid : ℕ) (t : Supervision)
    → c.policy ≡ on_failure m
    → m < 2 ^ 32 - 1
    → Steps c (start c now pid) t
    → restarts_since_ready t.events ≤ m
restarts_bounded c m now pid t p small steps =
    (Steps-Within c m p small steps (start-Within c m now pid)).few
