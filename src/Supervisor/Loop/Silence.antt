-- ===== src/Supervisor/Loop/Silence.antt =====
-- What a supervision does once it is cancelled, and once it has ended.
use nyanpasu_utils.Prelude.{
  ◌≡◌, refl, ap, sym, ◌∙◌, ◌⊎◌, inl, inr, Bool, true, false, some, List, [], ◌∷◌, ◌++◌, arith, All,
  All-append, append_assoc,
}
use nyanpasu_utils.Process.{TerminatedPayload}
use nyanpasu_utils.Supervisor.State.{
  Config, SupervisorEvent, exited, stopped, Phase, finished, Supervision,
}
use nyanpasu_utils.Supervisor.Loop.{
  after_exit, on_child_event, on_deadline, on_acknowledged, on_spawned, on_spawn_failed, Input,
  loop_step, acknowledge_ready, Step, ticked, child_died, was_cancelled, was_stopped,
  was_acknowledged, looped, Steps, here, then_one,
}

-- An exit or the end.
abbrev pub is_quiet : SupervisorEvent → Bool
is_quiet (exited _) = true
is_quiet stopped = true
is_quiet _ = false

abbrev pub is_over : Phase → Bool
is_over finished = true
is_over _ = false

abbrev pub ends_stopped : List SupervisorEvent → Bool
ends_stopped (stopped ∷ _) = true
ends_stopped _ = false

-- A step of the loop from a cancelled state.
record Calm (s t : Supervision) : Type 0 where
  still : t.cancelled ≡ true
  events :
      (t.events ≡ s.events)
      ⊎ ((p : TerminatedPayload) × (t.events ≡ stopped ∷ exited p ∷ s.events))
      ⊎ (t.events ≡ stopped ∷ s.events)
  end : is_over t.phase ≡ true → ends_stopped t.events ≡ true

loop-Calm :
    (c : Config) (i : Input) (s t : Supervision)
    → s.cancelled ≡ true
    → loop_step c i s ≡ some t
    → Calm s t
unfolding loop_step after_exit on_child_event on_deadline on_acknowledged on_spawned on_spawn_failed
loop-Calm c i s t h k = record {
  still = ground arith;
  events = ground arith;
  end = λ o. ground arith;
}

Step-Calm :
    (c : Config) {s t : Supervision}
    → Step c s t
    → s.cancelled ≡ true
    → (t.cancelled ≡ true)
      × ((t.events ≡ s.events) × (is_over t.phase ≡ is_over s.phase) ⊎ Calm s t)
unfolding acknowledge_ready
Step-Calm c (ticked d) h = (h, inl (refl, refl))
Step-Calm c child_died h = (h, inl (refl, refl))
Step-Calm c was_cancelled h = (refl, inl (refl, refl))
Step-Calm c was_stopped h = (refl, inl (refl, refl))
Step-Calm c {s} (was_acknowledged pid) h = (ground arith, inl (ground arith, ground arith))
Step-Calm c {s} {t} (looped i k) h = let calm = loop-Calm c i s t h k in (calm.still, inr calm)

-- What a run from a cancelled state adds to the events.
abbrev pub Adds : List SupervisorEvent → List SupervisorEvent → Type 0
Adds before after =
    (new : List SupervisorEvent) × (after ≡ new ++ before) × All (λ e. is_quiet e ≡ true) new

Calm-Adds : (s t : Supervision) → Calm s t → Adds s.events t.events
Calm-Adds s t calm = elim calm.events [
  | inl e ↦ ([], e, tt)
  | inr (inl (p, e)) ↦ (stopped ∷ exited p ∷ [], e, (refl, (refl, tt)))
  | inr (inr e) ↦ (stopped ∷ [], e, (refl, tt))
]

Adds-trans : (a b d : List SupervisorEvent) → Adds a b → Adds b d → Adds a d
Adds-trans a b d (new, e, h) (new', e', h') = (
  new' ++ new,
  e' ∙ ap (λ xs. new' ++ xs) e ∙ sym (append_assoc new' new a),
  All-append (λ x. is_quiet x ≡ true) new' new h' h,
)

pub still_cancelled :
    (c : Config) {s t : Supervision} → Steps c s t → s.cancelled ≡ true → t.cancelled ≡ true
still_cancelled c here h = h
still_cancelled c (then_one steps step) h = (Step-Calm c step (still_cancelled c steps h)).0

-- Once the token is cancelled, no child is announced, no readiness, no restart and no surrender:
-- whatever happens, the only events are exits and the end.
pub cancelled_quiet :
    (c : Config) (s t : Supervision) → s.cancelled ≡ true → Steps c s t → Adds s.events t.events
cancelled_quiet c s t h here = ([], refl, tt)
cancelled_quiet c s u h (then_one {t} steps step) =
    Adds-trans s.events t.events u.events (cancelled_quiet c s t h steps)
      (elim (Step-Calm c step (still_cancelled c steps h)).1 [
        | inl (e, _) ↦ ([], e, tt)
        | inr calm ↦ Calm-Adds t u calm
      ])

-- A supervision that is cancelled while it runs ends, if it ends, with the event that says so.
pub cancelled_stops :
    (c : Config) (s t : Supervision)
    → s.cancelled ≡ true
    → is_over s.phase ≡ false
    → Steps c s t
    → is_over t.phase ≡ true
    → ends_stopped t.events ≡ true
cancelled_stops c s t h running here over = ground arith
cancelled_stops c s u h running (then_one {t} steps step) over =
    elim (Step-Calm c step (still_cancelled c steps h)).1 [
      | inl (e, same) ↦ ap ends_stopped e ∙ cancelled_stops c s t h running steps (sym same ∙ over)
      | inr calm ↦ calm.end over
    ]

pub over-Step :
    (c : Config) {s t : Supervision}
    → Step c s t
    → is_over s.phase ≡ true
    → (t.events ≡ s.events) × (is_over t.phase ≡ true)
unfolding loop_step acknowledge_ready
over-Step c (ticked d) h = (refl, h)
over-Step c child_died h = (refl, h)
over-Step c was_cancelled h = (refl, h)
over-Step c was_stopped h = (refl, h)
over-Step c (was_acknowledged pid) h = ground arith
over-Step c (looped i k) h = ground arith

-- A supervision that has ended says nothing more.
pub over_silent :
    (c : Config) (s t : Supervision)
    → is_over s.phase ≡ true
    → Steps c s t
    → (t.events ≡ s.events) × (is_over t.phase ≡ true)
over_silent c s t h here = (refl, h)
over_silent c s u h (then_one {t} steps step) =
    let (e, over) = over_silent c s t h steps in
    let (e', over') = over-Step c step over in (e' ∙ e, over')
