-- ===== src/Engine/Handle/Waiting.antt =====
-- `wait`, `kill` and `graceful_kill` of process/handle.rs on a process whose pump runs.
use mathlib.Core.List.{map}
use mathlib.Core.Option.{some-injective}
use nyanpasu_utils.Prelude.{
  ℕ, ◌≡◌, ◌≢◌, refl, sym, ap, ◌∙◌, true, false, not, ◌&&◌, ◌||◌, none, some, Option-cases,
  Bool-cases, inl, inr, List, [], ◌∷◌, ◌++◌, Bytes, arith,
}
use nyanpasu_utils.Io.{Result}
use nyanpasu_utils.Process.{TerminatedPayload, ProcessError}
use nyanpasu_utils.Engine.PumpState.{PumpParts, Pump, Stage, ended, start_pump}
use nyanpasu_utils.Engine.Pump.{PumpSteps, here, after_time, then_one}
use nyanpasu_utils.Engine.Pump.Terminal.{terminal_lem, has_one, is_nil, is_ended}
use nyanpasu_utils.Engine.Handle.{Look, wait, told, look_at, latest, is_ended_stage}
use nyanpasu_utils.Engine.Handle.Published.{oldest, steps-Told}

-- States of a pump in the order in which they are seen, up to a last one.
abbrev pub Leads : PumpParts → Pump → List Pump → Pump → Type 0
Leads parts s [] t = PumpSteps parts s t
Leads parts s (u ∷ l) t = PumpSteps parts s u × Leads parts u l t

steps_trans :
    (parts : PumpParts) {s t u : Pump}
    → PumpSteps parts s t
    → PumpSteps parts t u
    → PumpSteps parts s u
steps_trans parts p here = p
steps_trans parts p (after_time d q) = after_time d (steps_trans parts p q)
steps_trans parts p (then_one i q k) = then_one i (steps_trans parts p q) k

Leads-steps :
    (parts : PumpParts) (s : Pump) (l : List Pump) (t : Pump)
    → Leads parts s l t
    → PumpSteps parts s t
Leads-steps parts s [] t h = h
Leads-steps parts s (u ∷ l) t h = steps_trans parts h.0 (Leads-steps parts u l t h.1)

abbrev End : Type 0
End = Result Bytes TerminatedPayload

-- With one publication at most, the latest one is the only one.
only_one :
    (l : List End) (x : End) → (is_nil l || has_one l) ≡ true → latest l ≡ some x → l ≡ x ∷ []
only_one [] x h k = cc
only_one (y ∷ []) x h k = ground arith
only_one (y ∷ z ∷ l) x h k = cc

one_published : (l : List End) → has_one l ≡ true → (x : End) × (l ≡ x ∷ [])
one_published [] h = cc
one_published (x ∷ []) h = (x, refl)
one_published (x ∷ y ∷ l) h = cc

oldest_of_one : (l : List End) (x : End) → l ≡ x ∷ [] → oldest l ≡ some x
unfolding oldest
oldest_of_one l x e = rw e refl

one_of_oldest :
    (l : List End) (x : End) → (is_nil l || has_one l) ≡ true → oldest l ≡ some x → l ≡ x ∷ []
unfolding oldest
one_of_oldest [] x h k = cc
one_of_oldest (y ∷ []) x h k = ground arith
one_of_oldest (y ∷ z ∷ l) x h k = cc

ended_told :
    (stage : Stage) (s : Pump)
    → s.stage ≡ stage
    → is_ended_stage s.stage ≡ true
    → (not (is_ended s.stage) || (s.cleaned && has_one s.published)) ≡ true
    → has_one s.published ≡ true
ended_told ended s q e h = ground arith
ended_told stage s q e h = ground arith

none-ne-some : {A : Type 0} (x : A) → none ≢ some x
none-ne-some x h = cc

wait_nil : wait [] ≡ none
unfolding wait
wait_nil = refl

wait_published :
    (u : Pump) (later : List Look) (x : End)
    → latest u.published ≡ some x
    → wait (look_at u ∷ later) ≡ some (told x)
unfolding wait look_at
wait_published u later x f = rw (f, wait) refl

wait_later :
    (u : Pump) (later : List Look)
    → latest u.published ≡ none
    → is_ended_stage u.stage ≡ false
    → wait (look_at u ∷ later) ≡ wait later
unfolding wait look_at
wait_later u later f e = rw (f, e, wait) refl

module _ (parts : PumpParts) (now : ℕ) where
  abbrev Reached : Pump → Type 0
  Reached = PumpSteps parts (start_pump parts now)

  -- What a state has published is what every later state has published.
  stays_published :
      (s t : Pump) (x : End)
      → Reached s
      → PumpSteps parts s t
      → latest s.published ≡ some x
      → t.published ≡ x ∷ []
  stays_published s t x r steps e =
      one_of_oldest t.published x (terminal_lem parts now t (steps_trans parts r steps)).told_once (
        steps-Told x parts steps (
          oldest_of_one s.published x
            (only_one s.published x (terminal_lem parts now s r).told_once e)))

  ended_published :
      (s : Pump) → Reached s → is_ended_stage s.stage ≡ true → (x : End) × (s.published ≡ x ∷ [])
  ended_published s r e =
      one_published s.published
        (ended_told s.stage s refl e (terminal_lem parts now s r).told_at_end)

  not_ended : (s : Pump) → Reached s → latest s.published ≡ none → is_ended_stage s.stage ≡ false
  not_ended s r e = elim (Bool-cases (is_ended_stage s.stage)) [
    | inl q ↦ let (x, f) = ended_published s r q in absurd (none-ne-some x (sym e ∙ ap latest f))
    | inr q ↦ q
  ]

  -- Whatever a wait returns, at whichever states of the pump it looks, is the end that the pump has
  -- published, and that every later state shows, alone: all waits for a process agree, and none is
  -- told that the pump was dropped.
  pub wait_told :
      (l : List Pump) (t : Pump) (r : Result ProcessError TerminatedPayload) (s : Pump)
      → PumpSteps parts (start_pump parts now) s
      → Leads parts s l t
      → wait (map look_at l) ≡ some r
      → (x : Result Bytes TerminatedPayload) × (t.published ≡ x ∷ []) × (r ≡ told x)
  wait_told [] t r s h k e = cc (wait_nil)
  wait_told (u ∷ l) t r s h k e =
      let reached = steps_trans parts h k.0 in
      elim (Option-cases (latest u.published)) [
        | inr (x, f) ↦ (
          x,
          stays_published u t x reached (Leads-steps parts u l t k.1) f,
          some-injective _ _ (sym e ∙ wait_published u (map look_at l) x f),
        )
        | inl f ↦
            wait_told l t r u reached k.1
              (sym (wait_later u (map look_at l) f (not_ended u reached f)) ∙ e)
      ]

  -- A wait that looks at a pump that has ended, at the latest, returns what the pump has published.
  pub wait_returns :
      (l : List Pump) (t : Pump) (s : Pump)
      → PumpSteps parts (start_pump parts now) s
      → Leads parts s l t
      → is_ended_stage t.stage ≡ true
      → (x : Result Bytes TerminatedPayload) × (t.published ≡ x ∷ [])
        × (wait (map look_at (l ++ t ∷ [])) ≡ some (told x))
  wait_returns [] t s h k e =
      let (x, f) = ended_published t (steps_trans parts h k) e in
      (x, f, wait_published t [] x (ap latest f))
  wait_returns (u ∷ l) t s h k e =
      let reached = steps_trans parts h k.0 in
      elim (Option-cases (latest u.published)) [
        | inr (x, f) ↦ (
          x,
          stays_published u t x reached (Leads-steps parts u l t k.1) f,
          wait_published u (map look_at (l ++ t ∷ [])) x f,
        )
        | inl f ↦
            let (x, p, w) = wait_returns l t u reached k.1 e in
            (x, p, wait_later u (map look_at (l ++ t ∷ [])) f (not_ended u reached f) ∙ w)
      ]
