-- ===== src/Supervisor/Loop/Readiness.antt =====
-- When a child passes for ready: the probe's two branches, and `acknowledge_ready`.
use nyanpasu_utils.Prelude.{
  ℕ, suc, ◌<◌, ◌≡◌, ◌≢◌, Bool, true, false, ◌||◌, some, List, [], ◌∷◌, leb, if◌then◌else◌, arith,
}
use nyanpasu_utils.Supervisor.State.{
  Config, SupervisorEvent, ready, watching, Supervision, is_acknowledged,
}
use nyanpasu_utils.Supervisor.Loop.{
  try_restart, after_exit, on_child_event, on_deadline, on_acknowledged, Input, is_alive,
  is_current, loop_step, acknowledge_ready,
}

-- An acknowledgement is accepted for the live current child only, while its readiness is awaited, and
-- a second one for the same child is refused; zero is no child's number.
pub acknowledge_once :
    (pid : ℕ) (s : Supervision)
    → pid ≢ 0
    → (acknowledge_ready pid s).0 ≡ true
    → (is_current pid s.current ≡ true)
      × (s.ready_pending ≡ pid)
      × ((acknowledge_ready pid (acknowledge_ready pid s).1).0 ≡ false)
unfolding acknowledge_ready
acknowledge_once pid s nz h = (ground arith, ground arith, ground arith)

abbrev pub is_ready_event : SupervisorEvent → Bool
is_ready_event ready = true
is_ready_event _ = false

-- How many times readiness was announced.
unfoldable pub readies : List SupervisorEvent → ℕ
readies [] = 0
readies (e ∷ events) = let n = readies events in if is_ready_event e then suc n else n

-- A step that announces readiness starts from a live child that was not cancelled and whose
-- readiness is awaited, and resets the count of attempts; with a delay as the probe, the delay's
-- end has passed.
pub ready_sound :
    (c : Config) (i : Input) (s t : Supervision) (ready_at : ℕ) (pending seen : Bool)
    → s.phase ≡ watching ready_at pending seen
    → loop_step c i s ≡ some t
    → readies s.events < readies t.events
    → (is_alive s.current ≡ true)
      × (s.cancelled ≡ false)
      × (pending ≡ true)
      × (t.attempt ≡ 0)
      × (is_acknowledged c.readiness || leb ready_at s.clock ≡ true)
unfolding loop_step readies on_child_event on_deadline on_acknowledged after_exit try_restart
ready_sound c i s t ready_at pending seen e k lt = ground arith
