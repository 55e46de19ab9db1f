-- ===== src/Core/Instance/Threads.antt =====
-- The threads of an instance in core/instance.rs: for each child that `run` starts, one that waits
-- for its end and one that looks at it after 1.5 seconds, beside the callers of `run` and `kill`.
-- An event is sent in the step that changes the state; the two are one lock apart in the code.
pub mod Told
use nyanpasu_utils.Prelude.{
  ℕ, suc, ◌≡◌, refl, Bool, true, false, Option, none, some, List, [], ◌∷◌, Bytes, ◌==◌,
  if◌then◌else◌,
}
use nyanpasu_utils.Process.{TerminatedPayload}
use nyanpasu_utils.Core.Definition.{CommandEvent, terminated, delay_checkpoint_pass}
use nyanpasu_utils.Core.Instance.{CoreInstanceState, running, stopped}

-- The thread of the check point: there is none yet, it sleeps, `try_wait` has shown it a child that
-- runs, or it is over.
pub data Checker : Type 0 where
  absent asleep passing over : Checker

-- What the threads share, and what they have sent, the latest first. Children are numbered; a caller
-- of `run` that has found the instance stopped is starting one.
pub record Threads : Type 0 where
  pub state : CoreInstanceState
  pub instance : Option ℕ
  pub spawned : ℕ
  pub starting : ℕ
  pub alive : ℕ → Bool
  pub waiting : ℕ → Bool
  pub checker : ℕ → Checker
  pub sent : List (ℕ × CommandEvent)

unfoldable pub first_threads : Threads
first_threads = record {
  state = stopped;
  instance = none;
  spawned = 0;
  starting = 0;
  alive = λ n. false;
  waiting = λ n. false;
  checker = λ n. Checker.absent;
  sent = [];
}

abbrev pub update {ℓ} : {A : Type ℓ} → (ℕ → A) → ℕ → A → ℕ → A
update f n a m = if n == m then a else f m

-- A child is spawned, with its two threads.
abbrev pub start_threads : ℕ → Threads → Threads
start_threads left s = record s {
  starting = left;
  spawned = suc s.spawned;
  instance = some s.spawned;
  alive = update s.alive s.spawned true;
  waiting = update s.waiting s.spawned true;
  checker = update s.checker s.spawned Checker.asleep;
}

-- The thread that waits has seen the end.
abbrev pub tell_end : ℕ → TerminatedPayload → Threads → Threads
tell_end n payload s = record s {
  state = stopped;
  waiting = update s.waiting n false;
  sent = (n, terminated payload) ∷ s.sent;
}

-- The wait has failed.
abbrev pub tell_error : ℕ → Bytes → Threads → Threads
tell_error n message s = record s {
  waiting = update s.waiting n false;
  sent = (n, CommandEvent.error message) ∷ s.sent;
}

-- The thread of the check point marks the instance as running.
abbrev pub mark_running : ℕ → Threads → Threads
mark_running n s = record s {
  state = running;
  checker = update s.checker n Checker.over;
  sent = (n, delay_checkpoint_pass) ∷ s.sent;
}

abbrev pub set_checker : ℕ → Checker → Threads → Threads
set_checker n c s = record s { checker = update s.checker n c }

abbrev pub end_child : ℕ → Threads → Threads
end_child n s = record s { alive = update s.alive n false }

-- One step of a caller, a thread, or a child. The last is the end of a `kill` that was forced.
pub data Step : Threads → Threads → Type 0 where
  run_checked : (s : Threads) → s.state ≡ stopped → Step s (record s { starting = suc s.starting })
  run_spawned : (s : Threads) (left : ℕ) → s.starting ≡ suc left → Step s (start_threads left s)
  child_exits : (s : Threads) (n : ℕ) → s.alive n ≡ true → Step s (end_child n s)
  waiter_tells :
      (s : Threads) (n : ℕ) (payload : TerminatedPayload)
      → s.waiting n ≡ true
      → s.alive n ≡ false
      → Step s (tell_end n payload s)
  waiter_fails :
      (s : Threads) (n : ℕ) (message : Bytes) → s.waiting n ≡ true → Step s (tell_error n message s)
  checker_passes :
      (s : Threads) (n : ℕ)
      → s.checker n ≡ Checker.asleep
      → s.alive n ≡ true
      → Step s (set_checker n Checker.passing s)
  checker_leaves :
      (s : Threads) (n : ℕ) → s.checker n ≡ Checker.asleep → Step s (set_checker n Checker.over s)
  checker_marks : (s : Threads) (n : ℕ) → s.checker n ≡ Checker.passing → Step s (mark_running n s)
  force_killed :
      (s : Threads) (n : ℕ)
      → s.instance ≡ some n
      → s.alive n ≡ false
      → Step s (record s { instance = none; state = stopped })

pub data Reach (s : Threads) : Threads → Type 0 where
  here : Reach s s
  next : {t u : Threads} → Reach s t → Step t u → Reach s u
