-- ===== src/Engine/Control.antt =====
-- The requests to the pump of a process: `Ctrl` of process/handle.rs and `handle_ctrl`.
use nyanpasu_utils.Prelude.{
  ℕ, ◌+◌, ◌≤◌, ◌≡◌, Bool, true, false, Option, none, some, Bytes, ltb, ltb→lt, Bool-cases, inl, inr,
  if◌then◌else◌, arith,
}
use nyanpasu_utils.Io.{Result, ok, err}
use nyanpasu_utils.Process.{ProcessError}

pub data Ctrl : Type 0 where
  graceful_kill : Ctrl
  kill : Ctrl
  write_stdin : Bytes → Ctrl

-- What the process group and the stdin channel answer to a request.
pub record Answers : Type 0 where
  pub term_sent : Bool
  pub killed : Result ProcessError (Unit {0})
  pub queued : Bool

-- What a request does: the deadline afterwards, whether the group was killed, the reply (none when
-- the writer of stdin replies later), and whether the process is dying.
pub record Handled : Type 0 where
  pub hard_kill_at : Option ℕ
  pub kill_all : Bool
  pub reply : Option (Result ProcessError (Unit {0}))
  pub is_kill : Bool

-- The earlier of the deadline that stands and a new one.
abbrev pub earlier : Option ℕ → ℕ → Option ℕ
earlier none grace = some grace
earlier (some deadline) grace = if ltb grace deadline then some grace else some deadline

-- `handle_ctrl` on Unix; `has_stdin` says whether stdin is piped.
unfoldable pub handle_ctrl : ℕ → ℕ → Bool → Option ℕ → Ctrl → Answers → Handled
handle_ctrl now kill_grace has_stdin deadline kill a = record {
  hard_kill_at = none;
  kill_all = true;
  reply = some a.killed;
  is_kill = true;
}
handle_ctrl now kill_grace has_stdin deadline graceful_kill a =
    if a.term_sent
    then record {
      hard_kill_at = earlier deadline (now + kill_grace);
      kill_all = false;
      reply = some (ok tt);
      is_kill = true;
    }
    else record { hard_kill_at = deadline; kill_all = true; reply = some a.killed; is_kill = true }
handle_ctrl now kill_grace has_stdin deadline (write_stdin text) a = record {
  hard_kill_at = deadline;
  kill_all = false;
  reply =
      if has_stdin
      then (if a.queued then none else some (err ProcessError.stdin_unavailable))
      else some (err ProcessError.stdin_unavailable);
  is_kill = false;
}

-- The deadline is not later than a time.
abbrev pub DueBy : Option ℕ → ℕ → Type 0
DueBy none t = ⊥
DueBy (some deadline) t = deadline ≤ t

-- A deadline is not later than the one that stood before, if one did.
abbrev pub NotLater : Option ℕ → Option ℕ → Type 0
NotLater deadline none = Unit
NotLater none (some before) = ⊥
NotLater (some deadline) (some before) = deadline ≤ before

-- A graceful kill whose signal was sent leaves a deadline for the hard kill within the grace period, and
-- never puts off a deadline that stood.
pub graceful_kill_lem :
    (now kill_grace : ℕ) (has_stdin : Bool) (deadline : Option ℕ) (a : Answers)
    → a.term_sent ≡ true
    → DueBy
        (handle_ctrl now kill_grace has_stdin deadline graceful_kill a).hard_kill_at
        (now + kill_grace)
      × NotLater
          (handle_ctrl now kill_grace has_stdin deadline graceful_kill a).hard_kill_at
          deadline
unfolding handle_ctrl
graceful_kill_lem now kill_grace has_stdin none a h = (ground arith, tt)
graceful_kill_lem now kill_grace has_stdin (some deadline) a h =
    graceful_with_deadline now kill_grace deadline a h
  where
    graceful_with_deadline :
        (now kill_grace deadline : ℕ) (a : Answers)
        → a.term_sent ≡ true
        → DueBy
            (handle_ctrl now kill_grace has_stdin (some deadline) graceful_kill a).hard_kill_at
            (now + kill_grace)
          × NotLater
              (handle_ctrl now kill_grace has_stdin (some deadline) graceful_kill a).hard_kill_at
              (some deadline)
    graceful_with_deadline now kill_grace deadline a h =
        elim (Bool-cases (ltb (now + kill_grace) deadline)) [
          | inl e ↦ rw (h, e) (omega arith, omega (arith, ltb→lt _ _ e))
          | inr e ↦ rw (h, e) (ground arith, omega arith)
        ]
