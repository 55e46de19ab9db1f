-- ===== src/Os/Child.antt =====
-- `ChildExt::gracefully_kill` of os/child.rs, on Unix.
use nyanpasu_utils.Prelude.{ℕ, zero, suc, Bool, true, false, Option, some}
use nyanpasu_utils.Io.{Io, IoError, ok, err, io_error, ErrorKind}

-- What the tries to wait for a child give, in order: an error, nothing yet, or whether its status
-- is a success.
abbrev pub Tries : Type 0
Tries = ℕ → Io (Option Bool)

-- What came out, and how many tries were made by then.
pub data Polled : Type 0 where
  exited : Polled
  broken : IoError → Polled
  not_yet : Polled

-- `if let Ok(Some(_)) = self.try_wait()`
abbrev pub has_exited : Io (Option Bool) → Bool
has_exited (ok (some status)) = true
has_exited _ = false

-- The 30 tries after the signal; a try that fails counts as none.
unfoldable pub poll_graceful : ℕ → ℕ → Tries → Bool × ℕ
poll_graceful zero i tries = (false, i)
poll_graceful (suc left) i tries =
    let more = poll_graceful left (suc i) tries in
    elim (has_exited (tries i)) [ true ↦ (true, suc i) | false ↦ more ]

abbrev pub graceful_polls : ℕ
graceful_polls = 30

abbrev pub graceful_end_of : Bool × ℕ → Io (Unit {0}) × ℕ
graceful_end_of (true, i) = (ok tt, i)
graceful_end_of (false, i) = (err (io_error ErrorKind.other), i)

abbrev pub graceful_sent : Io (Unit {0}) → ℕ → Tries → Io (Unit {0}) × ℕ
graceful_sent (err e) i tries = (err (io_error ErrorKind.other), i)
graceful_sent (ok _) i tries = graceful_end_of (poll_graceful graceful_polls i tries)

-- `gracefully_kill`, where `term` is what `kill(pid, SIGTERM)` gives, from the try `i`.
unfoldable pub gracefully_kill : Io (Unit {0}) → ℕ → Tries → Io (Unit {0}) × ℕ
unfolding poll_graceful
gracefully_kill term i tries = elim (has_exited (tries i)) [
  | true ↦ (ok tt, suc i)
  | false ↦ graceful_sent term (suc i) tries
]
