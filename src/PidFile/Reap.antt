-- ===== src/PidFile/Reap.antt =====
-- The reaping of an owned process: `kill_recorded_process` on Linux, `identity_for_reap`,
-- `wait_for_process_identity`, `identity_for_confirmation` and `reap_record_with_kill`. A sleep is a
-- call: it advances the clock.
pub mod Signals
pub mod Safety
pub mod Confirm
use nyanpasu_utils.Prelude.{
  ℕ, zero, suc, ◌+◌, ◌≡◌, refl, Bool, true, false, not, Option, none, some, List, [], ◌∷◌, ◌⊎◌, inl,
  inr, ◌==◌, if◌then◌else◌,
}
use nyanpasu_utils.Io.{Io, IoError, Result, ok, err, ErrorKind, io_error, is_permission_denied}
use nyanpasu_utils.System.World.{World, Signal}
use nyanpasu_utils.System.Act.{Act, Sys, and_then, ◌>>=◌, ◌>>◌, lift, pure, attempt, tick}
use nyanpasu_utils.PidFile.Record.{
  EpochPidRecord, ProcessIdentity, OrphanReapOutcome, not_found, already_exited, killed,
  record_matches_identity,
}
use nyanpasu_utils.PidFile.Format.{identity_error}
use nyanpasu_utils.PidFile.Identity.{process_identity}

abbrev pub identity_wait_attempts : ℕ
identity_wait_attempts = 20

abbrev pub kill_wait_attempts : ℕ
kill_wait_attempts = 100

-- `tokio::time::sleep`
abbrev pub sleep : Sys (Unit {0})
sleep w = (ok tt, tick w)

-- `identity_query_is_provisional` of a system other than Windows.
abbrev pub identity_query_is_provisional : IoError → Bool
identity_query_is_provisional e = is_permission_denied e.kind

abbrev pub sleep_unless_last : ℕ → Sys (Unit {0})
sleep_unless_last zero = pure tt
sleep_unless_last (suc _) = sleep

abbrev last_error : Option IoError → IoError
last_error none = io_error ErrorKind.permission_denied
last_error (some e) = e

-- One round of `identity_for_reap`: its result, or the error to remember.
abbrev pub reap_step : Io (Option ProcessIdentity) → Io (Option ProcessIdentity) ⊎ IoError
reap_step (ok identity) = inl (ok identity)
reap_step (err e) = if identity_query_is_provisional e then inr e else inl (err e)

-- The loop of `identity_for_reap`, by the attempts left.
unfoldable pub identity_attempts : ℕ → Option IoError → ℕ → Sys (Option ProcessIdentity)
identity_attempts zero access_error pid = lift (err (last_error access_error))
identity_attempts (suc n) access_error pid = do
  found ← attempt (process_identity pid)
  elim (reap_step found) [
    | inl result ↦ lift result
    | inr e ↦ (sleep_unless_last n >> identity_attempts n (some e) pid)
  ]

-- `identity_for_reap`
unfoldable pub identity_for_reap : ℕ → Sys (Option ProcessIdentity)
identity_for_reap pid = identity_attempts identity_wait_attempts none pid

abbrev pub wait_result : Option IoError → Io (Option ProcessIdentity)
wait_result none = ok none
wait_result (some e) = err e

-- One round of `wait_for_process_identity`: its result, or the error to remember.
abbrev pub wait_step :
    Option IoError → Io (Option ProcessIdentity) → Io (Option ProcessIdentity) ⊎ Option IoError
wait_step access_error (ok (some i)) = inl (ok (some i))
wait_step access_error (ok none) = inr access_error
wait_step access_error (err e) =
    if identity_query_is_provisional e then inr (some e) else inl (err e)

-- The loop of `wait_for_process_identity`, by the attempts left.
unfoldable pub wait_attempts : ℕ → Option IoError → ℕ → Sys (Option ProcessIdentity)
wait_attempts zero access_error pid = lift (wait_result access_error)
wait_attempts (suc n) access_error pid = do
  found ← attempt (process_identity pid)
  elim (wait_step access_error found) [
    | inl result ↦ lift result
    | inr remembered ↦ (sleep_unless_last n >> wait_attempts n remembered pid)
  ]

-- `wait_for_process_identity`
unfoldable pub wait_for_process_identity : ℕ → Sys (Option ProcessIdentity)
wait_for_process_identity pid = wait_attempts identity_wait_attempts none pid

-- `identity_for_confirmation`
unfoldable pub identity_for_confirmation :
    Io (Option ProcessIdentity) → Bool → Io (Option ProcessIdentity)
identity_for_confirmation (ok identity) unowned_is_dead = ok identity
identity_for_confirmation (err e) unowned_is_dead = if unowned_is_dead then ok none else err e

abbrev signal_world : World → Signal → World
signal_world w s = record (tick w) { signals = s ∷ w.signals }

abbrev pub enosys : ℕ
enosys = 38

abbrev pub esrch : ℕ
esrch = 3

abbrev pub has_os_error : ℕ → IoError → Bool
has_os_error n e = elim e.raw_os_error [ none ↦ false | some m ↦ m == n ]

abbrev ignore_gone : Io (Unit {0}) → Io (Unit {0})
ignore_gone (ok _) = ok tt
ignore_gone (err e) = if has_os_error esrch e then ok tt else err e

-- `LinuxPidFd::open`
unfoldable pub pidfd_open : ℕ → Sys (Unit {0})
pidfd_open pid w = (w.pidfd_open w.clock pid, tick w)

-- `LinuxPidFd::kill`: a process that is gone is no error.
unfoldable pub pidfd_kill : ℕ → Sys (Unit {0})
pidfd_kill pid w = (
  ignore_gone (w.send_signal w.clock pid),
  signal_world w (record { time = w.clock; target = pid; by_pidfd = true }),
)

-- `libc::kill(pid, SIGKILL)`
unfoldable pub kill_by_pid : ℕ → Sys (Unit {0})
kill_by_pid pid w = (
  w.send_signal w.clock pid,
  signal_world w (record { time = w.clock; target = pid; by_pidfd = false }),
)

-- The checks between the query of the identity and the signal.
unfoldable pub check_identity : EpochPidRecord → Option ProcessIdentity → Io (Unit {0})
check_identity r none = err (io_error ErrorKind.not_found)
check_identity r (some i) = if not (record_matches_identity r i) then identity_error else ok tt

-- `kill_revalidated_by_pid`
unfoldable pub kill_revalidated_by_pid : EpochPidRecord → Sys (Unit {0})
kill_revalidated_by_pid r = do
  identity ← process_identity r.pid
  lift (check_identity r identity)
  kill_by_pid r.pid

unfoldable pub kill_opened : EpochPidRecord → Io (Unit {0}) → Sys (Unit {0})
kill_opened r (ok _) = do
  identity ← process_identity r.pid
  lift (check_identity r identity)
  pidfd_kill r.pid
kill_opened r (err e) = if has_os_error enosys e then kill_revalidated_by_pid r else lift (err e)

-- `kill_recorded_process` on Linux
unfoldable pub kill_recorded_process : EpochPidRecord → Sys (Unit {0})
kill_recorded_process r = do opened ← attempt (pidfd_open r.pid); kill_opened r opened

abbrev pub or_later : Option IoError → Io OrphanReapOutcome → Io OrphanReapOutcome
or_later none later = later
or_later (some e) later = err e

abbrev pub error_of : Io (Unit {0}) → Option IoError
error_of (ok _) = none
error_of (err e) = some e

-- What one look at the process says after the kill: the outcome, or the error to remember.
abbrev pub look :
    EpochPidRecord → Bool → Io (Option ProcessIdentity) → Io OrphanReapOutcome ⊎ Option IoError
look r unowned_is_dead (ok none) = inl (ok killed)
look r unowned_is_dead (ok (some i)) =
    if not (record_matches_identity r i) then inl (ok killed) else inr none
look r unowned_is_dead (err e) =
    if identity_query_is_provisional e
    then (if unowned_is_dead then inl (ok killed) else inr (some e))
    else if unowned_is_dead
    then inl (ok killed)
    else inl (err e)

-- The window after the kill, by the attempts left.
unfoldable pub confirm :
    ℕ → EpochPidRecord → Bool → Option IoError → Option IoError → Sys OrphanReapOutcome
confirm zero r unowned_is_dead kill_error identity_err =
    lift (or_later kill_error (or_later identity_err (err (io_error ErrorKind.timed_out))))
confirm (suc n) r unowned_is_dead kill_error identity_err = do
  found ← attempt (process_identity r.pid)
  elim (look r unowned_is_dead found) [
    | inl outcome ↦ lift outcome
    | inr remembered ↦ (sleep_unless_last n >> confirm n r unowned_is_dead kill_error remembered)
  ]

unfoldable pub reap_identified :
    EpochPidRecord → Bool → Sys (Unit {0}) → Option ProcessIdentity → Sys OrphanReapOutcome
reap_identified r unowned_is_dead kill none = pure already_exited
reap_identified r unowned_is_dead kill (some i) =
    if not (record_matches_identity r i)
    then (if unowned_is_dead then pure already_exited else lift identity_error)
    else (do
      result ← attempt kill
      confirm kill_wait_attempts r unowned_is_dead (error_of result) none)

-- `reap_record_with_kill`
unfoldable pub reap_record_with_kill :
    EpochPidRecord → Bool → Sys (Unit {0}) → Sys OrphanReapOutcome
reap_record_with_kill r unowned_is_dead kill = do
  found ← attempt (identity_for_reap r.pid)
  identity ← lift (identity_for_confirmation found unowned_is_dead)
  reap_identified r unowned_is_dead kill identity
