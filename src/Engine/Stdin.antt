-- ===== src/Engine/Stdin.antt =====
-- `write_stdin` of process/engine.rs: the task that writes to the stdin of a process.
use nyanpasu_utils.Prelude.{◌≡◌, refl, Bool, List, [], ◌∷◌, ◌++◌, Bytes, arith, if◌then◌else◌}
use mathlib.Core.List.{map}
use nyanpasu_utils.Io.{Result, ok, err}
use nyanpasu_utils.Process.{ProcessError}

-- A request, and whether the pipe will take it: both the write and the flush succeed.
pub record StdinWrite : Type 0 where
  pub text : Bytes
  pub taken : Bool

-- What the task did: the replies in order, and the texts that were written and flushed.
pub record StdinRun : Type 0 where
  pub replies : List (Result ProcessError (Unit {0}))
  pub written : List Bytes

abbrev pub refuse : StdinWrite → Result ProcessError (Unit {0})
refuse w = err ProcessError.stdin_unavailable

abbrev pub accept : StdinWrite → Result ProcessError (Unit {0})
accept w = ok tt

-- `write_stdin`, on all the requests that are ever received.
unfoldable pub run_stdin : List StdinWrite → StdinRun
run_stdin [] = record { replies = []; written = [] }
run_stdin (w ∷ requests) =
    let later = run_stdin requests in
    if w.taken
    then record { replies = ok tt ∷ later.replies; written = w.text ∷ later.written }
    else record { replies = err ProcessError.stdin_unavailable ∷ map refuse requests; written = [] }

-- The requests up to the first that the pipe does not take, and the others.
pub until_refused : List StdinWrite → List StdinWrite × List StdinWrite
until_refused [] = ([], [])
until_refused (w ∷ requests) =
    let rest = until_refused requests in
    if w.taken then (w ∷ rest.0, rest.1) else ([], w ∷ requests)

-- Every request has one reply, in order: those before the first that the pipe refuses are accepted,
-- and written in order; it and all behind it are refused, and nothing of them is acknowledged.
pub run_stdin_lem :
    (requests : List StdinWrite)
    → ((run_stdin requests).replies
        ≡ map accept (until_refused requests).0 ++ map refuse (until_refused requests).1)
      × ((run_stdin requests).written ≡ map (λ (w : StdinWrite). w.text) (until_refused requests).0)
      × ((until_refused requests).0 ++ (until_refused requests).1 ≡ requests)
unfolding run_stdin until_refused
run_stdin_lem [] = (refl, refl, refl)
run_stdin_lem (w ∷ requests) =
    let (a, b, c) = run_stdin_lem requests in (ground arith, ground arith, ground arith)
