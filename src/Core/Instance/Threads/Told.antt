-- ===== src/Core/Instance/Threads/Told.antt =====
-- The threads of an instance in core/instance.rs: what they tell of a child, and the mark that they
-- may leave.
use nyanpasu_utils.Prelude.{
  ℕ, suc, ◌+◌, ◌≤◌, ◌<◌, ◌≡◌, Bool, true, false, some, List, [], ◌∷◌, ◌==◌, if◌then◌else◌, arith,
  ◌&&◌,
}
use nyanpasu_utils.Process.{TerminatedPayload}
use nyanpasu_utils.Core.Definition.{CommandEvent, terminated, delay_checkpoint_pass}
use nyanpasu_utils.Core.Instance.{running}
use nyanpasu_utils.Core.Instance.Threads.{
  Threads, Checker, first_threads, tell_end, mark_running, set_checker, end_child, Step,
  run_checked, run_spawned, child_exits, waiter_tells, waiter_fails, checker_passes, checker_leaves,
  checker_marks, force_killed, Reach, here, next,
}

abbrev is_end : CommandEvent → Bool
is_end (terminated payload) = true
is_end _ = false

abbrev is_pass : CommandEvent → Bool
is_pass delay_checkpoint_pass = true
is_pass _ = false

-- How many events of a kind were sent for a child.
abbrev pub count_sent : (CommandEvent → Bool) → ℕ → List (ℕ × CommandEvent) → ℕ
count_sent kind n [] = 0
count_sent kind n ((m, e) ∷ l) =
    let rest = count_sent kind n l in if n == m && kind e then suc rest else rest

-- How often the end of a child was sent, and how often its pass of the check point.
abbrev pub ends : ℕ → List (ℕ × CommandEvent) → ℕ
ends = count_sent is_end

abbrev pub passes : ℕ → List (ℕ × CommandEvent) → ℕ
passes = count_sent is_pass

abbrev to_come : Bool → ℕ
to_come true = 1
to_come false = 0

abbrev mark_to_come : Checker → ℕ
mark_to_come Checker.asleep = 1
mark_to_come Checker.passing = 1
mark_to_come _ = 0

-- What holds of each child in every state.
record Inv (n : ℕ) (s : Threads) : Type 0 where
  fresh_waiting : s.spawned ≤ n → s.waiting n ≡ false
  fresh_checker : s.spawned ≤ n → mark_to_come (s.checker n) ≡ 0
  fresh_ends : s.spawned ≤ n → ends n s.sent ≡ 0
  fresh_passes : s.spawned ≤ n → passes n s.sent ≡ 0
  told : ends n s.sent + to_come (s.waiting n) ≤ 1
  passed : passes n s.sent + mark_to_come (s.checker n) ≤ 1
  dead : 0 < ends n s.sent → s.alive n ≡ false

step-Inv : (n : ℕ) {s t : Threads} → Step s t → Inv n s → Inv n t
step-Inv n (run_checked s h) v = ground arith
step-Inv n (run_spawned s left h) v = ground arith
step-Inv n (child_exits s m h) v = ground arith
step-Inv n (waiter_tells s m payload h k) v = ground arith
step-Inv n (waiter_fails s m message h) v = ground arith
step-Inv n (checker_passes s m h k) v = ground arith
step-Inv n (checker_leaves s m h) v = ground arith
step-Inv n (checker_marks s m h) v = ground arith
step-Inv n (force_killed s m h k) v = ground arith

start-Inv : (n : ℕ) → Inv n first_threads
unfolding first_threads
start-Inv n = ground arith

reach-Inv : (n : ℕ) {s : Threads} → Reach first_threads s → Inv n s
reach-Inv n here = start-Inv n
reach-Inv n (next r st) = step-Inv n st (reach-Inv n r)

-- In every state that the threads reach, whatever the children and the callers do, of each child the
-- end was sent at most once, and only of a child that runs no more; and its pass of the check point
-- was sent at most once.
pub told_once :
    (n : ℕ) (s : Threads)
    → Reach first_threads s
    → (ends n s.sent ≤ 1) × (passes n s.sent ≤ 1) × (0 < ends n s.sent → s.alive n ≡ false)
told_once n s r = let v = reach-Inv n r in (omega (arith, v.told), omega (arith, v.passed), v.dead)

-- A mark that outlives its child: the child has exited, no thread of it is left, and the instance is
-- marked as running and holds it.
pub record Stale (n : ℕ) (s : Threads) : Type 0 where
  pub marked : s.state ≡ running
  pub exited : s.alive n ≡ false
  pub no_waiter : s.waiting n ≡ false
  pub no_checker : s.checker n ≡ Checker.over
  pub held : s.instance ≡ some n

abbrev overtaken : ℕ → TerminatedPayload → Threads → Threads
overtaken n payload s =
    mark_running n (tell_end n payload (end_child n (set_checker n Checker.passing s)))

-- From every state in which the child of the instance runs, and neither of its threads has looked at
-- it, the threads can reach one in which the child has exited, the instance is marked as running and
-- holds it, and no thread of the child is left: the end comes between the look of the check point and
-- its mark.
pub check_point_overtaken :
    (n : ℕ) (payload : TerminatedPayload) (s : Threads)
    → Reach first_threads s
    → s.instance ≡ some n
    → s.alive n ≡ true
    → s.waiting n ≡ true
    → s.checker n ≡ Checker.asleep
    → (t : Threads) × Reach first_threads t × Stale n t
check_point_overtaken n payload s r held alive waiting asleep = (
  overtaken n payload s,
  next
      (next (next (next r (checker_passes s n asleep alive)) (child_exits _ n alive))
        (waiter_tells _ n payload waiting (ground arith)))
      (checker_marks _ n (ground arith)),
  ground arith,
)
