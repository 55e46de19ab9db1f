-- ===== src/Core/Instance/Kill.antt =====
-- `kill` of core/instance.rs: the end of a child.
use nyanpasu_utils.Prelude.{
  ℕ, zero, suc, ◌+◌, ◌≤◌, ◌<◌, ◌≡◌, refl, Bool, true, false, Option, none, some, Bool-cases, inl,
  inr, arith,
}
use nyanpasu_utils.Io.{Io, IoError, ok, err}
use nyanpasu_utils.Os.Child.{
  Tries, Polled, exited, broken, not_yet, has_exited, poll_graceful, graceful_polls,
  gracefully_kill, graceful_sent, graceful_end_of,
}
use nyanpasu_utils.Core.Instance.{
  CoreInstance, KillAnswers, KillOutcome, poll, forced_end, force, graceful_end, graceful_done,
  kill_child, kill, forced_waits, graceful_waits,
}

-- One of the tries from `n` on and below `end` has found that the child had exited.
pub record Seen (tries : Tries) (n end : ℕ) : Type 0 where
  pub at : ℕ
  pub from : n ≤ at
  pub below : at < end
  pub found : has_exited (tries at) ≡ true

-- What the outcome of some tries from `n` on says.
record Bounded (tries : Tries) (n most : ℕ) (seen : Bool) (end : ℕ) : Type 0 where
  grown : n ≤ end
  within : end ≤ n + most
  exit_seen : seen ≡ true → Seen tries n end

abbrev is_exited : Polled → Bool
is_exited exited = true
is_exited _ = false

here_Seen : (tries : Tries) (n : ℕ) → has_exited (tries n) ≡ true → Seen tries n (suc n)
here_Seen tries n h = record { at = n; from = omega arith; below = omega arith; found = h }

later_Bounded :
    (tries : Tries) (n left end : ℕ) (seen : Bool)
    → Bounded tries (suc n) left seen end
    → Bounded tries n (suc left) seen end
later_Bounded tries n left end seen b = record {
  grown = omega (arith, b.grown);
  within = omega (arith, b.within);
  exit_seen = λ q.
      let s = b.exit_seen q in
      record { at = s.at; from = omega (arith, s.from); below = s.below; found = s.found };
}

once_Bounded :
    (tries : Tries) (n left : ℕ) (seen : Bool)
    → (seen ≡ true → has_exited (tries n) ≡ true)
    → Bounded tries n (suc left) seen (suc n)
once_Bounded tries n left seen h = record {
  grown = omega arith;
  within = omega arith;
  exit_seen = λ q. here_Seen tries n (h q);
}

-- The three things that a try may give.
data TryCases (t : Io (Option Bool)) : Type 0 where
  is_broken : (e : IoError) → t ≡ err e → TryCases t
  is_waiting : t ≡ ok none → TryCases t
  is_found : (status : Bool) → t ≡ ok (some status) → TryCases t

try_cases : (t : Io (Option Bool)) → TryCases t
try_cases (err e) = is_broken e refl
try_cases (ok none) = is_waiting refl
try_cases (ok (some status)) = is_found status refl

poll-Bounded :
    (tries : Tries) (left n : ℕ)
    → Bounded tries n left (is_exited (poll left n tries).0) (poll left n tries).1
unfolding poll
poll-Bounded tries zero n = record {
  grown = omega arith;
  within = omega arith;
  exit_seen = λ q. cc;
}
poll-Bounded tries (suc left) n = elim (try_cases (tries n)) [
  | is_broken e h ↦ rw (h, poll) (once_Bounded tries n left false (λ q. cc))
  | is_waiting h ↦ rw (h, poll) (later_Bounded tries n left _ _ (poll-Bounded tries left (suc n)))
  | is_found status h ↦ rw (h, poll) (once_Bounded tries n left true (λ q. rw h refl))
]

poll_graceful-within :
    (tries : Tries) (left n : ℕ)
    → (n ≤ (poll_graceful left n tries).1) × ((poll_graceful left n tries).1 ≤ n + left)
unfolding poll_graceful
poll_graceful-within tries zero n = (omega arith, omega arith)
poll_graceful-within tries (suc left) n = elim (Bool-cases (has_exited (tries n))) [
  | inl e ↦ rw (e, poll_graceful) (omega arith, omega arith)
  | inr e ↦
      let (g, h) = poll_graceful-within tries left (suc n) in
      rw (e, poll_graceful) (omega (arith, g), omega (arith, h))
]

graceful-within : (term : Io (Unit {0})) (tries : Tries) → (gracefully_kill term 0 tries).1 ≤ 31
unfolding gracefully_kill
graceful-within term tries = elim (Bool-cases (has_exited (tries 0))) [
  | inl e ↦ rw (e, gracefully_kill) (omega arith)
  | inr e ↦ rw (e, gracefully_kill) (sent_within term)
]
  where
    end_within : (r : Bool × ℕ) → r.1 ≤ 31 → (graceful_end_of r).1 ≤ 31
    end_within (true, n) h = h
    end_within (false, n) h = h

    sent_within : (term : Io (Unit {0})) → (graceful_sent term (suc 0) tries).1 ≤ 31
    sent_within (err e) = omega arith
    sent_within (ok x) =
        end_within (poll_graceful graceful_polls 1 tries)
          (omega (arith, (poll_graceful-within tries graceful_polls 1).1))

-- What holds of a kill: how many tries it made at most, and that the child was seen to have exited
-- if it succeeds.
pub record KillSound (tries : Tries) (most : ℕ) (o : KillOutcome) : Type 0 where
  pub within : o.tried ≤ most
  pub confirmed : o.result ≡ ok tt → Seen tries 0 o.tried

seen_from_start : (tries : Tries) (n end : ℕ) → Seen tries n end → Seen tries 0 end
seen_from_start tries n end s = record {
  at = s.at;
  from = omega arith;
  below = s.below;
  found = s.found;
}

forced_end-Sound :
    (i : CoreInstance) (tries : Tries) (n most : ℕ) (r : Polled × ℕ)
    → Bounded tries n most (is_exited r.0) r.1
    → KillSound tries (n + most) (forced_end i r)
forced_end-Sound i tries n most (exited, m) b = record {
  within = b.within;
  confirmed = λ q. seen_from_start tries n m (b.exit_seen refl);
}
forced_end-Sound i tries n most (broken e, m) b = record { within = b.within; confirmed = λ q. cc }
forced_end-Sound i tries n most (not_yet, m) b = record { within = b.within; confirmed = λ q. cc }

force-Sound :
    (i : CoreInstance) (forced : Io (Unit {0})) (n : ℕ) (tries : Tries)
    → KillSound tries (n + forced_waits) (force i forced n tries)
force-Sound i (err e) n tries = record { within = omega arith; confirmed = λ q. cc }
force-Sound i (ok x) n tries =
    forced_end-Sound i tries n forced_waits (poll forced_waits n tries)
      (poll-Bounded tries forced_waits n)

weaken :
    (tries : Tries) (m most : ℕ) (o : KillOutcome)
    → m ≤ most
    → KillSound tries m o
    → KillSound tries most o
weaken tries m most o h s = record { within = omega (arith, s.within); confirmed = s.confirmed }

graceful_end-Sound :
    (i : CoreInstance) (a : KillAnswers) (n most : ℕ) (r : Polled × ℕ)
    → Bounded a.tries n most (is_exited r.0) r.1
    → KillSound a.tries (n + most + forced_waits) (graceful_end i a r)
graceful_end-Sound i a n most (exited, m) b = record {
  within = omega (arith, b.within);
  confirmed = λ q. seen_from_start a.tries n m (b.exit_seen refl);
}
graceful_end-Sound i a n most (broken e, m) b = record {
  within = omega (arith, b.within);
  confirmed = λ q. cc;
}
graceful_end-Sound i a n most (not_yet, m) b =
    weaken a.tries (m + forced_waits) (n + most + forced_waits) _ (omega (arith, b.within))
      (force-Sound i a.forced m a.tries)

graceful_done-Sound :
    (i : CoreInstance) (a : KillAnswers) (r : Io (Unit {0}) × ℕ)
    → r.1 ≤ 31
    → KillSound a.tries 81 (graceful_done i a r)
graceful_done-Sound i a (ok x, n) h =
    weaken a.tries (n + graceful_waits + forced_waits) 81 _ (omega arith) (
      graceful_end-Sound i a n graceful_waits (poll graceful_waits n a.tries)
        (poll-Bounded a.tries graceful_waits n))
graceful_done-Sound i a (err e, n) h =
    weaken a.tries (n + forced_waits) 81 _ (omega arith) (force-Sound i a.forced n a.tries)

kill_child-Sound :
    (i : CoreInstance) (a : KillAnswers) (o : Option ℕ) → KillSound a.tries 81 (kill_child i a o)
kill_child-Sound i a none = record { within = omega arith; confirmed = λ q. cc }
kill_child-Sound i a (some child) = elim (Bool-cases a.joined) [
  | inl e ↦
      rw e (
        graceful_done-Sound i a (gracefully_kill a.term 0 a.tries) (graceful-within a.term a.tries))
  | inr e ↦
      rw e (weaken a.tries (0 + forced_waits) 81 _ (omega arith) (force-Sound i a.forced 0 a.tries))
]

-- Whatever the system answers, a kill ends after 81 looks at the child at most, and succeeds only
-- after one of them has shown that the child had exited.
pub kill_confirmed : (i : CoreInstance) (a : KillAnswers) → KillSound a.tries 81 (kill i a)
unfolding kill
kill_confirmed i a = kill_child-Sound i a i.instance
