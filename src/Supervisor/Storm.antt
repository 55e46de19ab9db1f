-- ===== src/Supervisor/Storm.antt =====
-- `RestartStormPolicy` of process/supervisor.rs, and the window of abnormal exits in its loop.
pub mod Laws
use nyanpasu_utils.Prelude.{
  ℕ, ◌+◌, ◌-◌, ◌*◌, ◌^◌, ◌≡◌, refl, max, Bool, true, false, List, [], ◌∷◌, ◌++◌, length, ltb, leb,
  if◌then◌else◌,
}

pub record RestartStormPolicy : Type 0 where
  pub max_failures : ℕ
  pub window : ℕ

-- `RestartStormPolicy::new`; a millisecond has 10^6 nanoseconds.
abbrev pub new_storm_policy : ℕ → ℕ → RestartStormPolicy
new_storm_policy max_failures window = record {
  max_failures = max max_failures 1;
  window = max window (10 ^ 6);
}

-- `RestartStormPolicy::default`
abbrev pub default_storm_policy : RestartStormPolicy
default_storm_policy = new_storm_policy 5 (5 * 60 * 10 ^ 9)

-- The loop that pops the exits before the window, the oldest first.
unfoldable pub pop_expired : ℕ → ℕ → List ℕ → List ℕ
pop_expired window now [] = []
pop_expired window now (at ∷ exits) =
    let rest = pop_expired window now exits in if ltb window (now - at) then rest else at ∷ exits

-- What is left of the window when an abnormal exit has been pushed behind it.
unfoldable pub note_exit : RestartStormPolicy → ℕ → List ℕ → List ℕ
unfolding pop_expired
note_exit p now exits = pop_expired p.window now (exits ++ now ∷ [])

-- `abnormal_exits.len() >= storm_policy.max_failures as usize`
unfoldable pub is_storm : RestartStormPolicy → List ℕ → Bool
is_storm p exits = leb p.max_failures (length exits)

-- The window after abnormal exits at the given times.
unfoldable pub note_all : RestartStormPolicy → List ℕ → List ℕ → List ℕ
unfolding note_exit
note_all p [] exits = exits
note_all p (t ∷ times) exits = note_all p times (note_exit p t exits)
