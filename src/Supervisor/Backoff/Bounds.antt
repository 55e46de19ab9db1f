-- ===== src/Supervisor/Backoff/Bounds.antt =====
-- How long the supervisor waits before a restart.
use nyanpasu_utils.Prelude.{
  ℕ, ◌+◌, ◌-◌, ◌*◌, ◌/◌, ◌%◌, ◌^◌, ◌≤◌, ◌<◌, ◌≡◌, min, max, true, false, arith,
}
use native.Mathlib.Nat.{mod-lt, pow-le-pow_right, mul-le-mul_left}
use nyanpasu_utils.Supervisor.Backoff.{
  Backoff, duration_max, u32_max, base_delay, spread, delay_for,
}

spread_within :
    (base n offset : ℕ)
    → n ≡ base
    → 1 ≤ base
    → base < 2 ^ 63
    → offset < max (n / 2) 1
    → (base - base / 4 ≤ (n - n / 2 / 2 + offset) % 2 ^ 64)
      × ((n - n / 2 / 2 + offset) % 2 ^ 64 ≤ base + base / 4)
spread_within base n offset e pos small lt = (omega arith, omega arith)

base_ns-id : (base : ℕ) → 1 ≤ base → base < 2 ^ 63 → max base 1 % 2 ^ 64 ≡ base
base_ns-id base pos small = omega arith

spread_bounds :
    (base entropy : ℕ)
    → 1 ≤ base
    → base < 2 ^ 63
    → (base - base / 4 ≤ spread base entropy) × (spread base entropy ≤ base + base / 4)
unfolding spread
spread_bounds base entropy pos small =
    spread_within base (max base 1 % 2 ^ 64) (entropy % max (max base 1 % 2 ^ 64 / 2) 1)
      (base_ns-id base pos small) pos small (mod-lt entropy (omega arith))

-- With jitter a wait differs from the wait without jitter by a quarter of it at most, whatever the
-- entropy, for waits between one nanosecond and 2^63 nanoseconds.
pub jitter_bounds :
    (b : Backoff) (n entropy : ℕ)
    → b.jitter ≡ true
    → 1 ≤ base_delay b n
    → base_delay b n < 2 ^ 63
    → (base_delay b n - base_delay b n / 4 ≤ delay_for b n entropy)
      × (delay_for b n entropy ≤ base_delay b n + base_delay b n / 4)
unfolding delay_for
jitter_bounds b n entropy j pos small =
    ground (arith, spread_bounds (base_delay b n) entropy pos small)

two_pow-le : (i j : ℕ) → i ≤ j → 2 ^ i ≤ 2 ^ j
two_pow-le i j h = pow-le-pow_right (omega arith) h

two_pow-min : (n : ℕ) → min (2 ^ min n 30) u32_max ≡ 2 ^ min n 30
two_pow-min n = omega (arith, two_pow-le (min n 30) (30) (omega arith))

-- Without jitter the wait doubles with each attempt, up to the thirtieth, and is cut at the longest
-- one, which is a duration.
pub delay_doubles :
    (b : Backoff) (n entropy : ℕ)
    → b.jitter ≡ false
    → b.max_delay ≤ duration_max
    → delay_for b n entropy ≡ min (b.initial * 2 ^ min n 30) b.max_delay
unfolding delay_for base_delay
delay_doubles b n entropy j fits = rw (j, two_pow-min n) (omega arith)

-- Without jitter a later attempt never waits less than an earlier one.
pub delay_monotone :
    (b : Backoff) (m n entropy entropy' : ℕ)
    → b.jitter ≡ false
    → m ≤ n
    → delay_for b m entropy ≤ delay_for b n entropy'
unfolding delay_for base_delay
delay_monotone b m n entropy entropy' j h =
    rw (j, two_pow-min n, two_pow-min m)
      (omega (arith, mul-le-mul_left b.initial (two_pow-le (min m 30) (min n 30) (omega arith))))
