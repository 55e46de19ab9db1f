-- ===== src/Supervisor/Backoff.antt =====
-- `Backoff` and `time_entropy` of process/supervisor.rs. A duration is its number of nanoseconds.
pub mod Bounds
use Prim.Native.Nat.{bit_xor}
use nyanpasu_utils.Prelude.{
  ℕ, ◌+◌, ◌-◌, ◌*◌, ◌/◌, ◌%◌, ◌^◌, ◌≡◌, refl, min, max, Bool, true, false, if◌then◌else◌,
}

abbrev pub nanos_per_second : ℕ
nanos_per_second = 10 ^ 9

-- `Duration::MAX`
abbrev pub duration_max : ℕ
duration_max = 2 ^ 64 * 10 ^ 9 - 1

abbrev pub u32_max : ℕ
u32_max = 2 ^ 32 - 1

pub record Backoff : Type 0 where
  pub initial : ℕ
  pub max_delay : ℕ
  pub jitter : Bool

-- `Backoff::exponential`
abbrev pub exponential : ℕ → ℕ → Backoff
exponential initial max_delay = record { initial = initial; max_delay = max_delay; jitter = false }

-- `Backoff::with_jitter`
abbrev pub with_jitter : Backoff → Backoff
with_jitter b = record b { jitter = true }

abbrev pub golden : ℕ
golden = 0x9e3779b97f4a7c15

-- `time_entropy`, of the clock's nanoseconds (cut to 64 bits) and the counter's old value.
unfoldable pub time_entropy : ℕ → ℕ → ℕ
time_entropy nanos counter =
    let z = (nanos + (counter * golden % 2 ^ 64) + golden) % 2 ^ 64 in
    let z' = (bit_xor z (z / 2 ^ 30) * 0xbf58476d1ce4e5b9) % 2 ^ 64 in
    let z'' = (bit_xor z' (z' / 2 ^ 27) * 0x94d049bb133111eb) % 2 ^ 64 in bit_xor z'' (z'' / 2 ^ 31)

-- `2u32.saturating_pow(n)`
abbrev pub pow_2 : ℕ → ℕ
pow_2 n = min (2 ^ n) u32_max

-- `initial.saturating_mul(2u32.saturating_pow(attempt.min(30))).min(self.max)`
unfoldable pub base_delay : Backoff → ℕ → ℕ
base_delay b attempt = min (min (b.initial * pow_2 (min attempt 30)) duration_max) b.max_delay

-- The spread of a base delay by the entropy, on 64 bits.
unfoldable pub spread : ℕ → ℕ → ℕ
spread base entropy =
    let base_ns = max base 1 % 2 ^ 64 in
    let span = base_ns / 2 in
    let offset = entropy % max span 1 in (base_ns - span / 2 + offset) % 2 ^ 64

-- `delay_for`
unfoldable pub delay_for : Backoff → ℕ → ℕ → ℕ
unfolding base_delay spread
delay_for b attempt entropy =
    if b.jitter then spread (base_delay b attempt) entropy else base_delay b attempt

-- The test `backoff_doubles_and_caps`.
doubles_and_caps : delay_for (exponential (10 ^ 9) (30 * 10 ^ 9)) 4 0 ≡ 16 * 10 ^ 9
unfolding delay_for
doubles_and_caps = refl

caps : delay_for (exponential (10 ^ 6) (600 * 10 ^ 9)) 25 0 ≡ 600 * 10 ^ 9
unfolding delay_for
caps = refl
