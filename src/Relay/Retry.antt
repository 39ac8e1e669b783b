-- ===== src/Relay/Retry.antt =====
-- `RetrySchedule` of crates/purple-wolf-relay/src/subscribers/retry.rs.
use purple_wolf.Prelude.{
  ◌<◌, false, ℕ, ◌+◌, ◌-◌, ◌*◌, ◌^◌, ◌≤◌, ◌||◌, min, ◌==◌, if◌then◌else◌, ◌≡◌, arith,
}
use purple_wolf.Relay.Config.{RetryConfig}

pub record RetrySchedule : Type 0 where
  pub base_delay_ms : ℕ
  pub max_delay_ms : ℕ

unfoldable pub from_config : RetryConfig → RetrySchedule
from_config c = record { base_delay_ms = c.base_delay_ms; max_delay_ms = c.max_delay_ms }

unfoldable pub saturating_mul : ℕ → ℕ → ℕ
saturating_mul a b = min (2 ^ 64 - 1) (a * b)

-- The delay before the jitter.
unfoldable pub capped_delay : RetrySchedule → ℕ → ℕ
unfolding saturating_mul
capped_delay s attempt = min (saturating_mul s.base_delay_ms (2 ^ min attempt 20)) s.max_delay_ms

-- `jitter` is the product with the random factor, rounded down to milliseconds.
unfoldable pub next_delay : RetrySchedule → (ℕ → ℕ) → ℕ → ℕ
unfolding capped_delay
next_delay s jitter attempt =
    if s.base_delay_ms == 0 || s.max_delay_ms == 0 then 0 else jitter (capped_delay s attempt)

next_delay-jitter :
    (s : RetrySchedule) (jitter : ℕ → ℕ) (attempt : ℕ)
    → 0 < s.base_delay_ms
    → 0 < s.max_delay_ms
    → next_delay s jitter attempt ≡ jitter (capped_delay s attempt)
unfolding next_delay
next_delay-jitter s jitter attempt base most =
    let b : (s.base_delay_ms == 0 || s.max_delay_ms == 0) ≡ false = ground arith in simp b

capped_delay-le : (s : RetrySchedule) (attempt : ℕ) → capped_delay s attempt ≤ s.max_delay_ms
unfolding capped_delay
capped_delay-le s attempt = omega arith

-- Where both delays are configured and the random factor lies between 0.8 and 1.2, a delay is at least
-- 0.8 times, less a millisecond, the base doubled for each attempt up to 20 and capped by the maximum;
-- and it is at most 1.2 times the maximum, which itself it can pass.
next_delay-bounds :
    (s : RetrySchedule) (jitter : ℕ → ℕ) (attempt : ℕ)
    → 0 < s.base_delay_ms
    → 0 < s.max_delay_ms
    → 8 * capped_delay s attempt ≤ 10 * jitter (capped_delay s attempt) + 9
    → 10 * jitter (capped_delay s attempt) ≤ 12 * capped_delay s attempt
    → (8 * capped_delay s attempt ≤ 10 * next_delay s jitter attempt + 9)
      × (10 * next_delay s jitter attempt ≤ 12 * s.max_delay_ms)
next_delay-bounds s jitter attempt base most low high =
    rw (next_delay-jitter s jitter attempt base most)
      (low, omega (arith, high, capped_delay-le s attempt))
