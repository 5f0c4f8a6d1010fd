-- ===== src/Http/Retry/Delays.antt =====
-- http/retry-policy.ts: the bounds of every delay that a retry sleeps.
use native.Mathlib.Nat.{mul-le-mul_right}
use ksef_client_ts.Base.{
  ℕ, ◌+◌, ◌*◌, ◌/◌, ◌^◌, ◌≤◌, ◌<◌, ◌≡◌, min, false, arith, Option-cases, inl, inr,
}
use ksef_client_ts.Base.Number.{Number, nan, infinity, thousandths}
use ksef_client_ts.Http.Retry.{
  RetryPolicy, random_scale, max_timer_delay_ms, calculate_backoff, exceeds_max_retry_after,
  exceeds_cap,
}

-- A random fraction of the base delay is at most the base delay.
jitter-le : (random base : ℕ) → random < random_scale → random * base / random_scale ≤ base
jitter-le random base h =
    let product : random * base ≤ random_scale * base = mul-le-mul_right base (omega arith) in
    omega (arith, product)

-- The backoff of an attempt lies between the exponential delay and that delay with one base delay
-- more, each cut off at the policy's longest delay and at the timer's limit.
pub calculate_backoff_bounds :
    (attempt random : ℕ) (policy : RetryPolicy)
    → random < random_scale
    → (min (min (policy.base_delay_ms * 2 ^ attempt) policy.max_delay_ms) max_timer_delay_ms
        ≤ calculate_backoff attempt policy random)
      × (calculate_backoff attempt policy random
          ≤ policy.base_delay_ms * 2 ^ attempt + policy.base_delay_ms)
      × (calculate_backoff attempt policy random ≤ policy.max_delay_ms)
      × (calculate_backoff attempt policy random ≤ max_timer_delay_ms)
unfolding calculate_backoff
calculate_backoff_bounds attempt random policy h =
    omega (arith, jitter-le random policy.base_delay_ms h)

exceeds_cap-timer :
    (delay : ℕ) (n : Number) → exceeds_cap delay n ≡ false → delay ≤ max_timer_delay_ms
exceeds_cap-timer delay nan h = ground arith
exceeds_cap-timer delay infinity h = ground arith
exceeds_cap-timer delay (thousandths n) h = ground arith
exceeds_cap-timer delay _ h = ground arith

pub exceeds_max_retry_after-timer :
    (delay : ℕ) (policy : RetryPolicy)
    → exceeds_max_retry_after delay policy ≡ false
    → delay ≤ max_timer_delay_ms
unfolding exceeds_max_retry_after
exceeds_max_retry_after-timer delay policy h = elim (Option-cases policy.max_retry_after_ms) [
  | inl default ↦ ground arith
  | inr (n, configured) ↦ exceeds_cap-timer delay n (ground arith)
]
