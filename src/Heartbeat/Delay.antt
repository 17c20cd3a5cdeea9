-- ===== src/Heartbeat/Delay.antt =====
-- The delays of apps/player/src/core/heartbeat-scheduler.ts: jitter, catch-up, backoff.
use screen_goblin.Prelude.{
  ℕ, ◌+◌, ◌-◌, ◌*◌, ◌/◌, ◌^◌, ◌≤◌, ◌<◌, Bool, Option, none, some, min, max, arith,
}
use native.Mathlib.Nat.{le-div_iff_mul-le, div-lt_iff_lt-mul}

-- A value of `random()`: the fraction `num / den`.
pub record Sample : Type 0 where
  pub num : ℕ
  pub den : ℕ

abbrev pub min_interval : ℕ
min_interval = 5

abbrev pub max_interval : ℕ
max_interval = 86400

abbrev pub max_timer_delay : ℕ
max_timer_delay = 2147000000

-- `Math.round (a / b)`.
abbrev pub round_div : ℕ → ℕ → ℕ
round_div a b = (2 * a + b) / (2 * b)

-- `Math.min(1, Math.max(0, random()))`, over `den`.
abbrev pub bounded_random : Sample → ℕ
bounded_random r = min r.den r.num

unfoldable pub jitter : Sample → ℕ → ℕ
jitter r seconds =
    min (max_interval * 1000) (round_div (seconds * (900 * r.den + 200 * bounded_random r)) r.den)

-- `seconds` is given in thousandths.
unfoldable pub bound_interval : ℕ → ℕ
bound_interval thousandths = min max_interval (max min_interval (round_div thousandths 1000))

unfoldable pub catch_up_delay : Sample → ℕ → ℕ
catch_up_delay r cadence = round_div (cadence * bounded_random r * 1000) r.den

-- What `send` rejects with: a `PlayerApiFailure` with its `retryAfterMs`, or another error.
pub data Reason : Type 0 where
  api_failure : (retryable : Bool) → (retry_after : Option ℕ) → Reason
  other_error : Reason

abbrev retry_floor : Reason → ℕ → ℕ
retry_floor (api_failure retryable (some ms)) delay = max ms delay
retry_floor (api_failure retryable none) delay = delay
retry_floor other_error delay = delay

unfoldable pub failure_delay : ℕ → ℕ → ℕ → Sample → Reason → ℕ
failure_delay retry_base retry_max failures r reason =
    let backoff = min retry_max (retry_base * 2 ^ (failures - 1)) in
    retry_floor reason (jitter r backoff)

-- A whole bound on the exact quotient bounds the rounded one.
pub le-round_div : (a b k : ℕ) → 0 < b → k * b ≤ a → k ≤ round_div a b
le-round_div a b k h e = (le-div_iff_mul-le {k = 2 * b} (omega arith)).1 (omega arith)

pub round_div-le : (a b k : ℕ) → 0 < b → a ≤ k * b → round_div a b ≤ k
round_div-le a b k h e =
    let below : round_div a b < k + 1 =
      (div-lt_iff_lt-mul {k = 2 * b} (omega arith)).1 (omega arith) in
    omega arith

scaled_low : (s d m : ℕ) → 900 * s * d ≤ s * (900 * d + 200 * m)
scaled_low s d m = omega arith

scaled_high : (s d m : ℕ) → m ≤ d → s * (900 * d + 200 * m) ≤ 1100 * s * d
scaled_high s d m h = grind arith

-- With a sample whose denominator is positive the jitter is at least 90 per cent of the interval or
-- a day, whichever is less, and at most 110 per cent of the interval and at most a day.
pub jitter_bounds :
    (r : Sample) (seconds : ℕ)
    → 0 < r.den
    → (min 86400000 (900 * seconds) ≤ jitter r seconds)
      × (jitter r seconds ≤ min 86400000 (1100 * seconds))
unfolding jitter
jitter_bounds r seconds h =
    let exact = seconds * (900 * r.den + 200 * bounded_random r) in
    let low =
      le-round_div exact r.den (900 * seconds) h (scaled_low seconds r.den (bounded_random r)) in
    let high =
      round_div-le exact r.den (1100 * seconds) h
        (scaled_high seconds r.den (bounded_random r) (omega arith)) in
    (omega arith, omega arith)

-- A failure waits at least as long as the server's Retry-After asks.
pub failure_delay-retry_after :
    (base cap failures : ℕ) (r : Sample) (retryable : Bool) (ms : ℕ)
    → ms ≤ failure_delay base cap failures r (api_failure retryable (some ms))
unfolding failure_delay
failure_delay-retry_after base cap failures r retryable ms = omega arith
