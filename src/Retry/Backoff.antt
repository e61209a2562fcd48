-- ===== src/Retry/Backoff.antt =====
-- The waiting times of nexus/base.py, _RetryMixin.get_backoff_time.
use native.Mathlib.Nat.{pow-le-pow_right, mul-le-mul_left}
use event_pipeline.Prelude.{ℕ, ◌-◌, ◌≤◌, some, arith}
use event_pipeline.Retry.{RetryPolicy, get_backoff_time}

-- Under any policy a longer run of failures never waits less than a shorter one.
pub backoff_mono :
    (p : RetryPolicy) (a b : ℕ) → a ≤ b → get_backoff_time (some p) a ≤ get_backoff_time (some p) b
unfolding get_backoff_time
backoff_mono p a b h = ground (
  arith,
  mul-le-mul_left p.backoff_factor
      (pow-le-pow_right {n = 2} (omega arith) {i = a - 1} {j = b - 1} (omega arith)),
)

backoff-le-max : (p : RetryPolicy) (a : ℕ) → get_backoff_time (some p) a ≤ p.max_backoff
unfolding get_backoff_time
backoff-le-max p a = ground arith
