-- ===== src/Webhooks/Backoff.antt =====
-- The schedule of the retries.
use native.Mathlib.Nat.{one-le-pow}
use quotaguard.Prelude.{arith, min, ℕ, ◌*◌, ◌+◌, ◌-◌, ◌^◌, ◌≤◌}
use quotaguard.Webhooks.{base_seconds, compute_next_attempt}

-- Where the jitter keeps a delay between 0.8 and 1.2 times its base, every retry comes between 24 s and
-- 72 min after the failure.
pub retry_bounds :
    (jittered : ℕ → ℕ) (now attempt_num : ℕ)
    → ((base : ℕ) → (800_000 * base ≤ jittered base) × (jittered base ≤ 1_200_000 * base))
    → (now + 24_000_000 ≤ compute_next_attempt jittered now attempt_num)
      × (compute_next_attempt jittered now attempt_num ≤ now + 4_320_000_000)
unfolding compute_next_attempt base_seconds
retry_bounds jittered now n h =
    let base = min (30 * 2 ^ min (n - 1) 17) 3_600 in
    let low : 1 ≤ 2 ^ min (n - 1) 17 = one-le-pow (min (n - 1) 17) 2 (omega arith) in
    let (above, below) = h base in (omega arith, omega arith)
