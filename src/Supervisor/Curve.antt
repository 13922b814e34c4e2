-- ===== src/Supervisor/Curve.antt =====
-- crates/tinymcp/src/registry/supervisor/backoff.rs: the backoff curve.
use native.Mathlib.Nat.{pow-le-pow_right}
use Prim.Native.Nat.{zero-le}
use tinymcp.Common.{ℕ, suc, ◌+◌, ◌-◌, ◌*◌, ◌^◌, ◌≤◌, ◌≡◌, min, arith, refl, zero, u32_max, leb}
use tinymcp.Supervisor.{Instant, from_secs}
use tinymcp.Supervisor.Backoff.{
  backoff_base_secs, backoff_max_secs, delay_after, BackoffState, record_failure, ready,
}

pow_far : (k : ℕ) → 6 ≤ k → 64 ≤ 2 ^ k
pow_far k h = pow-le-pow_right {n = 2} (omega arith) {i = 6} {j = k} h

suc_pred : (k : ℕ) → suc k - 1 ≡ k
suc_pred k = omega arith

-- After `failures > 0` failures the wait is 5 · 2^(failures - 1) seconds, or 300 if that is less:
-- neither the shift nor the product of the machine arithmetic ever changes it.
pub delay_after_lem :
    (k : ℕ) → delay_after (suc k) ≡ from_secs (min (backoff_base_secs * 2 ^ k) backoff_max_secs)
unfolding delay_after
delay_after_lem k = ground (arith, suc_pred k, pow_far k)

delay_after-zero : delay_after 0 ≡ from_secs backoff_base_secs
unfolding delay_after
delay_after-zero = refl

pow_mono : (j k : ℕ) → j ≤ k → 2 ^ j ≤ 2 ^ k
pow_mono j k h = pow-le-pow_right {n = 2} (omega arith) {i = j} {j = k} h

-- More failures never shorten the wait, which is between five seconds and five minutes.
pub delay_after_bounds :
    (f g : ℕ)
    → f ≤ g
    → (from_secs 5 ≤ delay_after f)
      × (delay_after f ≤ delay_after g)
      × (delay_after g ≤ from_secs 300)
delay_after_bounds zero zero h = omega (arith, delay_after-zero)
delay_after_bounds zero (suc g) h =
    omega (arith, delay_after-zero, delay_after_lem g, pow_mono 0 g zero-le)
delay_after_bounds (suc f) zero h = absurd (omega arith)
delay_after_bounds (suc f) (suc g) h =
    omega (
      arith,
      delay_after_lem f,
      delay_after_lem g,
      pow_mono 0 f zero-le,
      pow_mono f g (omega arith),
    )

-- After `f + 1` failures the wait is 5 · 2^f seconds, or 300 if that is less: neither the shift nor
-- the product of the machine arithmetic ever changes it. More failures never shorten the wait, which
-- is between five seconds and five minutes.
pub delay_after_curve :
    (f g : ℕ)
    → suc f ≤ g
    → (delay_after (suc f) ≡ from_secs (min (backoff_base_secs * 2 ^ f) backoff_max_secs))
      × (from_secs 5 ≤ delay_after (suc f))
      × (delay_after (suc f) ≤ delay_after g)
      × (delay_after g ≤ from_secs 300)
delay_after_curve f g h =
    let (low, more, high) = delay_after_bounds (suc f) g h in (delay_after_lem f, low, more, high)

-- A failure at `now` adds one to the count, which stops at the top of its word, and shuts the server
-- out until the wait of the new count is over, and no longer.
pub ready-record_failure :
    (s : BackoffState) (now later : Instant)
    → let s' = record_failure s now in
      (s'.failures ≡ min (s.failures + 1) u32_max)
      × (ready s' later ≡ leb (now + delay_after (min (s.failures + 1) u32_max)) later)
unfolding record_failure ready
ready-record_failure s now later = (refl, refl)
