-- ===== src/Supervisor/Backoff.antt =====
-- crates/tinymcp/src/registry/supervisor/backoff.rs: the delay after a failed reconnect.
use tinymcp.Common.{
  ℕ, ◌+◌, ◌-◌, Bool, true, Option, none, some, min, leb, ◌==◌, if◌then◌else◌, unwrap_or, u64_max,
  saturating_add_u32, saturating_mul_u64, checked_shl_one_u64,
}
use tinymcp.Supervisor.{Duration, Instant, from_secs}

-- The two constants in seconds, as `as_secs` reads them.
abbrev pub backoff_base_secs : ℕ
backoff_base_secs = 5

abbrev pub backoff_max_secs : ℕ
backoff_max_secs = 300

unfoldable pub delay_after : ℕ → Duration
delay_after failures =
    if failures == 0
    then from_secs backoff_base_secs
    else let shifted =
        saturating_mul_u64 backoff_base_secs
          (unwrap_or (checked_shl_one_u64 (failures - 1)) u64_max) in
      from_secs (min shifted backoff_max_secs)

pub record BackoffState : Type 0 where
  pub failures : ℕ
  pub next_attempt_at : Option Instant

-- `BackoffState::default`.
abbrev pub no_failure : BackoffState
no_failure = record { failures = 0; next_attempt_at = none }

abbrev pub is_due : Option Instant → Instant → Bool
is_due none now = true
is_due (some earliest) now = leb earliest now

unfoldable pub ready : BackoffState → Instant → Bool
ready s now = is_due s.next_attempt_at now

unfoldable pub record_failure : BackoffState → Instant → BackoffState
record_failure s now =
    let failures = saturating_add_u32 s.failures 1 in
    record { failures = failures; next_attempt_at = some (now + delay_after failures) }

unfoldable pub current_delay : BackoffState → Duration
current_delay s = delay_after s.failures
