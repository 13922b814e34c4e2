-- ===== src/Supervisor/Waiting.antt =====
-- crates/tinymcp/src/registry/supervisor/types.rs: when a server is tried again, and when a
-- session is ended.
use tinymcp.Common.{
  ◌+◌, ◌≡◌, true, false, none, String, lookup, arith, ◌||◌, err, insert, unwrap_or,
  lookup-insert_self, min, u32_max, length, ltb, ◌==◌, if◌then◌else◌, lookup-remove, eq_refl,
}
use tinymcp.Error.{Error, is_missing_runtime, is_unauthorized}
use tinymcp.Registry.{InstalledServer}
use tinymcp.Supervisor.{Duration, Instant, Outside}
use tinymcp.Supervisor.Backoff.{no_failure, ready, record_failure, delay_after}
use tinymcp.Supervisor.Cycle.{
  keep, rebuild, Supervisor, next_streak, failures_of, judge_timeout, judge_connect,
  attempt_connect, reconnect, visit, consecutive_timeouts,
}
use tinymcp.Supervisor.Invariant.{Inv}

-- One more timeout ends the session exactly when two came before it; it then forgets the streak, and
-- otherwise it lengthens it by one.
pub judge_timeout_streak :
    (s : Supervisor) (server : InstalledServer) (after : Duration)
    → Inv s
    → let n = consecutive_timeouts s server.server_id in
      let r = judge_timeout s server after in
      (r.1 ≡ (if n == 2 then rebuild else keep))
      × (consecutive_timeouts r.0 server.server_id ≡ (if n == 2 then 0 else n + 1))
unfolding judge_timeout consecutive_timeouts
judge_timeout_streak s server after h = ground (
  arith,
  h.streaks server.server_id,
  eq_refl server.server_id,
  lookup-insert_self server.server_id (next_streak (lookup server.server_id s.timeouts)) s.timeouts,
  lookup-remove server.server_id server.server_id
      (insert server.server_id (next_streak (lookup server.server_id s.timeouts)) s.timeouts),
)

module _ {W : Type 0} (outside : Outside W) where
  -- After an attempt at `now` that failed in a way that retrying may fix, a visit at `later` to the
  -- server, enabled and not connected, does not dial while the wait is not over, and dials when it
  -- is; the wait is that of the failures so far, this one included.
  pub visit-judge_connect :
      (s : Supervisor) (server : InstalledServer) (now later : Instant) (render : Error → String)
      (error : Error) (w w1 : W)
      → is_missing_runtime error || is_unauthorized error ≡ false
      → lookup server.server_id s.terminal ≡ none
      → server.enabled ≡ true
      → outside.is_connected server.server_id w ≡ (false, w1)
      → let s1 = (judge_connect s server now render (err error)).0 in
        let n = min (failures_of (lookup server.server_id s.backoff) + 1) u32_max in
        let r = visit outside s1 server later w in
        let early = ltb later (now + delay_after n) in
        (length r.1 ≡ (if early then 0 else 1))
        × (r.2 ≡ (if early then w1 else (outside.connect s.identity s.proxy server w1).1))
  unfolding visit reconnect attempt_connect judge_connect record_failure ready
  visit-judge_connect s server now later render error w w1 retries free on down =
      let failed = record_failure (unwrap_or (lookup server.server_id s.backoff) no_failure) now in
      ground (arith, lookup-insert_self server.server_id failed s.backoff)
