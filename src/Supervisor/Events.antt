-- ===== src/Supervisor/Events.antt =====
-- crates/tinymcp/src/registry/supervisor/types.rs: the events of a probe and of an attempt, by what was
-- answered.
use tinymcp.Common.{
  not, ◌&&◌, false, Bool, length, ◌+◌, ℕ, ◌<◌, ◌≡◌, ◌⊎◌, refl, true, List, [], ◌∷◌, String, lookup,
  arith, if_split, ◌||◌, Result, ok, err, contains_key, unwrap_or,
}
use tinymcp.Error.{Error, is_missing_runtime, is_unauthorized}
use tinymcp.Registry.{InstalledServer, McpTool}
use tinymcp.Supervisor.{
  Instant, ProbeOutcome, alive, missing, broken, timed_out, ServerRef, server_ref, SupervisorEvent,
  probe_answered, probe_timed_out, transport_dropped, reconnected, reconnect_failed, parked,
}
use tinymcp.Supervisor.Backoff.{no_failure, ready, record_failure, delay_after, current_delay}
use tinymcp.Supervisor.Cycle.{
  consecutive_timeouts, teardown_after, AfterProbe, keep, rebuild, Supervisor, judge_timeout,
  judge_outcome, judge_connect,
}
use tinymcp.Supervisor.Invariant.{Inv}

-- The event of a probe by its outcome, with what it lets the visit do next, after `n` timeouts in a
-- row: an answer keeps the session, a timeout ends it when it is the last one allowed, and every
-- other outcome ends it.
abbrev pub IsProbeOf : ServerRef → ℕ → ProbeOutcome → AfterProbe → SupervisorEvent → Type 0
IsProbeOf r n (alive elapsed) verdict e = (verdict ≡ keep) × (e ≡ probe_answered r elapsed)
IsProbeOf r n (timed_out after) verdict e =
    ((n + 1 < teardown_after)
      × (verdict ≡ keep)
      × (e ≡ probe_timed_out r after (n + 1) teardown_after))
    ⊎ ((n + 1 ≡ teardown_after)
        × (verdict ≡ rebuild)
        × (e ≡ transport_dropped r (timed_out after) (n + 1)))
IsProbeOf r n o verdict e = (verdict ≡ rebuild) × (e ≡ transport_dropped r o 0)

-- The event of an attempt by its answer: an error for which a retry is of no use parks the server.
abbrev pub IsAttemptOf :
    ServerRef → (Error → String) → Result (List McpTool) Error → SupervisorEvent → Type 0
IsAttemptOf r render (ok tools) (reconnected r' n _) = (r' ≡ r) × (n ≡ length tools)
IsAttemptOf r render (err error) (reconnect_failed r' text n wait) =
    (r' ≡ r)
    × (text ≡ render error)
    × (0 < n)
    × (wait ≡ delay_after n)
    × ((is_missing_runtime error || is_unauthorized error) ≡ false)
IsAttemptOf r render (err error) (parked r' text) =
    (r' ≡ r) × (text ≡ render error) × ((is_missing_runtime error || is_unauthorized error) ≡ true)
IsAttemptOf r render _ _ = ⊥

-- Whether a server may be dialled: it is not parked, and the wait after its last failure is over.
abbrev pub may_dial : Supervisor → InstalledServer → Instant → Bool
may_dial s server now =
    not (contains_key server.server_id s.terminal)
    && ready (unwrap_or (lookup server.server_id s.backoff) no_failure) now

-- One attempt where the server may be dialled, and nothing where it may not.
abbrev pub IsFollowUpOf :
    ServerRef
    → (Error → String)
    → Bool
    → Result (List McpTool) Error
    → List SupervisorEvent
    → Type 0
IsFollowUpOf r render false answer events = events ≡ []
IsFollowUpOf r render true answer (e ∷ []) = IsAttemptOf r render answer e
IsFollowUpOf r render true answer _ = ⊥

pub judge_outcome-IsProbeOf :
    (s : Supervisor) (server : InstalledServer) (o : ProbeOutcome)
    → Inv s
    → IsProbeOf
        (server_ref server)
        (consecutive_timeouts s server.server_id)
        o
        (judge_outcome s server o).1
        (judge_outcome s server o).2
unfolding judge_outcome judge_timeout consecutive_timeouts
judge_outcome-IsProbeOf s server (alive elapsed) h = (refl, refl)
judge_outcome-IsProbeOf s server (timed_out after) h = ground (arith, h.streaks server.server_id)
judge_outcome-IsProbeOf s server (broken error elapsed) h = (refl, refl)
judge_outcome-IsProbeOf s server missing h = (refl, refl)
judge_outcome-IsProbeOf s server ProbeOutcome.unknown h = (refl, refl)

pub judge_connect-IsAttemptOf :
    (s : Supervisor) (server : InstalledServer) (now : Instant) (render : Error → String)
    (answer : Result (List McpTool) Error)
    → IsAttemptOf (server_ref server) render answer (judge_connect s server now render answer).1
unfolding judge_connect record_failure current_delay
judge_connect-IsAttemptOf s server now render (ok tools) = (refl, refl)
judge_connect-IsAttemptOf s server now render (err error) =
    if_split
      (λ (r : Supervisor × SupervisorEvent). IsAttemptOf (server_ref server) render (err error) r.1)
      (is_missing_runtime error || is_unauthorized error) (λ h. (refl, refl, h)) (λ h. ground arith)
