-- ===== src/Supervisor/Visits.antt =====
-- crates/tinymcp/src/registry/supervisor/types.rs: the events of one visit of an install.
use tinymcp.Common.{
  ℕ, ◌<◌, ◌≡◌, ◌⊎◌, inl, inr, refl, true, List, [], ◌∷◌, String, lookup, arith, if_split, ◌||◌,
  Result, ok, err, contains_key, unwrap_or,
}
use tinymcp.Error.{Error, is_missing_runtime, is_unauthorized}
use tinymcp.Registry.{InstalledServer, McpTool}
use tinymcp.Supervisor.{
  Instant, ProbeOutcome, alive, missing, broken, timed_out, ServerRef, server_ref, SupervisorEvent,
  probe_answered, probe_timed_out, transport_dropped, reconnected, reconnect_failed, parked,
  Outside,
}
use tinymcp.Supervisor.Backoff.{no_failure, ready, record_failure, delay_after, current_delay}
use tinymcp.Supervisor.Cycle.{
  teardown_after, AfterProbe, keep, rebuild, on_verdict, Supervisor, judge_timeout, judge_outcome,
  judge_connect, judge_probe, attempt_connect, reconnect, visit_connected, visit,
}
use tinymcp.Supervisor.Invariant.{Inv}

-- What ends a session: a whole streak of timeouts, or one outcome that is neither an answer nor a
-- timeout.
abbrev pub Drops : ProbeOutcome → ℕ → Type 0
Drops (alive _) n = ⊥
Drops (timed_out _) n = n ≡ teardown_after
Drops _ n = n ≡ 0

-- The event of a probe of the server `r`, by its verdict.
abbrev pub IsProbe : ServerRef → AfterProbe → SupervisorEvent → Type 0
IsProbe r keep (probe_answered r' _) = r' ≡ r
IsProbe r keep (probe_timed_out r' _ n limit) =
    (r' ≡ r) × (0 < n) × (n < teardown_after) × (limit ≡ teardown_after)
IsProbe r rebuild (transport_dropped r' o n) = (r' ≡ r) × Drops o n
IsProbe r _ _ = ⊥

-- The event of an attempt to connect the server `r`.
abbrev pub IsAttempt : ServerRef → SupervisorEvent → Type 0
IsAttempt r (reconnected r' _ _) = r' ≡ r
IsAttempt r (reconnect_failed r' _ n wait) = (r' ≡ r) × (0 < n) × (wait ≡ delay_after n)
IsAttempt r (parked r' _) = r' ≡ r
IsAttempt r _ = ⊥

-- What a visit may report: nothing; the probe of a session that is kept; the end of a session; an
-- attempt; or the end of a session and then the attempt that follows it.
abbrev pub IsVisit : InstalledServer → List SupervisorEvent → Type 0
IsVisit server [] = Unit
IsVisit server (e ∷ []) =
    (server.enabled ≡ true)
    × (IsProbe (server_ref server) keep e
        ⊎ IsProbe (server_ref server) rebuild e
        ⊎ IsAttempt (server_ref server) e)
IsVisit server (e ∷ f ∷ []) =
    (server.enabled ≡ true)
    × IsProbe (server_ref server) rebuild e
    × IsAttempt (server_ref server) f
IsVisit server _ = ⊥

judge_outcome-IsProbe :
    (s : Supervisor) (server : InstalledServer) (o : ProbeOutcome)
    → Inv s
    → IsProbe (server_ref server) (judge_outcome s server o).1 (judge_outcome s server o).2
unfolding judge_outcome judge_timeout
judge_outcome-IsProbe s server (alive elapsed) h = refl
judge_outcome-IsProbe s server (timed_out after) h = ground (arith, h.streaks server.server_id)
judge_outcome-IsProbe s server (broken error elapsed) h = (refl, refl)
judge_outcome-IsProbe s server missing h = (refl, refl)
judge_outcome-IsProbe s server ProbeOutcome.unknown h = (refl, refl)

judge_connect-IsAttempt :
    (s : Supervisor) (server : InstalledServer) (now : Instant) (render : Error → String)
    (answer : Result (List McpTool) Error)
    → IsAttempt (server_ref server) (judge_connect s server now render answer).1
unfolding judge_connect record_failure current_delay
judge_connect-IsAttempt s server now render (ok tools) = refl
judge_connect-IsAttempt s server now render (err error) =
    if_split (λ (r : Supervisor × SupervisorEvent). IsAttempt (server_ref server) r.1)
      (is_missing_runtime error || is_unauthorized error) (λ _. refl) (λ _. ground arith)

-- What follows the liveness block reports nothing, or one attempt.
abbrev IsFollowUp : ServerRef → List SupervisorEvent → Type 0
IsFollowUp r [] = Unit
IsFollowUp r (e ∷ []) = IsAttempt r e
IsFollowUp r _ = ⊥

abbrev EndsFollowedUp :
    {W : Type 0} → InstalledServer → Supervisor × List SupervisorEvent × W → Type 0
EndsFollowedUp server r = IsFollowUp (server_ref server) r.1

abbrev EndsVisit : {W : Type 0} → InstalledServer → Supervisor × List SupervisorEvent × W → Type 0
EndsVisit server r = IsVisit server r.1

IsVisit-follow_up :
    (server : InstalledServer) (events : List SupervisorEvent)
    → server.enabled ≡ true
    → IsFollowUp (server_ref server) events
    → IsVisit server events
IsVisit-follow_up server [] on h = tt
IsVisit-follow_up server (e ∷ []) on h = (on, inr (inr h))
IsVisit-follow_up server (_ ∷ _ ∷ _) on h = absurd h

IsVisit-dropped :
    (server : InstalledServer) (e : SupervisorEvent) (events : List SupervisorEvent)
    → server.enabled ≡ true
    → IsProbe (server_ref server) rebuild e
    → IsFollowUp (server_ref server) events
    → IsVisit server (e ∷ events)
IsVisit-dropped server e [] on p h = (on, inr (inl p))
IsVisit-dropped server e (f ∷ []) on p h = (on, p, h)
IsVisit-dropped server e (_ ∷ _ ∷ _) on p h = absurd h

-- The visit's events, with the verdict taken as a variable.
probed-IsVisit :
    {W : Type 0} (server : InstalledServer) (verdict : AfterProbe) (e : SupervisorEvent)
    (events : List SupervisorEvent) (s1 s2 : Supervisor) (w1 w2 : W)
    → server.enabled ≡ true
    → IsProbe (server_ref server) verdict e
    → IsFollowUp (server_ref server) events
    → EndsVisit server (on_verdict verdict (s1, e ∷ [], w1) (s2, e ∷ events, w2))
probed-IsVisit server keep e events s1 s2 w1 w2 on p h = (on, inl p)
probed-IsVisit server rebuild e events s1 s2 w1 w2 on p h = IsVisit-dropped server e events on p h

module _ {W : Type 0} (outside : Outside W) where
  reconnect-IsFollowUp :
      (s : Supervisor) (server : InstalledServer) (now : Instant) (w : W)
      → IsFollowUp (server_ref server) (reconnect outside s server now w).1
  unfolding reconnect attempt_connect
  reconnect-IsFollowUp s server now w =
      let state = unwrap_or (lookup server.server_id s.backoff) no_failure in
      if_split (EndsFollowedUp server) (contains_key server.server_id s.terminal) (λ _. tt)
        (λ _.
          if_split (EndsFollowedUp server) (ready state now)
            (λ _. judge_connect-IsAttempt _ server now outside.render _) (λ _. tt))

  pub visit-IsVisit :
      (s : Supervisor) (server : InstalledServer) (now : Instant) (w : W)
      → Inv s
      → IsVisit server (visit outside s server now w).1
  unfolding visit visit_connected judge_probe
  visit-IsVisit s server now w h =
      let (connected, w1) = outside.is_connected server.server_id w in
      let outcome = (outside.probe_alive server.server_id s.config.probe_timeout w1).0 in
      if_split (EndsVisit server) server.enabled
        (λ on.
          if_split (EndsVisit server) connected
            (λ _.
              probed-IsVisit server (judge_outcome s server outcome).1 _ _ _ _ _ _ on
                (judge_outcome-IsProbe s server outcome h) (reconnect-IsFollowUp _ server now _))
            (λ _. IsVisit-follow_up server _ on (reconnect-IsFollowUp s server now w1)))
        (λ _. tt)
