-- ===== src/Supervisor/Parking.antt =====
-- crates/tinymcp/src/registry/supervisor/types.rs: servers that are parked.
use tinymcp.Common.{
  ◌∙◌, ◌≡◌, ◌≢◌, refl, true, List, [], ◌∷◌, none, String, lookup, arith, if_split, ok, eq_iff, All,
  ap, sym, inl, inr, Bool-cases, All-append, str_eq,
}
use tinymcp.Registry.{InstalledServer}
use tinymcp.Supervisor.{
  Instant, ProbeOutcome, alive, missing, broken, timed_out, ServerRef, SupervisorEvent, parked,
  reconnect_failed, Outside, reconnected,
}
use mathlib.Core.Bool.{false≢true}
use tinymcp.Supervisor.Cycle.{
  AfterProbe, keep, rebuild, on_verdict_split, Supervisor, judge_timeout, judge_outcome,
  judge_probe, reconnect, visit_connected, visit, visit_all, tick,
}
use tinymcp.Supervisor.Invariant.{Inv, visit-Inv}
use tinymcp.Supervisor.Frame.{visit-Agrees}
use tinymcp.Supervisor.Visits.{IsAttempt, IsProbe, IsVisit, visit-IsVisit}

abbrev pub IsParked : String → Supervisor → Type 0
IsParked id s = lookup id s.terminal ≢ none

judge_outcome-terminal :
    (s : Supervisor) (server : InstalledServer) (o : ProbeOutcome)
    → (judge_outcome s server o).0.terminal ≡ s.terminal
unfolding judge_outcome judge_timeout
judge_outcome-terminal s server (timed_out after) = ground arith
judge_outcome-terminal s server (alive _) = refl
judge_outcome-terminal s server (broken _ _) = refl
judge_outcome-terminal s server missing = refl
judge_outcome-terminal s server ProbeOutcome.unknown = refl

-- The event is no attempt to connect the server `id`.
abbrev pub Spares : String → SupervisorEvent → Type 0
Spares id (reconnected r _ _) = r.server_id ≢ id
Spares id (reconnect_failed r _ _ _) = r.server_id ≢ id
Spares id (parked r _) = r.server_id ≢ id
Spares id _ = Unit

-- The event is no attempt to connect any server.
abbrev IsPassive : SupervisorEvent → Type 0
IsPassive (reconnected _ _ _) = ⊥
IsPassive (reconnect_failed _ _ _ _) = ⊥
IsPassive (parked _ _) = ⊥
IsPassive _ = Unit

IsPassive-Spares : (id : String) (e : SupervisorEvent) → IsPassive e → Spares id e
IsPassive-Spares id e h = ground arith

-- The parked set is as it was, and no attempt is reported.
abbrev EndsParked : {W : Type 0} → Supervisor → Supervisor × List SupervisorEvent × W → Type 0
EndsParked s r = (r.0.terminal ≡ s.terminal) × All IsPassive r.1

judge_outcome-IsPassive :
    (s : Supervisor) (server : InstalledServer) (o : ProbeOutcome)
    → IsPassive (judge_outcome s server o).2
unfolding judge_outcome judge_timeout
judge_outcome-IsPassive s server (timed_out after) = ground arith
judge_outcome-IsPassive s server (alive _) = tt
judge_outcome-IsPassive s server (broken _ _) = tt
judge_outcome-IsPassive s server missing = tt
judge_outcome-IsPassive s server ProbeOutcome.unknown = tt

module _ {W : Type 0} (outside : Outside W) where
  -- Of a parked server the liveness block is all that runs.
  reconnect_parked :
      (s : Supervisor) (server : InstalledServer) (now : Instant) (w : W)
      → IsParked server.server_id s
      → reconnect outside s server now w ≡ (s, [], w)
  unfolding reconnect
  reconnect_parked s server now w h = ground arith

  -- A visit to a parked server that is not disabled leaves the parked set as it is, and reports at
  -- most the probe of a session that someone else opened.
  pub visit_parked :
      (s : Supervisor) (server : InstalledServer) (now : Instant) (w : W)
      → server.enabled ≡ true
      → IsParked server.server_id s
      → ((visit outside s server now w).0.terminal ≡ s.terminal)
        × All IsPassive (visit outside s server now w).1
  unfolding visit visit_connected judge_probe
  visit_parked s server now w on h =
      let (connected, w1) = outside.is_connected server.server_id w in
      let outcome = (outside.probe_alive server.server_id s.config.probe_timeout w1).0 in
      let same = judge_outcome-terminal s server outcome in
      let still =
        λ (e : lookup server.server_id (judge_outcome s server outcome).0.terminal ≡ none).
          h (ap (lookup server.server_id) (sym same) ∙ e) in
      let ends : (_ ≡ s.terminal) × All IsPassive ((judge_outcome s server outcome).2 ∷ []) =
        (same, (judge_outcome-IsPassive s server outcome, tt)) in
      simp on (
        if_split (EndsParked s) connected
          (λ _.
            rw (reconnect_parked (judge_outcome s server outcome).0 server now _ still)
              (on_verdict_split (EndsParked s) (judge_outcome s server outcome).1 ends ends))
          (λ _. rw (reconnect_parked s server now w1 h) (refl, tt)))

IsProbe-Spares :
    (id : String) (r : ServerRef) (v : AfterProbe) (e : SupervisorEvent)
    → IsProbe r v e
    → Spares id e
IsProbe-Spares id r keep e p = ground arith
IsProbe-Spares id r rebuild e p = ground arith

IsAttempt-Spares :
    (id : String) (r : ServerRef) (e : SupervisorEvent)
    → r.server_id ≢ id
    → IsAttempt r e
    → Spares id e
IsAttempt-Spares id r e other a = ground arith

IsVisit-Spares :
    (id : String) (server : InstalledServer) (events : List SupervisorEvent)
    → server.server_id ≢ id
    → IsVisit server events
    → All (Spares id) events
IsVisit-Spares id server [] other v = tt
IsVisit-Spares id server (e ∷ []) other (on, inl p) = (IsProbe-Spares id _ keep e p, tt)
IsVisit-Spares id server (e ∷ []) other (on, inr (inl p)) = (IsProbe-Spares id _ rebuild e p, tt)
IsVisit-Spares id server (e ∷ []) other (on, inr (inr a)) = (IsAttempt-Spares id _ e other a, tt)
IsVisit-Spares id server (e ∷ f ∷ []) other (on, p, a) =
    (IsProbe-Spares id _ rebuild e p, (IsAttempt-Spares id _ f other a, tt))
IsVisit-Spares id server (_ ∷ _ ∷ _ ∷ _) other v = absurd v

module _ {W : Type 0} (outside : Outside W) (id : String) where
  -- The end of a visit, or of several, after which `id` is parked and no attempt on it is reported.
  abbrev StaysParked : Supervisor × List SupervisorEvent × W → Type 0
  StaysParked r = IsParked id r.0 × All (Spares id) r.1

  All-Spares : (events : List SupervisorEvent) → All IsPassive events → All (Spares id) events
  All-Spares [] h = tt
  All-Spares (e ∷ events) h = (IsPassive-Spares id e h.0, All-Spares events h.1)

  visit-StaysParked :
      (s : Supervisor) (server : InstalledServer) (now : Instant) (w : W)
      → Inv s
      → (server.server_id ≡ id → server.enabled ≡ true)
      → IsParked id s
      → StaysParked (visit outside s server now w)
  visit-StaysParked s server now w v on h = elim (Bool-cases (str_eq server.server_id id)) [
    | inl e ↦
        let same = (eq_iff server.server_id id).0 e in
        let r = visit_parked outside s server now w (on same) (rw same h) in
        (λ n. h (ap (lookup id) (sym r.0) ∙ n), All-Spares _ r.1)
    | inr e ↦
        let other = λ (same : server.server_id ≡ id).
          false≢true (sym e ∙ (eq_iff server.server_id id).1 same) in
        let kept = visit-Agrees outside id server other now s w in
        (
          λ n. h (sym kept.terminal ∙ n),
          IsVisit-Spares id server _ other (visit-IsVisit outside s server now w v),
        )
  ]

  visit_all-StaysParked :
      (servers : List InstalledServer) (s : Supervisor) (now : Instant) (w : W)
      → Inv s
      → All (λ x. x.server_id ≡ id → x.enabled ≡ true) servers
      → IsParked id s
      → StaysParked (visit_all outside s servers now w)
  unfolding visit_all
  visit_all-StaysParked [] s now w v on h = (h, tt)
  visit_all-StaysParked (server ∷ servers) s now w v on h =
      let r = visit outside s server now w in
      let here = visit-StaysParked s server now w v on.0 h in
      let later =
        visit_all-StaysParked servers r.0 now r.2 (visit-Inv outside s server now w v) on.1
          here.0 in
      (later.0, All-append (Spares id) _ _ here.1 later.1)

  -- A parked server stays parked through every cycle that does not list it as disabled, and no such
  -- cycle reports an attempt to connect it.
  pub tick-IsParked :
      (s : Supervisor) (servers : List InstalledServer) (now : Instant) (w w' : W)
      → Inv s
      → outside.list_servers w ≡ (ok servers, w')
      → All (λ x. x.server_id ≡ id → x.enabled ≡ true) servers
      → IsParked id s
      → IsParked id (tick outside s now w).0 × All (Spares id) (tick outside s now w).1
  unfolding tick
  tick-IsParked s servers now w w' v e on h = rw e (visit_all-StaysParked servers s now w' v on h)
