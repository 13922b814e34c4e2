-- ===== src/Supervisor/Reports.antt =====
-- crates/tinymcp/src/registry/supervisor/types.rs: what a cycle reports, by what its calls answered.
use tinymcp.Common.{false, Bool, ◌≡◌, true, List, [], ◌∷◌, ◌++◌, Result, ok, err}
use tinymcp.Error.{Error}
use tinymcp.Registry.{InstalledServer}
use tinymcp.Supervisor.{Instant, server_ref, SupervisorEvent, Outside}
use tinymcp.Supervisor.Cycle.{consecutive_timeouts, AfterProbe, keep, rebuild, Supervisor, visit}
use tinymcp.Supervisor.Events.{IsProbeOf, may_dial, IsFollowUpOf}

module _ {W : Type 0} (outside : Outside W) where
  abbrev pub FollowsUp : Supervisor → InstalledServer → Bool → W → List SupervisorEvent → Type 0
  FollowsUp s server dial w events =
      IsFollowUpOf (server_ref server) outside.render dial
        (outside.connect s.identity s.proxy server w).0 events

  -- What follows a probe: nothing when the session is kept; when it is ended, an attempt wherever the
  -- server may be dialled.
  abbrev pub IsAfter :
      Supervisor → InstalledServer → Instant → W → AfterProbe → List SupervisorEvent → Type 0
  IsAfter s server now w keep later = later ≡ []
  IsAfter s server now w rebuild later =
      FollowsUp s server (may_dial s server now) (outside.disconnect server.server_id w) later

  -- What a visit reports of an enabled install: with a session, the probe of it and what follows that;
  -- without one, an attempt wherever the server may be dialled.
  abbrev pub IsPartOf :
      Supervisor → InstalledServer → Instant → Bool → W → List SupervisorEvent → Type 0
  IsPartOf s server now false w events = FollowsUp s server (may_dial s server now) w events
  IsPartOf s server now true w [] = ⊥
  IsPartOf s server now true w (e ∷ later) =
      let (outcome, w1) = outside.probe_alive server.server_id s.config.probe_timeout w in
      (verdict : AfterProbe) × IsProbeOf (server_ref server)
        (consecutive_timeouts s server.server_id) outcome verdict e
      × IsAfter s server now w1 verdict later

  -- Nothing of an install that is disabled.
  abbrev pub IsPart :
      Supervisor → InstalledServer → Instant → Bool → W → List SupervisorEvent → Type 0
  IsPart s server now false w events = events ≡ []
  IsPart s server now true w events =
      let (connected, w1) = outside.is_connected server.server_id w in
      IsPartOf s server now connected w1 events

  -- A report that is made up of one part for each install, in the order of the list, each visit from
  -- where the one before has ended.
  pub data IsCycle (now : Instant)
      : List InstalledServer → Supervisor → W → List SupervisorEvent → Type 0 where
    done : {s : Supervisor} {w : W} → IsCycle now [] s w []
    visited :
        {server : InstalledServer} {servers : List InstalledServer} {s : Supervisor} {w : W}
        (events later : List SupervisorEvent)
        → IsPart s server now server.enabled w events
        → IsCycle now servers
            (visit outside s server now w).0
            (visit outside s server now w).2
            later
        → IsCycle now (server ∷ servers) s w (events ++ later)

  -- A cycle over what the store listed; an empty report where it could not be listed.
  abbrev pub IsReport :
      Supervisor → Instant → Result (List InstalledServer) Error → W → List SupervisorEvent → Type 0
  IsReport s now (ok servers) w events = IsCycle now servers s w events
  IsReport s now (err _) w events = events ≡ []
