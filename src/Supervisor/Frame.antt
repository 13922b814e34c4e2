-- ===== src/Supervisor/Frame.antt =====
-- crates/tinymcp/src/registry/supervisor/types.rs: what a visit or a cycle leaves alone.
use tinymcp.Common.{
  ◌≡◌, ◌≢◌, ◌∙◌, List, [], ◌∷◌, String, lookup, insert, remove, lookup-insert, lookup-remove, arith,
  eq_iff, Result, ok, err, if_split, ◌||◌, All, unwrap_or, contains_key,
}
use tinymcp.Error.{Error, is_missing_runtime, is_unauthorized}
use tinymcp.Registry.{InstalledServer, McpTool}
use tinymcp.Supervisor.{Duration, Instant, ProbeOutcome, timed_out, SupervisorEvent, Outside}
use tinymcp.Supervisor.Backoff.{no_failure, ready, record_failure}
use tinymcp.Supervisor.Cycle.{
  Supervisor, next_streak, judge_timeout, judge_outcome, judge_connect, judge_probe,
  attempt_connect, reconnect, visit_connected, visit, visit_all, tick, on_verdict_split,
}

-- Two supervisors know the same of the server `id`, and are paced and identified alike.
pub record Agrees (id : String) (s t : Supervisor) : Type 0 where
  pub backoff : lookup id t.backoff ≡ lookup id s.backoff
  pub timeouts : lookup id t.timeouts ≡ lookup id s.timeouts
  pub terminal : lookup id t.terminal ≡ lookup id s.terminal
  pub config : t.config ≡ s.config
  pub identity : t.identity ≡ s.identity
  pub proxy : t.proxy ≡ s.proxy

Agrees-refl : (id : String) (s : Supervisor) → Agrees id s s
Agrees-refl id s = ground arith

pub Agrees-trans :
    (id : String) (s t u : Supervisor) → Agrees id s t → Agrees id t u → Agrees id s u
Agrees-trans id s t u h k = record {
  backoff = k.backoff ∙ h.backoff;
  timeouts = k.timeouts ∙ h.timeouts;
  terminal = k.terminal ∙ h.terminal;
  config = k.config ∙ h.config;
  identity = k.identity ∙ h.identity;
  proxy = k.proxy ∙ h.proxy;
}

module _ {ℓ} {V : Type ℓ} (key id : String) (other : key ≢ id) where
  lookup-insert_ne : (v : V) (m : List (String × V)) → lookup id (insert key v m) ≡ lookup id m
  lookup-insert_ne v m = ground (arith, eq_iff key id, lookup-insert key id v m)

  lookup-remove_ne : (m : List (String × V)) → lookup id (remove key m) ≡ lookup id m
  lookup-remove_ne m = ground (arith, eq_iff key id, lookup-remove key id m)

module _ (s : Supervisor) (server : InstalledServer) (id : String)
    (other : server.server_id ≢ id) where
  judge_timeout-Agrees : (after : Duration) → Agrees id s (judge_timeout s server after).0
  unfolding judge_timeout
  judge_timeout-Agrees after = ground (
    arith,
    lookup-insert_ne _ _ other (next_streak (lookup server.server_id s.timeouts)) s.timeouts,
    lookup-remove_ne _ _ other
        (insert server.server_id (next_streak (lookup server.server_id s.timeouts)) s.timeouts),
  )

  judge_outcome-Agrees : (o : ProbeOutcome) → Agrees id s (judge_outcome s server o).0
  unfolding judge_outcome
  judge_outcome-Agrees (timed_out after) = judge_timeout-Agrees after
  judge_outcome-Agrees _ =
      ground (arith, lookup-remove_ne _ _ other s.backoff, lookup-remove_ne _ _ other s.timeouts)

  judge_connect-Agrees :
      (now : Instant) (render : Error → String) (answer : Result (List McpTool) Error)
      → Agrees id s (judge_connect s server now render answer).0
  unfolding judge_connect
  judge_connect-Agrees now render (ok tools) = ground (
    arith,
    lookup-remove_ne _ _ other s.backoff,
    lookup-remove_ne _ _ other s.timeouts,
    lookup-remove_ne _ _ other s.terminal,
  )
  judge_connect-Agrees now render (err error) =
      if_split (λ (r : Supervisor × SupervisorEvent). Agrees id s r.0)
        (is_missing_runtime error || is_unauthorized error)
        (λ _.
          ground
            (arith, lookup-remove_ne _ _ other s.backoff, lookup-insert_ne _ _ other tt s.terminal))
        (λ _. ground (
          arith,
          lookup-insert_ne _ _ other
              (record_failure (unwrap_or (lookup server.server_id s.backoff) no_failure) now)
              s.backoff,
        ))

-- The supervisor that a visit leaves behind agrees with `s` on the server `id`.
abbrev EndsAgreeing :
    {W : Type 0} → String → Supervisor → Supervisor × List SupervisorEvent × W → Type 0
EndsAgreeing id s r = Agrees id s r.0

module _ {W : Type 0} (outside : Outside W) (id : String) where
  module _ (server : InstalledServer) (other : server.server_id ≢ id) (now : Instant) where
    reconnect-Agrees : (s : Supervisor) (w : W) → Agrees id s (reconnect outside s server now w).0
    unfolding reconnect attempt_connect
    reconnect-Agrees s w =
        let state = unwrap_or (lookup server.server_id s.backoff) no_failure in
        let entered : Supervisor = record s { backoff = insert server.server_id state s.backoff } in
        let same : Agrees id s entered =
          ground (arith, lookup-insert_ne _ _ other state s.backoff) in
        if_split (EndsAgreeing id s) (contains_key server.server_id s.terminal)
          (λ _. Agrees-refl id s)
          (λ _.
            if_split (EndsAgreeing id s) (ready state now)
              (λ _. Agrees-trans id s entered _ same (
                judge_connect-Agrees entered server id other now outside.render
                  (outside.connect s.identity s.proxy server w).0))
              (λ _. same))

    visit_connected-Agrees :
        (s : Supervisor) (w : W) → Agrees id s (visit_connected outside s server now w).0
    unfolding visit_connected judge_probe
    visit_connected-Agrees s w =
        let outcome = (outside.probe_alive server.server_id s.config.probe_timeout w).0 in
        let judged = judge_outcome-Agrees s server id other outcome in
        on_verdict_split (EndsAgreeing id s) (judge_outcome s server outcome).1 judged
          (Agrees-trans id s _ _ judged (reconnect-Agrees _ _))

    -- A visit to one server leaves what is known of every other server as it was.
    pub visit-Agrees : (s : Supervisor) (w : W) → Agrees id s (visit outside s server now w).0
    unfolding visit
    visit-Agrees s w =
        if_split (EndsAgreeing id s) server.enabled
          (λ _.
            if_split (EndsAgreeing id s) (outside.is_connected server.server_id w).0
              (λ _. visit_connected-Agrees s _) (λ _. reconnect-Agrees s _))
          (λ _. ground (
            arith,
            lookup-remove_ne _ _ other s.backoff,
            lookup-remove_ne _ _ other s.timeouts,
            lookup-remove_ne _ _ other s.terminal,
          ))

  visit_all-Agrees :
      (servers : List InstalledServer) (s : Supervisor) (now : Instant) (w : W)
      → All (λ x. x.server_id ≢ id) servers
      → Agrees id s (visit_all outside s servers now w).0
  unfolding visit_all
  visit_all-Agrees [] s now w h = Agrees-refl id s
  visit_all-Agrees (server ∷ servers) s now w h =
      let r = visit outside s server now w in
      Agrees-trans id s r.0 _ (visit-Agrees server h.0 now s w)
        (visit_all-Agrees servers r.0 now r.2 h.1)

  -- A cycle that does not list a server leaves what is known of it as it was, and the pacing, the
  -- identity and the proxy of the supervisor too.
  pub tick-Agrees :
      (s : Supervisor) (servers : List InstalledServer) (now : Instant) (w w' : W)
      → outside.list_servers w ≡ (ok servers, w')
      → All (λ x. x.server_id ≢ id) servers
      → Agrees id s (tick outside s now w).0
  unfolding tick
  tick-Agrees s servers now w w' e h = rw e (visit_all-Agrees servers s now w' h)
