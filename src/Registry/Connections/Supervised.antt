-- ===== src/Registry/Connections/Supervised.antt =====
-- crates/tinymcp/src/registry/supervisor/types.rs over crates/tinymcp/src/registry/connections: the
-- supervisor as it runs on the live sessions.
use tinymcp.Common.{
  ◌≡◌, refl, sym, subst, ◌∙◌, inl, inr, true, false, List, [], ◌∷◌, Option, none, some, String,
  lookup, is_some, Result, ok, err, if_split, length, ◌||◌, contains_key, ltb, ap, unwrap_or,
}
use tinymcp.Error.{Error, is_missing_runtime, is_unauthorized}
use tinymcp.Registry.{InstalledServer, McpTool}
use tinymcp.Supervisor.{
  Instant, ProbeOutcome, alive, missing, broken, timed_out, SupervisorEvent, probe_answered,
  probe_timed_out, reconnected, Outside,
}
use tinymcp.Supervisor.Backoff.{ready, no_failure}
use tinymcp.Supervisor.Cycle.{
  Supervisor, visit, reconnect, visit_connected, judge_outcome, judge_connect, AfterProbe, keep,
  rebuild, attempt_connect, judge_timeout, judge_probe, on_verdict, next_streak, teardown_after,
}
use tinymcp.Registry.Connections.{Connection, Connections, Surroundings, Duration}
use tinymcp.Registry.Connections.Sessions.{
  ask, connect, disconnect, is_connected, probe_alive, probe_client, connect_inner,
}
use tinymcp.Registry.Connections.Entries.{Leaves, disconnect-Gone}
use tinymcp.Registry.Connections.Outcome.{HasTools, Recorded, connect-Recorded}

module _ {W : Type 0} (env : Surroundings W) where
  abbrev pub State : Type 0
  State = Connections × W

  -- What a cycle calls, as the live sessions do it.
  abbrev pub outside : Outside State
  outside = record {
    list_servers = ask env env.store.list_servers;
    is_connected = λ id s. (is_connected id s.0, s);
    probe_alive = probe_alive env;
    disconnect = λ id s. (disconnect env id s).1;
    connect =
        λ identity proxy server. connect (record env { identity = identity; proxy = proxy }) server;
    render = env.transports.render;
  }

-- The session that an event tells of: as many tools as it counts, one that is kept, or none.
abbrev pub Tells : SupervisorEvent → Option Connection → Type 0
Tells (reconnected _ n _) session =
    (tools : List McpTool) × HasTools tools session × (length tools ≡ n)
Tells (probe_answered _ _) session = is_some session ≡ true
Tells (probe_timed_out _ _ _ _) session = is_some session ≡ true
Tells _ session = session ≡ none

abbrev pub TellsLast : Option Connection → List SupervisorEvent → Option Connection → Type 0
TellsLast before [] after = after ≡ before
TellsLast before (e ∷ []) after = Tells e after
TellsLast before (e ∷ f ∷ []) after = Tells f after
TellsLast before _ after = ⊥

module _ {W : Type 0} (env : Surroundings W) (server : InstalledServer)
    (leaves : Leaves server.server_id env.others) where
  abbrev session : State env → Option Connection
  session s = lookup server.server_id s.0.live

  judge_connect-Tells :
      (sup : Supervisor) (now : Instant) (render : Error → String) (r : Result (List McpTool) Error)
      (w : W) (s : State env)
      → Recorded env server leaves none w r s
      → Tells (judge_connect sup server now render r).1 (session s)
  unfolding judge_connect
  judge_connect-Tells sup now render (ok tools) w s rec = (tools, rec.0, refl)
  judge_connect-Tells sup now render (err e) w s rec =
      let gone : session s ≡ none = elim rec.0 [ inl p ↦ p | inr p ↦ p ] in
      if_split (λ (p : Supervisor × SupervisorEvent). Tells p.1 (session s))
        (is_missing_runtime e || is_unauthorized e) (λ _. gone) (λ _. gone)

  -- No event and no session, or one event that tells of it.
  abbrev Attempted : Supervisor × List SupervisorEvent × State env → Type 0
  Attempted (sup, [], s) = session s ≡ none
  Attempted (sup, e ∷ [], s) = Tells e (session s)
  Attempted (sup, e ∷ f ∷ l, s) = ⊥

  reconnect-Attempted :
      (sup : Supervisor) (now : Instant) (s : State env)
      → session s ≡ none
      → Attempted (reconnect (outside env) sup server now s)
  unfolding reconnect attempt_connect
  reconnect-Attempted sup now s gone =
      let dialling = record env { identity = sup.identity; proxy = sup.proxy } in
      let told =
        subst
          (λ o.
            Recorded env server leaves o (connect_inner dialling server s).1.1
              (connect dialling server s).0 (connect dialling server s).1)
          gone (connect-Recorded dialling server leaves s) in
      if_split Attempted (contains_key server.server_id sup.terminal) (λ _. gone)
        (λ _.
          if_split Attempted
            (ready (unwrap_or (lookup server.server_id sup.backoff) no_failure) now)
            (λ _. judge_connect-Tells _ now env.transports.render _ _ _ told) (λ _. gone))

  -- What a verdict lets an event tell.
  abbrev Fits : AfterProbe → SupervisorEvent → Type 0
  Fits keep e = (o : Option Connection) → is_some o ≡ true → Tells e o
  Fits rebuild e = Tells e none

  judge_outcome-Fits :
      (sup : Supervisor) (o : ProbeOutcome)
      → Fits (judge_outcome sup server o).1 (judge_outcome sup server o).2
  unfolding judge_outcome judge_timeout
  judge_outcome-Fits sup (alive d) = λ o h. h
  judge_outcome-Fits sup (timed_out d) =
      if_split (λ (p : Supervisor × AfterProbe × SupervisorEvent). Fits p.1 p.2)
        (ltb (next_streak (lookup server.server_id sup.timeouts)) teardown_after) (λ _ o h. h)
        (λ _. refl)
  judge_outcome-Fits sup missing = refl
  judge_outcome-Fits sup (broken t d) = refl
  judge_outcome-Fits sup ProbeOutcome.unknown = refl

  probed_client :
      (d : Duration) (o : Option Connection) (s : State env)
      → session (probe_client env d o s).1 ≡ session s
  probed_client d none s = refl
  probed_client d (some c) s = leaves.live _ s.0

  -- A session that a probe drops and a new one that an attempt brings are one visit.
  told_after :
      (e : SupervisorEvent) (x : Supervisor × List SupervisorEvent × State env)
      (before : Option Connection)
      → Tells e none
      → Attempted x
      → TellsLast before (e ∷ x.1) (session x.2)
  told_after e (sup, [], s) before fits gone = subst (Tells e) (sym gone) fits
  told_after e (sup, f ∷ [], s) before fits told = told
  told_after e (sup, f ∷ g ∷ l, s) before fits told = absurd told

  finish :
      (v : AfterProbe) (e : SupervisorEvent) (sup : Supervisor) (now : Instant) (s : State env)
      (before : Option Connection)
      → Fits v e
      → is_some (session s) ≡ true
      → let w = on_verdict v s (disconnect env server.server_id s).1 in
        let x = reconnect (outside env) sup server now w in
        let y : Supervisor × List SupervisorEvent × State env =
          on_verdict v (sup, e ∷ [], w) (x.0, e ∷ x.1, x.2) in
        TellsLast before y.1 (session y.2)
  finish keep e sup now s before fits live = fits (session s) live
  finish rebuild e sup now s before fits live =
      let ended = (disconnect env server.server_id s).1 in
      told_after e (reconnect (outside env) sup server now ended) before fits (
        reconnect-Attempted sup now ended
          ((disconnect-Gone env server.server_id leaves (λ s. Unit)).at s tt).0)

  told_first :
      (x : Supervisor × List SupervisorEvent × State env) (before : Option Connection)
      → before ≡ none
      → Attempted x
      → TellsLast before x.1 (session x.2)
  told_first (sup, [], s) before gone h = h ∙ sym gone
  told_first (sup, e ∷ [], s) before gone h = h
  told_first (sup, e ∷ f ∷ l, s) before gone h = absurd h

  no_session : (o : Option Connection) → is_some o ≡ false → o ≡ none
  no_session none h = refl
  no_session (some c) h = cc

  visit_connected-Tells :
      (sup : Supervisor) (now : Instant) (s : State env)
      → is_some (session s) ≡ true
      → let x = visit_connected (outside env) sup server now s in
        TellsLast (session s) x.1 (session x.2)
  unfolding visit_connected judge_probe probe_alive
  visit_connected-Tells sup now s live =
      let o = (probe_client env sup.config.probe_timeout (session s) s).0 in
      finish _ _ _ now _ (session s) (judge_outcome-Fits sup o)
        (ap is_some (probed_client sup.config.probe_timeout (session s) s) ∙ live)

  -- With other tasks that leave the entries of the install alone: the last event of a supervisor's
  -- visit to it tells where its session stands afterwards: connected with as many tools as a reconnect counts, still
  -- there after a probe that keeps it, and none after a drop or a failed attempt; with no event the
  -- session is as it was.
  pub visit-TellsLast :
      (sup : Supervisor) (now : Instant) (s : State env)
      → let x = visit (outside env) sup server now s in TellsLast (session s) x.1 (session x.2)
  unfolding visit is_connected
  visit-TellsLast sup now s =
      let P = λ (x : Supervisor × List SupervisorEvent × State env).
        TellsLast (session s) x.1 (session x.2) in
      if_split P server.enabled
        (λ _. if_split P (is_connected server.server_id s.0) (visit_connected-Tells sup now s) (λ h.
          told_first (reconnect (outside env) sup server now s) (session s)
            (no_session (session s) h) (reconnect-Attempted sup now s (no_session (session s) h))))
        (λ _. refl)
