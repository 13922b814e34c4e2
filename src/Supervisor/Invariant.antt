-- ===== src/Supervisor/Invariant.antt =====
-- crates/tinymcp/src/registry/supervisor/types.rs: what holds of a supervisor between two visits.
use tinymcp.Common.{
  ◌||◌, ℕ, ◌<◌, ◌≡◌, ◌≢◌, false, List, [], ◌∷◌, Option, none, some, String, lookup, insert, remove,
  lookup-insert, lookup-remove, arith, eq_iff, Result, ok, err, unwrap_or, inl, inr, remove-insert,
  Option-cases, if_split, insert-insert,
}
use tinymcp.Error.{Error, is_missing_runtime, is_unauthorized}
use tinymcp.Registry.{InstalledServer, McpTool}
use tinymcp.Supervisor.{
  Duration, Instant, ProbeOutcome, alive, missing, broken, timed_out, SupervisorConfig,
  McpClientIdentityConfig, McpProxyConfig, Outside, SupervisorEvent,
}
use tinymcp.Supervisor.Backoff.{BackoffState, no_failure, ready, record_failure}
use tinymcp.Supervisor.Cycle.{
  teardown_after, Supervisor, new, next_streak, judge_timeout, judge_outcome, judge_connect,
  judge_probe, attempt_connect, reconnect, visit_connected, visit, visit_all, tick, visit_listed,
  on_verdict_split,
}

-- A penalty records at least one failure and has a time for the next attempt.
abbrev pub IsPenalty : Option BackoffState → Type 0
IsPenalty none = Unit
IsPenalty (some b) = (0 < b.failures) × (b.next_attempt_at ≢ none)

-- A streak has begun and has not yet ended its session.
abbrev pub IsStreak : Option ℕ → Type 0
IsStreak none = Unit
IsStreak (some n) = (0 < n) × (n < teardown_after)

-- A parked server has no penalty.
abbrev pub IsApart : Option (Unit {0}) → Option BackoffState → Type 0
IsApart none b = Unit
IsApart (some _) b = b ≡ none

pub record Inv (s : Supervisor) : Type 0 where
  pub penalties : (id : String) → IsPenalty (lookup id s.backoff)
  pub streaks : (id : String) → IsStreak (lookup id s.timeouts)
  pub apart : (id : String) → IsApart (lookup id s.terminal) (lookup id s.backoff)

pub new-Inv :
    (c : SupervisorConfig) (i : McpClientIdentityConfig) (p : Option McpProxyConfig)
    → Inv (new c i p)
unfolding new lookup
new-Inv c i p = record { penalties = λ id. tt; streaks = λ id. tt; apart = λ id. tt }

judge_timeout-Inv :
    (s : Supervisor) (server : InstalledServer) (after : Duration)
    → Inv s
    → Inv (judge_timeout s server after).0
unfolding judge_timeout
judge_timeout-Inv s server after h = record {
  penalties = λ id. ground (arith, h.penalties id);
  streaks = λ id. ground (
    arith,
    h.streaks id,
    h.streaks server.server_id,
    eq_iff server.server_id id,
    lookup-insert server.server_id id (next_streak (lookup server.server_id s.timeouts)) s.timeouts,
    lookup-remove server.server_id id
        (insert server.server_id (next_streak (lookup server.server_id s.timeouts)) s.timeouts),
  );
  apart = λ id. ground (arith, h.apart id);
}

-- Forgetting a server's entries keeps the invariant, whichever of them are forgotten.
module _ (s : Supervisor) (key : String) (h : Inv s) where
  drop_backoff : Inv (record s { backoff = remove key s.backoff })
  drop_backoff = record {
    penalties = λ id. ground (arith, h.penalties id, lookup-remove key id s.backoff);
    streaks = λ id. h.streaks id;
    apart = λ id. ground (arith, h.apart id, lookup-remove key id s.backoff);
  }

  drop_timeouts : Inv (record s { timeouts = remove key s.timeouts })
  drop_timeouts = record {
    penalties = λ id. h.penalties id;
    streaks = λ id. ground (arith, h.streaks id, lookup-remove key id s.timeouts);
    apart = λ id. h.apart id;
  }

  drop_terminal : Inv (record s { terminal = remove key s.terminal })
  drop_terminal = record {
    penalties = λ id. h.penalties id;
    streaks = λ id. h.streaks id;
    apart = λ id. ground (arith, h.apart id, lookup-remove key id s.terminal);
  }

  park : Inv (record s { backoff = remove key s.backoff; terminal = insert key tt s.terminal })
  park = record {
    penalties = λ id. ground (arith, h.penalties id, lookup-remove key id s.backoff);
    streaks = λ id. h.streaks id;
    apart = λ id.
        ground
          (arith, h.apart id, lookup-remove key id s.backoff, lookup-insert key id tt s.terminal);
  }

  penalise :
      (b : BackoffState)
      → IsPenalty (some b)
      → lookup key s.terminal ≡ none
      → Inv (record s { backoff = insert key b s.backoff })
  penalise b p free = record {
    penalties = λ id. ground (arith, h.penalties id, lookup-insert key id b s.backoff);
    streaks = λ id. h.streaks id;
    apart = λ id. ground (arith, h.apart id, eq_iff key id, lookup-insert key id b s.backoff);
  }

module _ (s : Supervisor) (server : InstalledServer) (h : Inv s) where
  judge_outcome-Inv : (o : ProbeOutcome) → Inv (judge_outcome s server o).0
  unfolding judge_outcome
  judge_outcome-Inv (alive elapsed) = drop_timeouts _ _ (drop_backoff s server.server_id h)
  judge_outcome-Inv (timed_out after) = judge_timeout-Inv s server after h
  judge_outcome-Inv (broken error elapsed) = drop_timeouts s server.server_id h
  judge_outcome-Inv missing = drop_timeouts s server.server_id h
  judge_outcome-Inv ProbeOutcome.unknown = drop_timeouts s server.server_id h

  forget-Inv : Inv (record s {
    backoff = remove server.server_id s.backoff;
    timeouts = remove server.server_id s.timeouts;
    terminal = remove server.server_id s.terminal;
  })
  forget-Inv =
      drop_terminal _ server.server_id
        (drop_timeouts _ server.server_id (drop_backoff s server.server_id h))

record_failure-IsPenalty :
    (b : BackoffState) (now : Instant) → IsPenalty (some (record_failure b now))
unfolding record_failure
record_failure-IsPenalty b now = ground arith

-- An attempt settles the entry that was made for it, whatever that entry was.
module _ (s : Supervisor) (server : InstalledServer) (h : Inv s) (b : BackoffState) where
  judge_connect-Inv :
      (now : Instant) (render : Error → String) (answer : Result (List McpTool) Error)
      → lookup server.server_id s.terminal ≡ none
      → Inv
          (judge_connect
            (record s { backoff = insert server.server_id b s.backoff })
            server
            now
            render
            answer).0
  unfolding judge_connect
  judge_connect-Inv now render (ok tools) free = rw remove-insert (forget-Inv s server h)
  judge_connect-Inv now render (err error) free =
      if_split (λ (r : Supervisor × SupervisorEvent). Inv r.0)
        (is_missing_runtime error || is_unauthorized error)
        (λ _. rw remove-insert (park s server.server_id h))
        (λ _.
          rw insert-insert (penalise s server.server_id h _ (record_failure-IsPenalty _ now) free))

-- Only a server with a penalty has to wait.
waiting-IsPenalty :
    (o : Option BackoffState) (now : Instant)
    → ready (unwrap_or o no_failure) now ≡ false
    → IsPenalty o
    → IsPenalty (some (unwrap_or o no_failure))
unfolding ready
waiting-IsPenalty none now waits h = cc
waiting-IsPenalty (some b) now waits h = h

-- The supervisor that a visit leaves behind keeps the invariant.
abbrev EndsInv : {W : Type 0} → Supervisor × List SupervisorEvent × W → Type 0
EndsInv r = Inv r.0

module _ {W : Type 0} (outside : Outside W) where
  reconnect-Inv :
      (s : Supervisor) (server : InstalledServer) (now : Instant) (w : W)
      → Inv s
      → Inv (reconnect outside s server now w).0
  unfolding reconnect attempt_connect
  reconnect-Inv s server now w h = elim (Option-cases (lookup server.server_id s.terminal)) [
    | inr (u, e) ↦ simp e h
    | inl free ↦ simp free (
        if_split EndsInv (ready (unwrap_or (lookup server.server_id s.backoff) no_failure) now)
          (λ due. judge_connect-Inv s server h _ now _ _ free)
          (λ waits.
            penalise s server.server_id h _
              (waiting-IsPenalty (lookup server.server_id s.backoff) now waits
                (h.penalties server.server_id))
              free))
  ]

  visit_connected-Inv :
      (s : Supervisor) (server : InstalledServer) (now : Instant) (w : W)
      → Inv s
      → Inv (visit_connected outside s server now w).0
  unfolding visit_connected judge_probe
  visit_connected-Inv s server now w h =
      let outcome = (outside.probe_alive server.server_id s.config.probe_timeout w).0 in
      let kept = judge_outcome-Inv s server h outcome in
      on_verdict_split EndsInv (judge_outcome s server outcome).1 kept
        (reconnect-Inv _ server now _ kept)

  pub visit-Inv :
      (s : Supervisor) (server : InstalledServer) (now : Instant) (w : W)
      → Inv s
      → Inv (visit outside s server now w).0
  unfolding visit
  visit-Inv s server now w h =
      if_split EndsInv server.enabled
        (λ _.
          if_split EndsInv (outside.is_connected server.server_id w).0
            (λ _. visit_connected-Inv s server now _ h) (λ _. reconnect-Inv s server now _ h))
        (λ _. forget-Inv s server h)

  visit_all-Inv :
      (servers : List InstalledServer) (s : Supervisor) (now : Instant) (w : W)
      → Inv s
      → Inv (visit_all outside s servers now w).0
  unfolding visit_all
  visit_all-Inv [] s now w h = h
  visit_all-Inv (server ∷ servers) s now w h =
      visit_all-Inv servers (visit outside s server now w).0 now (visit outside s server now w).2
        (visit-Inv s server now w h)

  visit_listed-Inv :
      (servers : Result (List InstalledServer) Error) (s : Supervisor) (now : Instant) (w : W)
      → Inv s
      → Inv (visit_listed outside s servers now w).0
  visit_listed-Inv (ok servers) s now w h = visit_all-Inv servers s now w h
  visit_listed-Inv (err _) s now w h = h

  -- A cycle keeps the invariant, whatever the store and the connections answer in it.
  pub tick-Inv : (s : Supervisor) (now : Instant) (w : W) → Inv s → Inv (tick outside s now w).0
  unfolding tick
  tick-Inv s now w h = visit_listed-Inv (outside.list_servers w).0 s now _ h
