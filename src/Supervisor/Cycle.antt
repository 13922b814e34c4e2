-- ===== src/Supervisor/Cycle.antt =====
-- crates/tinymcp/src/registry/supervisor/types.rs: the supervisor's state, what a probe and an
-- attempt to connect do to it, and one cycle over the installed servers.
use tinymcp.Common.{
  ℕ, List, [], ◌++◌, ◌∷◌, Option, none, some, String, Map, lookup, insert, remove, contains_key,
  ltb, ◌||◌, if◌then◌else◌, unwrap_or, length, Result, ok, err, saturating_add_u32,
}
use tinymcp.Error.{Error, is_missing_runtime, is_unauthorized}
use tinymcp.Registry.{InstalledServer, McpTool}
use tinymcp.Supervisor.{
  Duration, Instant, ProbeOutcome, alive, missing, broken, timed_out, server_ref, SupervisorEvent,
  probe_answered, probe_timed_out, transport_dropped, reconnected, reconnect_failed, parked,
  SupervisorConfig, McpClientIdentityConfig, McpProxyConfig, Outside,
}
use tinymcp.Supervisor.Backoff.{BackoffState, no_failure, ready, record_failure, current_delay}

-- `CONSECUTIVE_TIMEOUTS_BEFORE_TEARDOWN`.
abbrev pub teardown_after : ℕ
teardown_after = 3

pub data AfterProbe : Type 0 where
  keep rebuild : AfterProbe

-- The branch on a verdict.
abbrev pub on_verdict {ℓ} : {A : Type ℓ} → AfterProbe → A → A → A
on_verdict keep x y = x
on_verdict rebuild x y = y

pub on_verdict_split {ℓ κ} :
    {A : Type ℓ} (P : A → Type κ) (v : AfterProbe) {x y : A} → P x → P y → P (on_verdict v x y)
on_verdict_split P keep p q = p
on_verdict_split P rebuild p q = q

-- `terminal` is a set: a map to `Unit`.
pub record Supervisor : Type 0 where
  pub config : SupervisorConfig
  pub identity : McpClientIdentityConfig
  pub proxy : Option McpProxyConfig
  pub backoff : Map BackoffState
  pub timeouts : Map ℕ
  pub terminal : Map (Unit {0})

unfoldable pub new : SupervisorConfig → McpClientIdentityConfig → Option McpProxyConfig → Supervisor
new config identity proxy = record {
  config = config;
  identity = identity;
  proxy = proxy;
  backoff = [];
  timeouts = [];
  terminal = [];
}

-- The streak after one more timeout: `and_modify(saturating_add).or_insert(1)`.
abbrev pub next_streak : Option ℕ → ℕ
next_streak none = 1
next_streak (some n) = saturating_add_u32 n 1

unfoldable pub judge_timeout :
    Supervisor → InstalledServer → Duration → Supervisor × AfterProbe × SupervisorEvent
judge_timeout s server after =
    let id = server.server_id in
    let streak = next_streak (lookup id s.timeouts) in
    let counted = insert id streak s.timeouts in
    if ltb streak teardown_after
    then (
      record s { timeouts = counted },
      keep,
      probe_timed_out (server_ref server) after streak teardown_after,
    )
    else (
      record s { timeouts = remove id counted },
      rebuild,
      transport_dropped (server_ref server) (timed_out after) streak,
    )

-- The `match` of `judge_probe`.
unfoldable pub judge_outcome :
    Supervisor → InstalledServer → ProbeOutcome → Supervisor × AfterProbe × SupervisorEvent
judge_outcome s server (alive elapsed) = (
  record s {
    backoff = remove server.server_id s.backoff;
    timeouts = remove server.server_id s.timeouts;
  },
  keep,
  probe_answered (server_ref server) elapsed,
)
judge_outcome s server (timed_out after) = judge_timeout s server after
judge_outcome s server (broken error elapsed) = (
  record s { timeouts = remove server.server_id s.timeouts },
  rebuild,
  transport_dropped (server_ref server) (broken error elapsed) 0,
)
judge_outcome s server missing = (
  record s { timeouts = remove server.server_id s.timeouts },
  rebuild,
  transport_dropped (server_ref server) missing 0,
)
judge_outcome s server ProbeOutcome.unknown = (
  record s { timeouts = remove server.server_id s.timeouts },
  rebuild,
  transport_dropped (server_ref server) ProbeOutcome.unknown 0,
)

abbrev pub failures_of : Option BackoffState → ℕ
failures_of none = 0
failures_of (some state) = state.failures

-- The `match` of `attempt_connect`; the text of an error is given with it.
unfoldable pub judge_connect :
    Supervisor
    → InstalledServer
    → Instant
    → (Error → String)
    → Result (List McpTool) Error
    → Supervisor × SupervisorEvent
judge_connect s server now render (ok tools) =
    let id = server.server_id in
    (
      record s {
        backoff = remove id s.backoff;
        timeouts = remove id s.timeouts;
        terminal = remove id s.terminal;
      },
      reconnected (server_ref server) (length tools) (failures_of (lookup id s.backoff)),
    )
judge_connect s server now render (err error) =
    let id = server.server_id in
    let state = record_failure (unwrap_or (lookup id s.backoff) no_failure) now in
    if is_missing_runtime error || is_unauthorized error
    then (
      record s { backoff = remove id s.backoff; terminal = insert id tt s.terminal },
      parked (server_ref server) (render error),
    )
    else (
      record s { backoff = insert id state s.backoff },
      reconnect_failed (server_ref server) (render error) state.failures (current_delay state),
    )

module _ {W : Type 0} (outside : Outside W) where
  open outside use {list_servers, is_connected, probe_alive, disconnect, connect, render}

  -- A `rebuild` verdict has ended the session by the time this returns.
  unfoldable pub judge_probe :
      Supervisor → InstalledServer → W → Supervisor × AfterProbe × SupervisorEvent × W
  judge_probe s server w =
      let (outcome, w1) = probe_alive server.server_id s.config.probe_timeout w in
      let (s1, verdict, event) = judge_outcome s server outcome in
      (s1, verdict, event, on_verdict verdict w1 (disconnect server.server_id w1))

  unfoldable pub attempt_connect :
      Supervisor → InstalledServer → Instant → W → Supervisor × SupervisorEvent × W
  attempt_connect s server now w =
      let (answer, w1) = connect s.identity s.proxy server w in
      let (s1, event) = judge_connect s server now render answer in (s1, event, w1)

  -- What follows the liveness block for one install: parked servers and servers that wait out a
  -- backoff are passed over. `entry(..).or_default()` leaves an entry behind where none was.
  unfoldable pub reconnect :
      Supervisor → InstalledServer → Instant → W → Supervisor × List SupervisorEvent × W
  reconnect s server now w =
      let id = server.server_id in
      let state = unwrap_or (lookup id s.backoff) no_failure in
      let entered = record s { backoff = insert id state s.backoff } in
      if contains_key id s.terminal
      then (s, [], w)
      else if ready state now
      then (let (s1, event, w1) = attempt_connect entered server now w in (s1, event ∷ [], w1))
      else (entered, [], w)

  -- The body of the loop for an install that is connected, and for one that is not.
  unfoldable pub visit_connected :
      Supervisor → InstalledServer → Instant → W → Supervisor × List SupervisorEvent × W
  visit_connected s server now w =
      let (s1, verdict, event, w1) = judge_probe s server w in
      let (s2, events, w2) = reconnect s1 server now w1 in
      on_verdict verdict (s1, event ∷ [], w1) (s2, event ∷ events, w2)

  unfoldable pub visit :
      Supervisor → InstalledServer → Instant → W → Supervisor × List SupervisorEvent × W
  visit s server now w =
      let id = server.server_id in
      let (connected, w1) = is_connected id w in
      if server.enabled
      then (if connected then visit_connected s server now w1 else reconnect s server now w1)
      else (
        record s {
          backoff = remove id s.backoff;
          timeouts = remove id s.timeouts;
          terminal = remove id s.terminal;
        },
        [],
        w,
      )

  unfoldable pub visit_all :
      Supervisor → List InstalledServer → Instant → W → Supervisor × List SupervisorEvent × W
  visit_all s [] now w = (s, [], w)
  visit_all s (server ∷ servers) now w =
      let (s1, events, w1) = visit s server now w in
      let (s2, later, w2) = visit_all s1 servers now w1 in (s2, events ++ later, w2)

  -- A store that cannot be listed makes a cycle that observes nothing.
  abbrev pub visit_listed :
      Supervisor
      → Result (List InstalledServer) Error
      → Instant
      → W
      → Supervisor × List SupervisorEvent × W
  visit_listed s (ok servers) now w = visit_all s servers now w
  visit_listed s (err _) now w = (s, [], w)

  unfoldable pub tick : Supervisor → Instant → W → Supervisor × List SupervisorEvent × W
  tick s now w = let (servers, w1) = list_servers w in visit_listed s servers now w1

unfoldable pub backed_off_count : Supervisor → ℕ
backed_off_count s = length s.backoff

unfoldable pub consecutive_timeouts : Supervisor → String → ℕ
consecutive_timeouts s id = unwrap_or (lookup id s.timeouts) 0

unfoldable pub terminally_failed_count : Supervisor → ℕ
terminally_failed_count s = length s.terminal
