-- ===== src/Tests/SupervisorTests.antt =====
-- The supervisor at concrete inputs: a store with one install, whose server never connects or never
-- answers its probe in time.
use tinymcp.Common.{
  ◌+◌, ◌*◌, ◌^◌, ◌≤◌, ◌≡◌, ◌≢◌, refl, true, false, List, [], ◌∷◌, Option, none, some, String, ok,
  err, arith, min, u32_max, length, if◌then◌else◌, All, lookup, insert, eq_iff, Result, ltb,
}
use tinymcp.Common.Int.{ℤ}
use tinymcp.Json.{Value}
use tinymcp.Error.{Error, is_missing_runtime, is_unauthorized}
use tinymcp.Registry.{McpTool, InstalledServer, CommandKind, Transport}
use tinymcp.Supervisor.{
  timed_out, McpClientIdentityConfig, Outside, default_config, from_secs, server_ref,
  reconnect_failed,
}
use tinymcp.Supervisor.Backoff.{
  delay_after, backoff_base_secs, backoff_max_secs, record_failure, current_delay, ready,
}
use tinymcp.Supervisor.Curve.{delay_after_curve}
use tinymcp.Supervisor.Cycle.{
  Supervisor, new, judge_connect, visit, tick, failures_of, visit_all, reconnect, attempt_connect,
}
use tinymcp.Supervisor.Invariant.{Inv, new-Inv, tick-Inv}
use tinymcp.Supervisor.Parking.{IsParked, Spares, tick-IsParked}
use tinymcp.Supervisor.Waiting.{visit-judge_connect}
use tinymcp.Supervisor.Hosts.{SupervisedHost, run, run-Inv}

abbrev demo : InstalledServer
demo = record {
  server_id = "s1";
  qualified_name = "@demo/one";
  display_name = "One";
  description = none;
  icon_url = none;
  command_kind = CommandKind.node;
  command = "npx";
  args = [];
  env_keys = [];
  config = none;
  installed_at = ℤ.pos 0;
  last_connected_at = none;
  transport = Transport.stdio;
  enabled = true;
}

abbrev identity : McpClientIdentityConfig
identity = record { name = "host"; title = "Host"; version = "1"; capabilities = Value.null }

abbrev answer : Option Error → Result (List McpTool) Error
answer none = ok []
answer (some e) = err e

-- A world without state: the server is not connected, a probe times out, and a connect answers as given.
abbrev world : Option Error → Outside (Unit {0})
world failure = record {
  list_servers = λ w. (ok (demo ∷ []), w);
  is_connected = λ id w. (false, w);
  probe_alive = λ id window w. (timed_out window, w);
  disconnect = λ id w. w;
  connect = λ i p server w. (answer failure, w);
  render = λ e. "failed";
}

abbrev fresh : Supervisor
fresh = record {
  config = default_config;
  identity = identity;
  proxy = none;
  backoff = [];
  timeouts = [];
  terminal = [];
}

abbrev parking : Supervisor
parking = record fresh { terminal = ("s1", tt) ∷ [] }

fresh-Inv : Inv fresh
unfolding new
fresh-Inv = new-Inv default_config identity none

parking-Inv : Inv parking
unfolding lookup
parking-Inv = record { penalties = λ id. tt; streaks = λ id. tt; apart = λ id. ground arith }

abbrev refused : Option Error
refused = some (Error.http "https://example" 503 "")

delay_after_curve_example :
    (delay_after 2 ≡ from_secs (min (backoff_base_secs * 2 ^ 1) backoff_max_secs))
    × (from_secs 5 ≤ delay_after 2)
    × (delay_after 2 ≤ delay_after 40)
    × (delay_after 40 ≤ from_secs 300)
delay_after_curve_example = delay_after_curve 1 40 (omega arith)

delays : delay_after 7 ≡ from_secs 300
unfolding delay_after
delays = refl

tick-Inv_example : Inv (tick (world refused) fresh 0 tt).0
tick-Inv_example = tick-Inv (world refused) fresh 0 tt fresh-Inv

tick_runs :
    (tick (world refused) fresh 0 tt).1
    ≡ reconnect_failed (server_ref demo) "failed" 1 (from_secs 5) ∷ []
unfolding tick visit_all visit reconnect attempt_connect judge_connect record_failure current_delay
    ready lookup insert is_missing_runtime is_unauthorized delay_after
tick_runs = refl

is_parked : IsParked "s1" parking
unfolding lookup
is_parked = λ e. cc

tick-IsParked_example :
    IsParked "s1" (tick (world none) parking 0 tt).0
    × All (Spares "s1") (tick (world none) parking 0 tt).1
tick-IsParked_example =
    tick-IsParked (world none) "s1" parking (demo ∷ []) 0 tt tt parking-Inv refl (λ _. refl, tt)
      is_parked

abbrev unavailable : Error
unavailable = Error.http "https://example" 503 ""

visit-judge_connect_example :
    let s1 = (judge_connect fresh demo 10 (λ e. "failed") (err unavailable)).0 in
    let n = min (failures_of (lookup "s1" fresh.backoff) + 1) u32_max in
    let r = visit (world refused) s1 demo 20 tt in
    let early = ltb 20 (10 + delay_after n) in
    (length r.1 ≡ (if early then 0 else 1)) × (r.2 ≡ (if early then tt else tt))
unfolding lookup is_missing_runtime is_unauthorized
visit-judge_connect_example =
    visit-judge_connect (world refused) fresh demo 10 20 (λ e. "failed") unavailable tt tt refl refl
      refl refl

abbrev workspace : SupervisedHost (Unit {0})
workspace = record { key = "w"; registry = world refused; identity = identity; proxy = none }

w_not_other : ◌≢◌ {A = String} "w" "other"
w_not_other = ground (arith, eq_iff "w" "other")

run-Inv_example : Inv (run (world refused) fresh (0 ∷ 60 ∷ []) tt).0
run-Inv_example = run-Inv (world refused) fresh (0 ∷ 60 ∷ []) tt fresh-Inv
