-- ===== src/Registry/Operations/Setup.antt =====
-- crates/tinymcp/src/registry/ops/types.rs: the guided setup, over the vault of secrets and the sessions.
use tinymcp.Common.{ℕ, Bool, List, [], map, Option, none, some, String, Map, Result, ok}
use Prim.Native.String.{◌++◌}
use tinymcp.Common.Effects.{Effect, done, fail, of_result, attempt, ◌>>=◌, ◌>>◌}
use tinymcp.Common.Ordered.{extend}
use tinymcp.Json.{Value}
use tinymcp.Error.{Error, malformed_response}
use tinymcp.Registry.{McpTool, Transport, stdio, http_remote}
use tinymcp.Registry.Install.{Launch, pick_connection, build_install_transport}
use tinymcp.Registry.Connections.{ActiveClient, Connections, Surroundings}
use tinymcp.Registry.Connections.Dial.{build_http_auth}
use tinymcp.Registry.Connections.Sessions.{Session, ask, tell, to_tool}
use tinymcp.Registry.Setup.{SecretRef, SecretVault, request, submit, resolve, consume, parse}
use tinymcp.Registry.Operations.{
  Registry, ConnectOutcome, require_non_empty, split_routing_name, or_fail, install,
}
use tinymcp.Registry.Operations.Calls.{connect, connected_or_none}
use tinymcp.Supervisor.{Instant}

-- The identifiers and the monotonic clock, and what other tasks do to the vault while a call waits.
pub record Desk (W : Type 0) : Type 0 where
  pub new_hex : W → String × W
  pub clock : W → Instant × W
  pub other_vault : W → SecretVault → SecretVault

abbrev pub test_timeout_secs : ℕ
test_timeout_secs = 30

module _ {W : Type 0} (env : Surroundings W) (registry : Registry W) (desk : Desk W) where
  abbrev pub Guided : Type 0 → Type 0
  Guided A = Effect (SecretVault × (Connections × W)) Error A

  open env use {transports}

  -- A call of the vault under its lock, and a call of the sessions.
  unfoldable pub under_lock :
      {A : Type 0} → (Instant → SecretVault → Result A Error × SecretVault) → Guided A
  under_lock f s = let r = f (desk.clock s.1.1).0 s.0 in (r.0, (r.1, (s.1.0, (desk.clock s.1.1).1)))

  unfoldable pub in_session : {A : Type 0} → Session env A → Guided A
  in_session m s = ((m s.1).0, (desk.other_vault (m s.1).1.1 s.0, (m s.1).1))

  unfoldable pub setup_request_secret : String → Guided SecretRef
  setup_request_secret key_name = do
    name ← of_result (require_non_empty key_name "key_name")
    raw ← in_session (tell env desk.new_hex)
    under_lock (λ now v. (ok (request raw name now v).0, (request raw name now v).1))

  abbrev pub submit_to : String → Option SecretRef → String → Guided Bool
  submit_to handle none value =
      fail (malformed_response ("`" ++ (handle ++ "` is not a secret handle")))
  submit_to handle (some secret) value =
      under_lock (λ now v. (ok (submit secret value now v).0, (submit secret value now v).1))

  unfoldable pub setup_submit_secret : String → String → Guided Bool
  setup_submit_secret handle value = submit_to handle (parse handle) value

  -- A session that is opened to see what it lists.
  abbrev pub open_tested : Launch → Map String → Transport → Session env ActiveClient
  open_tested launch values (http_remote url) = do
    addresses ← ask env (transports.guard_endpoint url "MCP")
    ask env (
        transports.open_http (record {
          url = url;
          timeout_secs = test_timeout_secs;
          auth = build_http_auth values;
          identity = env.identity;
          proxy = env.proxy;
          addresses = some addresses;
        }))
  open_tested launch values stdio =
      tell env (transports.open_stdio launch.command launch.args values env.identity)

  -- It is closed again when it has listed its tools.
  abbrev pub list_tested : ActiveClient → Session env (List McpTool)
  list_tested client = do
    ask env (transports.initialize client)
    remote_tools ← ask env (transports.list_tools client)
    attempt (ask env (transports.close_session client))
    done (map to_tool remote_tools)

  unfoldable pub test_launch : String → String → Map String → Session env (List McpTool)
  test_launch source name values = do
    found ← ask env (registry.detail source name)
    picked ←
        or_fail
          (malformed_response
            ("`" ++ (name ++ "` offers neither a hosted endpoint nor a package to test")))
          (pick_connection found.connections)
    launch ← of_result (build_install_transport transports.parse_url registry.parse_ip name picked)
    client ← open_tested launch values launch.transport
    list_tested client

  unfoldable pub setup_test_connection : String → Map SecretRef → Guided (List McpTool)
  unfolding test_launch
  setup_test_connection qualified_name secrets = do
    name ← of_result (require_non_empty qualified_name "qualified_name")
    let (source, canonical) = split_routing_name name
    values ← under_lock (resolve secrets)
    in_session (test_launch source canonical (extend [] values))

  unfoldable pub install_and_connect :
      String → Map String → Option Value → Session env ConnectOutcome
  unfolding install connect
  install_and_connect qualified_name values config = do
    installed ← install env registry qualified_name values config
    result ← attempt (connect env registry installed.server.server_id)
    connected_or_none env registry installed.server.server_id result

  unfoldable pub setup_install_and_connect :
      String → Map SecretRef → Option Value → Guided ConnectOutcome
  unfolding install_and_connect
  setup_install_and_connect qualified_name secrets config = do
    values ← under_lock (consume secrets)
    in_session (install_and_connect qualified_name (extend [] values) config)
