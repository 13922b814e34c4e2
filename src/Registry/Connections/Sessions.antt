-- ===== src/Registry/Connections/Sessions.antt =====
-- crates/tinymcp/src/registry/connections/types.rs: bringing sessions up, probing and ending them. A
-- call to the outside gives way to the other tasks; between two such calls none of them runs.
use Prim.Native.String.{◌++◌}
use tinymcp.Common.{
  Bool, true, false, List, [], ◌∷◌, map, Option, none, some, String, str_eq, Map, lookup, insert,
  remove, contains_key, if◌then◌else◌, Result, ok, err, unwrap_or,
}
use tinymcp.Common.Effects.{Effect, done, fail, of_result, gets, attempt, ◌>>=◌, ◌>>◌}
use tinymcp.Json.{Value}
use tinymcp.Error.{Error, malformed_response, server_disabled, not_connected}
use tinymcp.Registry.{
  InstalledServer, McpTool, Transport, stdio, http_remote, McpAuthConfig, anonymous,
}
use tinymcp.Transport.Wire.{
  Url, McpRemoteTool, McpServerToolResult, McpResource, McpResourceContents,
}
use tinymcp.Supervisor.{Duration, ProbeOutcome, alive, missing, broken, timed_out}
use tinymcp.Registry.Connections.{
  ActiveClient, Connection, ConnectFailure, Connections, InitializeResult, Surroundings,
}
use tinymcp.Oauth.Guard.{SocketAddr}
use tinymcp.Registry.Install.{validate_catalog_command}
use tinymcp.Registry.Connections.Status.{failure_of}
use tinymcp.Registry.Connections.Dial.{
  build_http_auth, spawn_env, credential_safe_dial_url, remote_timeout_secs,
}

abbrev pub insert_live : String → Connection → Connections → Connections
insert_live id connection c = record c { live = insert id connection c.live }

abbrev pub remove_live : String → Connections → Connections
remove_live id c = record c { live = remove id c.live }

abbrev pub insert_failure : String → ConnectFailure → Connections → Connections
insert_failure id failure c = record c { failures = insert id failure c.failures }

-- `clear_last_error`.
abbrev pub forget_failure : String → Connections → Connections
forget_failure id c = record c { failures = remove id c.failures }

abbrev pub to_tool : McpRemoteTool → McpTool
to_tool remote = record {
  name = remote.name;
  description = remote.description;
  input_schema = remote.input_schema;
  meta = remote.meta;
}

abbrev pub with_meta : Option Value → String → Map Value → Map Value
with_meta none name metas = metas
with_meta (some v) name metas = insert name v metas

-- The `_meta` of each tool that sent one; a later tool of the same name wins.
unfoldable pub metas_of : List McpRemoteTool → Map Value → Map Value
metas_of [] metas = metas
metas_of (remote ∷ l) metas = metas_of l (with_meta remote.meta remote.name metas)

abbrev pub is_https : Option Url → Bool
is_https none = false
is_https (some url) = str_eq url.scheme "https"

abbrev pub has_auth : McpAuthConfig → Bool
has_auth anonymous = false
has_auth _ = true

-- `is_ok_and`, `unwrap_or_default` and `initialized.ok().and_then(..)`.
abbrev pub sends_credential : Result (Map String) Error → Bool
sends_credential (ok env) = has_auth (build_http_auth env)
sends_credential (err e) = false

abbrev pub values_or_none : Result (Map String) Error → Map String
values_or_none (ok env) = env
values_or_none (err e) = []

abbrev pub instructions_of : Result InitializeResult Error → Option String
instructions_of (ok result) = result.instructions
instructions_of (err e) = none

unfoldable pub is_connected : String → Connections → Bool
is_connected id c = contains_key id c.live

module _ {W : Type 0} (env : Surroundings W) where
  abbrev pub Session : Type 0 → Type 0
  Session A = Effect (Connections × W) Error A

  open env use {store, transports, others, identity, proxy}

  -- A call to the store or a transport, and one that cannot fail; what a call of the sessions
  -- themselves changes.
  unfoldable pub ask : {A : Type 0} → Effect W Error A → Session A
  ask f s = ((f s.1).0, (others (f s.1).1 s.0, (f s.1).1))

  unfoldable pub tell : {A : Type 0} → (W → A × W) → Session A
  tell f s = (ok (f s.1).0, (others (f s.1).1 s.0, (f s.1).1))

  unfoldable pub modify : (Connections → Connections) → Session (Unit {0})
  modify f s = (ok tt, (f s.0, s.1))

  abbrev pub find : String → Session (Option Connection)
  find id = gets (λ s. lookup id s.0.live)

  -- The install's command is checked again when it came from a catalog.
  abbrev pub recheck : Bool → InstalledServer → Session (Unit {0})
  recheck catalog server =
      if catalog then of_result (validate_catalog_command server.command server.args) else done tt

  unfoldable pub dial_stdio : InstalledServer → Session ActiveClient
  dial_stdio server = do
    catalog ← ask (store.is_catalog_server server.server_id)
    recheck catalog server
    values ← attempt (ask (store.load_env_values server.server_id))
    client ← tell (
        transports.open_stdio server.command server.args (spawn_env (values_or_none values))
          identity)
    ask (transports.initialize client)
    done client

  -- The checked addresses of an endpoint that is to be pinned.
  abbrev pub public_addresses : Bool → String → Session (Option (List SocketAddr))
  public_addresses false url = done none
  public_addresses true url = do
    found ← ask (transports.guard_endpoint url "MCP")
    done (some found)

  abbrev pub dial_url : Option (List SocketAddr) → String → Session String
  dial_url (some addresses) url = done url
  dial_url none url = do
    resolved ← tell (transports.resolve_final_url url)
    done (credential_safe_dial_url transports.parse_url url (unwrap_or resolved url))

  abbrev pub open_remote : String → McpAuthConfig → Option (List SocketAddr) → Session ActiveClient
  open_remote url auth addresses = do
    client ← ask (
        transports.open_http (record {
          url = url;
          timeout_secs = remote_timeout_secs;
          auth = auth;
          identity = identity;
          proxy = proxy;
          addresses = addresses;
        }))
    ask (transports.initialize client)
    done client

  unfoldable pub dial_remote : InstalledServer → String → Session ActiveClient
  dial_remote server url =
      if str_eq url ""
      then fail (
          malformed_response
            ("the http-remote install `" ++ (server.server_id ++ "` has no endpoint")))
      else do
        attempt (ask (transports.refresh_if_expired server.server_id))
        values ← attempt (ask (store.load_env_values server.server_id))
        addresses ← public_addresses (is_https (transports.parse_url url)) url
        target ← dial_url addresses url
        open_remote target (build_http_auth (values_or_none values)) addresses

  abbrev pub dial : InstalledServer → Transport → Session ActiveClient
  dial server stdio = dial_stdio server
  dial server (http_remote url) = dial_remote server url

  unfoldable pub connect_inner : InstalledServer → Session (List McpTool)
  unfolding dial_stdio dial_remote
  connect_inner server = do
    client ← dial server server.transport
    remote_tools ← ask (transports.list_tools client)
    let tools = map to_tool remote_tools
    initialized ← attempt (ask (transports.initialize client))
    modify (
        insert_live server.server_id (record {
          client = client;
          tools = tools;
          tool_meta = metas_of remote_tools [];
          qualified_name = server.qualified_name;
          display_name = server.display_name;
          description = server.description;
          instructions = instructions_of initialized;
        }))
    attempt (ask (store.touch_last_connected server.server_id))
    attempt (ask (store.put_cached_tools server.server_id (transports.fingerprint server) tools))
    done tools

  abbrev pub close_removed : Option Connection → Session Bool
  close_removed none = done false
  close_removed (some connection) = do
    attempt (ask (transports.close_session connection.client))
    done true

  unfoldable pub disconnect : String → Session Bool
  disconnect id = do
    connection ← find id
    modify (λ c. forget_failure id (remove_live id c))
    close_removed connection

  -- Whether the install is still there and enabled once its session is up.
  abbrev pub confirm_current :
      List McpTool → InstalledServer → Result InstalledServer Error → Session (List McpTool)
  confirm_current tools server (ok current) =
      if current.enabled
      then done tools
      else do disconnect server.server_id; fail (server_disabled server.server_id)
  confirm_current tools server (err error) = do disconnect server.server_id; fail error

  abbrev pub confirm : InstalledServer → Result (List McpTool) Error → Session (List McpTool)
  confirm server (ok tools) = do
    current ← attempt (ask (store.get_server server.server_id))
    confirm_current tools server current
  confirm server (err error) = fail error

  abbrev pub record_outcome : InstalledServer → Result (List McpTool) Error → Session (List McpTool)
  record_outcome server (ok tools) = do modify (forget_failure server.server_id); done tools
  record_outcome server (err error) = do
    values ← attempt (ask (store.load_env_values server.server_id))
    modify (
        insert_failure server.server_id
          (failure_of error (transports.render error) (sends_credential values)))
    fail error

  unfoldable pub connect : InstalledServer → Session (List McpTool)
  connect server = do
    result ← attempt (connect_inner server)
    confirmed ← attempt (confirm server result)
    record_outcome server confirmed

  abbrev pub outcome_of :
      Duration → Option (Result (List McpRemoteTool) Error) × Duration → ProbeOutcome
  outcome_of timeout (some (ok tools), elapsed) = alive elapsed
  outcome_of timeout (some (err error), elapsed) = broken (transports.render error) elapsed
  outcome_of timeout (none, elapsed) = timed_out timeout

  abbrev pub probe_client :
      Duration → Option Connection → Connections × W → ProbeOutcome × (Connections × W)
  probe_client timeout none s = (missing, s)
  probe_client timeout (some connection) s =
      let (answer, w) = transports.list_tools_within timeout connection.client s.1 in
      (outcome_of timeout answer, (others w s.0, w))

  unfoldable pub probe_alive :
      String → Duration → Connections × W → ProbeOutcome × (Connections × W)
  probe_alive id timeout s = probe_client timeout (lookup id s.0.live) s

  abbrev pub close_each : List (String × Connection) → Session (Unit {0})
  close_each [] = done tt
  close_each ((id, connection) ∷ l) = do
    attempt (ask (transports.close_session connection.client))
    close_each l

  unfoldable pub disconnect_all : Session (Unit {0})
  disconnect_all = do
    drained ← gets (λ s. s.0.live)
    modify (λ c. record c { live = [] })
    close_each drained

  -- One connection, or the error.
  abbrev pub require_some : String → Option Connection → Session Connection
  require_some id none = fail (not_connected id)
  require_some id (some connection) = done connection

  unfoldable pub require : String → Session Connection
  require id = do connection ← find id; require_some id connection

  unfoldable pub call_tool : String → String → Value → Session McpServerToolResult
  unfolding require
  call_tool id name arguments = do
    connection ← require id
    ask (transports.call_tool connection.client name arguments)

  unfoldable pub list_resources : String → Session (List McpResource)
  unfolding require
  list_resources id = do connection ← require id; ask (transports.list_resources connection.client)

  unfoldable pub read_resource : String → String → Session (List McpResourceContents)
  unfolding require
  read_resource id uri = do
    connection ← require id
    ask (transports.read_resource connection.client uri)
