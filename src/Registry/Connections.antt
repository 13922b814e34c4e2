-- ===== src/Registry/Connections.antt =====
-- crates/tinymcp/src/registry/connections: the live sessions of the installed servers, and why the
-- others have none. This file holds the data, and what the sessions need of their surroundings.
pub mod Status
pub mod Dial
pub mod Sessions
pub mod Entries
pub mod Outcome
pub mod Supervised
pub mod Worlds
pub mod Listing
pub mod Views
pub mod Credentials
pub mod Dialling
use tinymcp.Common.{ℕ, Bool, List, [], Option, String, Map, Result}
use tinymcp.Common.Effects.{Effect}
use tinymcp.Json.{Value}
use tinymcp.Error.{Error}
use tinymcp.Registry.{InstalledServer, McpTool, McpAuthHint, McpAuthConfig}
use tinymcp.Oauth.Guard.{SocketAddr}
use tinymcp.Transport.Wire.{
  Url, McpRemoteTool, McpServerToolResult, McpResource, McpResourceContents,
}
use tinymcp.Supervisor.{Duration, McpClientIdentityConfig, McpProxyConfig}

-- A client is known by the number of its transport.
pub data ActiveClient : Type 0 where
  stdio_client : ℕ → ActiveClient
  http_client : ℕ → ActiveClient

pub record Connection : Type 0 where
  pub client : ActiveClient
  pub tools : List McpTool
  pub tool_meta : Map Value
  pub qualified_name : String
  pub display_name : String
  pub description : Option String
  pub instructions : Option String

pub record ConnectFailure : Type 0 where
  pub message : String
  pub auth : Option McpAuthHint

pub record Connections : Type 0 where
  pub live : Map Connection
  pub failures : Map ConnectFailure

unfoldable pub new : Connections
new = record { live = []; failures = [] }

-- What the sessions call of the store. Each call may change the world.
pub record SessionStore (W : Type 0) : Type 0 where
  pub get_server : String → Effect W Error InstalledServer
  pub list_servers : Effect W Error (List InstalledServer)
  pub is_catalog_server : String → Effect W Error Bool
  pub load_env_values : String → Effect W Error (Map String)
  pub touch_last_connected : String → Effect W Error (Unit {0})
  pub put_cached_tools : String → String → List McpTool → Effect W Error (Unit {0})

-- How an HTTP client is built: `addresses` pins a public endpoint.
pub record HttpDial : Type 0 where
  pub url : String
  pub timeout_secs : ℕ
  pub auth : McpAuthConfig
  pub identity : McpClientIdentityConfig
  pub proxy : Option McpProxyConfig
  pub addresses : Option (List SocketAddr)

pub record InitializeResult : Type 0 where
  pub instructions : Option String

-- The two transports, and the calls over the network around them. `open_stdio` starts a server that
-- the operator does not vouch for. `list_tools_within` is `list_tools` under a timeout, with the time
-- that it took: nothing when the time ran out.
pub record Transports (W : Type 0) : Type 0 where
  pub open_stdio :
      String → List String → Map String → McpClientIdentityConfig → W → ActiveClient × W
  pub open_http : HttpDial → Effect W Error ActiveClient
  pub initialize : ActiveClient → Effect W Error InitializeResult
  pub list_tools : ActiveClient → Effect W Error (List McpRemoteTool)
  pub list_tools_within :
      Duration → ActiveClient → W → (Option (Result (List McpRemoteTool) Error) × Duration) × W
  pub call_tool : ActiveClient → String → Value → Effect W Error McpServerToolResult
  pub list_resources : ActiveClient → Effect W Error (List McpResource)
  pub read_resource : ActiveClient → String → Effect W Error (List McpResourceContents)
  pub close_session : ActiveClient → Effect W Error (Unit {0})
  pub refresh_if_expired : String → Effect W Error (Unit {0})
  pub guard_endpoint : String → String → Effect W Error (List SocketAddr)
  pub resolve_final_url : String → W → Option String × W
  pub parse_url : String → Option Url
  pub fingerprint : InstalledServer → String
  pub render : Error → String

-- `others` is what the other tasks did to the sessions by the time a call came back.
pub record Surroundings (W : Type 0) : Type 0 where
  pub store : SessionStore W
  pub transports : Transports W
  pub others : W → Connections → Connections
  pub identity : McpClientIdentityConfig
  pub proxy : Option McpProxyConfig
