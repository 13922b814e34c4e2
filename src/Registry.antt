-- ===== src/Registry.antt =====
-- crates/tinymcp-bus/src/registry/types.rs: an install and the tools that its server offers, what a
-- catalog lists, and what the registry answers; with the credentials of
-- crates/tinymcp-bus/src/config/types.rs.
pub mod Connections
pub mod Install
pub mod Operations
pub mod Setup
pub mod Boot
pub mod Store
pub mod Curation
use tinymcp.Common.{ℕ, Bool, List, Option, none, some, String, if◌then◌else◌}
use tinymcp.Common.Int.{ℤ}
use tinymcp.Json.{Value, Members}

pub data CommandKind : Type 0 where
  node python binary : CommandKind

pub data Transport : Type 0 where
  stdio : Transport
  http_remote : String → Transport

abbrev pub dispatch_kind : Transport → String
dispatch_kind stdio = "stdio"
dispatch_kind (http_remote _) = "http_remote"

abbrev pub deployment_url : Transport → Option String
deployment_url stdio = none
deployment_url (http_remote url) = some url

pub record InstalledServer : Type 0 where
  pub server_id : String
  pub qualified_name : String
  pub display_name : String
  pub description : Option String
  pub icon_url : Option String
  pub command_kind : CommandKind
  pub command : String
  pub args : List String
  pub env_keys : List String
  pub config : Option Value
  pub installed_at : ℤ
  pub last_connected_at : Option ℤ
  pub transport : Transport
  pub enabled : Bool

pub record McpTool : Type 0 where
  pub name : String
  pub description : Option String
  pub input_schema : Value
  pub meta : Option Value

pub data McpAuthHint : Type 0 where
  oauth_required token_rejected credential_required : McpAuthHint

-- `McpAuthHint::classify`.
abbrev pub hint_of : Bool → Bool → McpAuthHint
hint_of oauth_advertised has_credential =
    if oauth_advertised
    then oauth_required
    else (if has_credential then token_rejected else credential_required)

pub data ServerStatus : Type 0 where
  disconnected connecting connected unauthorized error disabled : ServerStatus

pub record ConnStatus : Type 0 where
  pub server_id : String
  pub qualified_name : String
  pub display_name : String
  pub status : ServerStatus
  pub tool_count : ℕ
  pub last_error : Option String
  pub auth_hint : Option McpAuthHint

pub record ConnectedServerOverview : Type 0 where
  pub server_id : String
  pub qualified_name : String
  pub display_name : String
  pub description : Option String
  pub instructions : Option String
  pub tools : List McpTool

pub record HttpHeader : Type 0 where
  pub name : String
  pub value : String

pub data McpAuthConfig : Type 0 where
  anonymous : McpAuthConfig
  bearer_token : String → McpAuthConfig
  basic : String → String → McpAuthConfig
  header : String → String → McpAuthConfig
  headers : List HttpHeader → McpAuthConfig

pub record RegistryConnection : Type 0 where
  pub kind : String
  pub deployment_url : Option String
  pub config_schema : Option Value
  pub example_config : Option Value
  pub published : Bool
  pub extra : Members

pub record RegistryServerDetail : Type 0 where
  pub qualified_name : String
  pub display_name : String
  pub description : Option String
  pub icon_url : Option String
  pub connections : List RegistryConnection
  pub source : String
  pub extra : Members

pub record RegistryServerSummary : Type 0 where
  pub qualified_name : String
  pub display_name : String
  pub description : Option String
  pub icon_url : Option String
  pub use_count : ℕ
  pub is_deployed : Bool
  pub source : String
  pub official : Bool
  pub website_url : Option String
  pub auth_kind : Option String
  pub extra : Members
