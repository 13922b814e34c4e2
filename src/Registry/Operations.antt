-- ===== src/Registry/Operations.antt =====
-- crates/tinymcp/src/registry/ops/types.rs: what a host can ask of the registry, over the store, the
-- catalogs and the live sessions.
pub mod Changing
pub mod Calls
pub mod Setup
pub mod Testing
pub mod Overview
pub mod Refusals
pub mod Refreshing
pub mod Installing
pub mod Switching
pub mod Stored
pub mod OffRows
pub mod KeptSecrets
pub mod Credentials
use Prim.Native.Char.{Char, code}
use Prim.Native.String.{◌++◌, char_at}
use tinymcp.Common.{
  ℕ, Bool, true, false, ◌&&◌, not, List, [], ◌∷◌, map, Option, none, some, String, str_eq, Map,
  lookup, insert, remove, if◌then◌else◌, ◌==◌, is_some, Result, ok, err, unwrap_or, map_err,
}
use tinymcp.Common.Int.{ℤ}
use tinymcp.Common.Chars.{chars, text_of, trim}
use tinymcp.Common.Slices.{is_char}
use tinymcp.Common.Ordered.{extend, key_names, texts_eq, sort_by}
use tinymcp.Common.Effects.{Effect, done, fail, of_result, gets, always, attempt, ◌>>=◌, ◌>>◌}
use tinymcp.Json.{Value, Members, object, Codec}
use tinymcp.Error.{
  Error, unknown_server, malformed_response, server_disabled, not_connected, invalid_arguments,
}
use tinymcp.AgentTools.Arguments.{normalize_tool_arguments}
use tinymcp.Transport.Wire.{McpServerToolResult, McpToolResult, McpResourceContents, Url}
use tinymcp.Oauth.Guard.{IpAddr}
use tinymcp.Registry.{
  InstalledServer, McpTool, McpAuthHint, ConnectedServerOverview, ConnStatus, RegistryServerDetail,
}
use tinymcp.Registry.Install.{
  Launch, pick_connection, build_install_transport, collect_required_env_keys,
}
use tinymcp.Registry.Connections.{Connections, Surroundings}
use tinymcp.Registry.Connections.Sessions
use tinymcp.Registry.Connections.Sessions.{Session, ask, tell, modify, forget_failure}
use tinymcp.Registry.Connections.Views.{connected_overview, tools_for, auth_hint, all_status}

pub record InstallOutcome : Type 0 where
  pub server : InstalledServer
  pub already_installed : Bool

pub record ConnectOutcome : Type 0 where
  pub server_id : String
  pub tools : List McpTool

pub data UpdateEnvStatus : Type 0 where
  connected disabled unauthorized disconnected : UpdateEnvStatus

pub record UpdateEnvOutcome : Type 0 where
  pub server_id : String
  pub status : UpdateEnvStatus
  pub env_keys : List String
  pub tools : List McpTool
  pub auth_hint : Option McpAuthHint
  pub error : Option String

pub record ToolCallOutcome : Type 0 where
  pub result : Value
  pub is_error : Bool
  pub rendered : McpToolResult

-- `From<McpServerToolResult>`.
abbrev pub tool_outcome : McpServerToolResult → ToolCallOutcome
tool_outcome result = record {
  result = result.raw_result;
  is_error = result.rendered.is_error;
  rendered = result.rendered;
}

-- What the registry calls of the store besides the sessions, of the catalogs and of the clock.
pub record Registry (W : Type 0) : Type 0 where
  pub find_server_by_qualified_name : String → Effect W Error (Option InstalledServer)
  pub insert_catalog_server_if_absent : InstalledServer → Effect W Error Bool
  pub delete_server : String → Effect W Error Bool
  pub update_enabled : String → Bool → Effect W Error (Unit {0})
  pub update_env_keys : String → List String → Effect W Error (Unit {0})
  pub update_config : String → Value → Effect W Error (Unit {0})
  pub set_env_values : String → Map String → Effect W Error (Unit {0})
  pub forget_cached_tools : String → Effect W Error Bool
  pub cached_tools : String → String → Effect W Error (Option (List McpTool))
  pub detail : String → String → Effect W Error RegistryServerDetail
  pub oauth_complete : String → String → Effect W Error String
  pub new_id : W → String × W
  pub now_ms : W → ℤ × W
  pub parse_ip : String → Option IpAddr
  pub codec : Codec

-- `SOURCE_SEPARATOR`, by which a name is split once; the source without one is `mcp_official`.
unfoldable pub split_source : List Char → List Char → Option (List Char × List Char)
split_source seen [] = none
split_source seen (c ∷ []) = none
split_source seen (c ∷ d ∷ l) =
    let rest = split_source (c ∷ seen) (d ∷ l) in
    if is_char (char_at ":" 0) c && is_char (char_at ":" 0) d then some (seen, l) else rest

abbrev pub backwards : List Char → List Char → List Char
backwards [] l = l
backwards (c ∷ seen) l = backwards seen (c ∷ l)

abbrev pub routed : String → Option (List Char × List Char) → String × String
routed name none = ("mcp_official", name)
routed name (some (seen, l)) = (text_of (backwards seen []), text_of l)

unfoldable pub split_routing_name : String → String × String
unfolding split_source
split_routing_name name = routed name (split_source [] (chars name))

unfoldable pub require_non_empty : String → String → Result String Error
require_non_empty value field =
    if str_eq (trim value) ""
    then err (unknown_server ("<blank " ++ (field ++ ">")))
    else ok (trim value)

abbrev pub texts_changed : Map String → Map String → Bool
texts_changed merged [] = false
texts_changed merged ((name, value) ∷ env) = elim (lookup name merged) [
  | none ↦ true
  | some old ↦ if str_eq old value then texts_changed merged env else true
]

abbrev pub is_empty_map : Map String → Bool
is_empty_map [] = true
is_empty_map (x ∷ env) = false

abbrev pub or_fail : {S A : Type 0} → Error → Option A → Effect S Error A
or_fail e none = fail e
or_fail e (some a) = done a

module _ {W : Type 0} (env : Surroundings W) (registry : Registry W) where
  open registry use {
    find_server_by_qualified_name, insert_catalog_server_if_absent, delete_server, update_enabled,
    update_env_keys, update_config, set_env_values, forget_cached_tools, cached_tools, detail,
    new_id, now_ms, parse_ip, codec,
  }

  abbrev pub with_keys : List String → InstalledServer → InstalledServer
  with_keys names server = record server { env_keys = names }

  -- The recorded names follow the stored credentials.
  abbrev pub refresh_keys : String → List String → InstalledServer → Session env InstalledServer
  refresh_keys id names server =
      if texts_eq server.env_keys names
      then done server
      else do ask env (update_env_keys id names); done (with_keys names server)

  abbrev pub forget_if : Bool → String → Session env (Unit {0})
  forget_if false id = done tt
  forget_if true id = do ask env (forget_cached_tools id); done tt

  abbrev pub merge_env : Bool → Map String → InstalledServer → Session env InstalledServer
  merge_env true values existing = done existing
  merge_env false values existing = do
    stored ← ask env (env.store.load_env_values existing.server_id)
    ask env (set_env_values existing.server_id (extend stored values))
    forget_if (texts_changed stored values) existing.server_id
    refresh_keys existing.server_id (key_names (extend stored values)) existing

  abbrev pub merge_config : Option Value → InstalledServer → Session env InstalledServer
  merge_config none existing = done existing
  merge_config (some config) existing = do
    ask env (update_config existing.server_id config)
    done (record existing { config = some config })

  unfoldable pub refresh_install :
      InstalledServer → Map String → Option Value → Session env InstallOutcome
  refresh_install existing values config = do
    merged ← merge_env (is_empty_map values) values existing
    server ← merge_config config merged
    done (record { server = server; already_installed = true })

  -- The record of a fresh install.
  abbrev pub fresh_server :
      String
      → String
      → ℤ
      → Map String
      → Option Value
      → RegistryServerDetail
      → Launch
      → InstalledServer
  fresh_server id name now values config found launch = record {
    server_id = id;
    qualified_name = name;
    display_name = found.display_name;
    description = found.description;
    icon_url = found.icon_url;
    command_kind = launch.command_kind;
    command = launch.command;
    args = launch.args;
    env_keys = key_names values;
    config = config;
    installed_at = now;
    last_connected_at = none;
    transport = launch.transport;
    enabled = true;
  }

  -- The insert won, or the record that won the race is refreshed.
  abbrev pub after_insert :
      Bool → String → Map String → Option Value → InstalledServer → Session env InstallOutcome
  after_insert true name values config server = do
    ask env (set_env_values server.server_id values)
    done (record { server = server; already_installed = false })
  after_insert false name values config server = do
    found ← ask env (find_server_by_qualified_name name)
    winner ←
        or_fail (malformed_response "an install lost a race but the winning record is gone") found
    refresh_install winner values server.config

  abbrev pub install_new : String → String → Map String → Option Value → Session env InstallOutcome
  install_new source name values config = do
    found ← ask env (detail source name)
    picked ←
        or_fail
          (malformed_response (
            "`"
            ++ (name
                ++ "` offers neither a hosted endpoint nor a package; there is nothing to install")))
          (pick_connection found.connections)
    launch ← of_result (build_install_transport env.transports.parse_url parse_ip name picked)
    id ← tell env new_id
    now ← tell env now_ms
    let server = fresh_server id name now values config found launch
    inserted ← ask env (insert_catalog_server_if_absent server)
    after_insert inserted name values config server

  abbrev pub install_named :
      String
      → String
      → Map String
      → Option Value
      → Option InstalledServer
      → Session env InstallOutcome
  install_named source name values config (some existing) = refresh_install existing values config
  install_named source name values config none = install_new source name values config

  unfoldable pub install : String → Map String → Option Value → Session env InstallOutcome
  unfolding refresh_install
  install qualified_name values config = do
    name ← of_result (require_non_empty qualified_name "qualified_name")
    let (source, canonical) = split_routing_name name
    existing ← ask env (find_server_by_qualified_name canonical)
    install_named source canonical values config existing
