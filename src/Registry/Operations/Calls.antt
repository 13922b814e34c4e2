-- ===== src/Registry/Operations/Calls.antt =====
-- crates/tinymcp/src/registry/ops/types.rs: connecting and disconnecting, what is shown, and calls of
-- tools and resources.
use Prim.Native.Char.{code}
use tinymcp.Common.{Bool, not, List, [], some, String, if◌then◌else◌, Result, ok, err, map_err}
use tinymcp.Common.Effects.{done, fail, of_result, gets, attempt, ◌>>=◌, ◌>>◌}
use tinymcp.Json.{Value, object}
use tinymcp.Error.{Error, server_disabled, not_connected, invalid_arguments}
use tinymcp.AgentTools.Arguments.{normalize_tool_arguments}
use tinymcp.Transport.Wire.{McpResourceContents}
use tinymcp.Registry.{InstalledServer, McpTool, ConnStatus, RegistryServerDetail}
use tinymcp.Registry.Install.{collect_required_env_keys}
use tinymcp.Registry.Connections.{Surroundings}
use tinymcp.Registry.Connections.Sessions
use tinymcp.Registry.Connections.Sessions.{Session, ask, tell, modify, forget_failure}
use tinymcp.Registry.Connections.Views.{tools_for, all_status}
use tinymcp.Registry.Operations.{
  Registry, require_non_empty, split_routing_name, or_fail, ToolCallOutcome, tool_outcome,
  ConnectOutcome,
}

module _ {W : Type 0} (env : Surroundings W) (registry : Registry W) where
  open registry use {
    find_server_by_qualified_name, insert_catalog_server_if_absent, delete_server, update_enabled,
    update_env_keys, update_config, set_env_values, forget_cached_tools, cached_tools, detail,
    new_id, now_ms, parse_ip, codec,
  }

  abbrev pub connect_enabled : String → InstalledServer → Session env ConnectOutcome
  connect_enabled id server =
      if not server.enabled
      then fail (server_disabled id)
      else (do tools ← Sessions.connect env server; done (record { server_id = id; tools = tools }))

  unfoldable pub connect : String → Session env ConnectOutcome
  connect server_id = do
    id ← of_result (require_non_empty server_id "server_id")
    server ← ask env (env.store.get_server id)
    connect_enabled id server

  unfoldable pub disconnect : String → Session env Bool
  disconnect server_id = do
    id ← of_result (require_non_empty server_id "server_id")
    Sessions.disconnect env id

  unfoldable pub status : Session env (List ConnStatus)
  unfolding all_status
  status = all_status env

  -- The server stays signed in when it cannot be connected.
  abbrev pub connected_or_none : String → Result ConnectOutcome Error → Session env ConnectOutcome
  connected_or_none id (ok outcome) = done outcome
  connected_or_none id (err error) = done (record { server_id = id; tools = [] })

  unfoldable pub oauth_complete : String → String → Session env ConnectOutcome
  unfolding connect
  oauth_complete state code = do
    id ← ask env (registry.oauth_complete state code)
    ask env (forget_cached_tools id)
    result ← attempt (connect id)
    connected_or_none id result

  unfoldable pub list_tools : String → Session env (List McpTool)
  list_tools server_id = do
    id ← of_result (require_non_empty server_id "server_id")
    tools ← gets (λ s. tools_for id s.0)
    or_fail (not_connected id) tools

  unfoldable pub tool_call : String → String → Value → Session env ToolCallOutcome
  tool_call server_id tool_name arguments = do
    id ← of_result (require_non_empty server_id "server_id")
    name ← of_result (require_non_empty tool_name "tool_name")
    members ←
        of_result
          (map_err (invalid_arguments name) (normalize_tool_arguments codec (some arguments)))
    result ← Sessions.call_tool env id name (object members)
    done (tool_outcome result)

  unfoldable pub read_resource : String → String → Session env (List McpResourceContents)
  read_resource server_id uri = do
    id ← of_result (require_non_empty server_id "server_id")
    Sessions.read_resource env id uri

  unfoldable pub registry_get : String → Session env (RegistryServerDetail × List String)
  unfolding collect_required_env_keys
  registry_get qualified_name = do
    name ← of_result (require_non_empty qualified_name "qualified_name")
    let (source, canonical) = split_routing_name name
    found ← ask env (detail source canonical)
    done (found, collect_required_env_keys found)
