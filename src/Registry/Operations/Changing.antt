-- ===== src/Registry/Operations/Changing.antt =====
-- crates/tinymcp/src/registry/ops/types.rs: removing an install, turning it on and off, and replacing
-- its credentials.
use tinymcp.Common.{
  Bool, true, false, not, List, [], Option, none, some, String, Map, if◌then◌else◌, Result, ok, err,
}
use tinymcp.Common.Ordered.{extend, key_names}
use tinymcp.Common.Effects.{done, of_result, gets, attempt, ◌>>=◌, ◌>>◌}
use tinymcp.Error.{Error}
use tinymcp.Registry.{InstalledServer, McpTool, McpAuthHint}
use tinymcp.Registry.Connections.{Surroundings}
use tinymcp.Registry.Connections.Sessions
use tinymcp.Registry.Connections.Sessions.{Session, ask, tell, modify, forget_failure}
use tinymcp.Registry.Connections.Views.{auth_hint}
use tinymcp.Registry.Operations.{
  unauthorized, connected, disconnected, disabled, Registry, require_non_empty, refresh_keys,
  UpdateEnvOutcome, UpdateEnvStatus,
}

module _ {W : Type 0} (env : Surroundings W) (registry : Registry W) where
  open registry use {
    find_server_by_qualified_name, insert_catalog_server_if_absent, delete_server, update_enabled,
    update_env_keys, update_config, set_env_values, forget_cached_tools, cached_tools, detail,
    new_id, now_ms, parse_ip, codec,
  }

  unfoldable pub uninstall : String → Session env Bool
  uninstall server_id = do
    id ← of_result (require_non_empty server_id "server_id")
    Sessions.disconnect env id
    ask env (delete_server id)

  abbrev pub switch_off : Bool → String → Session env (Unit {0})
  switch_off true id = done tt
  switch_off false id = do
    Sessions.disconnect env id
    modify env (forget_failure id)
    ask env (forget_cached_tools id)
    done tt

  unfoldable pub set_enabled : String → Bool → Session env (Unit {0})
  set_enabled server_id enabled = do
    id ← of_result (require_non_empty server_id "server_id")
    ask env (env.store.get_server id)
    ask env (update_enabled id enabled)
    switch_off enabled id

  abbrev pub status_after : Option McpAuthHint → UpdateEnvStatus
  status_after (some hint) = unauthorized
  status_after none = disconnected

  abbrev pub error_after : Option McpAuthHint → String → Option String
  error_after (some hint) message = none
  error_after none message = some message

  -- What an attempt to reconnect is reported as.
  abbrev pub reconnect_outcome :
      String → InstalledServer → Result (List McpTool) Error → Session env UpdateEnvOutcome
  reconnect_outcome id server (ok tools) = done (record {
    server_id = id;
    status = connected;
    env_keys = server.env_keys;
    tools = tools;
    auth_hint = none;
    error = none;
  })
  reconnect_outcome id server (err error) = do
    hint ← gets (λ s. auth_hint id s.0)
    done (record {
      server_id = id;
      status = status_after hint;
      env_keys = server.env_keys;
      tools = [];
      auth_hint = hint;
      error = error_after hint (env.transports.render error);
    })

  abbrev pub reconnect : String → InstalledServer → Session env UpdateEnvOutcome
  reconnect id server =
      if not server.enabled
      then done (record {
        server_id = id;
        status = disabled;
        env_keys = server.env_keys;
        tools = [];
        auth_hint = none;
        error = none;
      })
      else do result ← attempt (Sessions.connect env server); reconnect_outcome id server result

  abbrev pub update_env_for : Map String → String → Session env UpdateEnvOutcome
  update_env_for values id = do
    stored ← ask env (env.store.load_env_values id)
    ask env (set_env_values id (extend stored values))
    ask env (forget_cached_tools id)
    Sessions.disconnect env id
    found ← ask env (env.store.get_server id)
    server ← refresh_keys env registry id (key_names (extend stored values)) found
    reconnect id server

  unfoldable pub update_env : String → Map String → Session env UpdateEnvOutcome
  update_env server_id values = do
    id ← of_result (require_non_empty server_id "server_id")
    update_env_for values id
