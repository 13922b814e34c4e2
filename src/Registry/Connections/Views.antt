-- ===== src/Registry/Connections/Views.antt =====
-- crates/tinymcp/src/registry/connections/types.rs: what the sessions tell without a call to a server.
use tinymcp.Common.{
  ℕ, min, Bool, List, [], ◌∷◌, ◌++◌, map, Option, none, some, String, Map, lookup, length, is_some,
  u32_max,
}
use tinymcp.Common.Effects.{gets, done, ◌>>=◌}
use tinymcp.Common.Options
use tinymcp.Common.Ordered.{sort_by}
use tinymcp.Json.{Value}
use tinymcp.Registry.{InstalledServer, McpTool, McpAuthHint, ConnStatus, ConnectedServerOverview}
use tinymcp.Registry.Connections.{Connection, Connections, Surroundings}
use tinymcp.Registry.Connections.Status.{classify}
use tinymcp.Registry.Connections.Sessions.{Session, ask}

-- The number of tools of a session, as a `u32`.
abbrev pub tool_count : Option Connection → Option ℕ
tool_count none = none
tool_count (some connection) = some (min (length connection.tools) u32_max)

abbrev pub status_of : Connections → InstalledServer → ConnStatus
status_of c server =
    let standing =
      classify server.enabled (tool_count (lookup server.server_id c.live))
        (lookup server.server_id c.failures) in
    record {
      server_id = server.server_id;
      qualified_name = server.qualified_name;
      display_name = server.display_name;
      status = standing.status;
      tool_count = standing.tool_count;
      last_error = standing.last_error;
      auth_hint = standing.auth_hint;
    }

unfoldable pub all_status : {W : Type 0} (env : Surroundings W) → Session env (List ConnStatus)
unfolding classify
all_status env = do
  installed ← ask env env.store.list_servers
  sessions ← gets (λ s. s.0)
  done (map (status_of sessions) installed)

unfoldable pub tools_for : String → Connections → Option (List McpTool)
tools_for id c = Options.◌>>=◌ (lookup id c.live) (λ connection. some connection.tools)

unfoldable pub tool_meta : String → String → Connections → Option Value
tool_meta id tool c =
    Options.◌>>=◌ (lookup id c.live) (λ connection. lookup tool connection.tool_meta)

unfoldable pub tool_metas : String → Connections → Option (Map Value)
tool_metas id c = Options.◌>>=◌ (lookup id c.live) (λ connection. some connection.tool_meta)

abbrev pub overview_of : String × Connection → ConnectedServerOverview
overview_of (id, connection) = record {
  server_id = id;
  qualified_name = connection.qualified_name;
  display_name = connection.display_name;
  description = connection.description;
  instructions = connection.instructions;
  tools = connection.tools;
}

unfoldable pub connected_overview : Connections → List ConnectedServerOverview
unfolding sort_by
connected_overview c = sort_by (λ overview. overview.qualified_name) (map overview_of c.live)

abbrev pub with_server : ConnectedServerOverview → McpTool → String × String × McpTool
with_server overview tool = (overview.server_id, overview.qualified_name, tool)

abbrev pub flat_tools : List ConnectedServerOverview → List (String × String × McpTool)
flat_tools [] = []
flat_tools (overview ∷ l) = map (with_server overview) overview.tools ++ flat_tools l

unfoldable pub all_connected_tools : Connections → List (String × String × McpTool)
unfolding connected_overview
all_connected_tools c = flat_tools (connected_overview c)

unfoldable pub last_error : String → Connections → Option String
last_error id c = Options.◌>>=◌ (lookup id c.failures) (λ failure. some failure.message)

unfoldable pub auth_hint : String → Connections → Option McpAuthHint
auth_hint id c = Options.◌>>=◌ (lookup id c.failures) (λ failure. failure.auth)

unfoldable pub needs_auth : String → Connections → Bool
unfolding auth_hint
needs_auth id c = is_some (auth_hint id c)

unfoldable pub connected_count : Connections → ℕ
connected_count c = length c.live
