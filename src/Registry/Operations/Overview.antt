-- ===== src/Registry/Operations/Overview.antt =====
-- crates/tinymcp/src/registry/ops/types.rs: the tools of every enabled install, live or cached.
use tinymcp.Common.{
  true, false, List, [], ◌∷◌, ◌++◌, Option, none, some, Map, lookup, insert, remove, Result, ok,
  err,
}
use tinymcp.Common.Ordered.{sort_by}
use tinymcp.Common.Effects.{done, gets, attempt, ◌>>=◌}
use tinymcp.Error.{Error}
use tinymcp.Registry.{InstalledServer, McpTool, ConnectedServerOverview}
use tinymcp.Registry.Connections.{Surroundings}
use tinymcp.Registry.Connections.Sessions.{Session, ask}
use tinymcp.Registry.Connections.Views.{connected_overview}
use tinymcp.Registry.Operations.{Registry}

module _ {W : Type 0} (env : Surroundings W) (registry : Registry W) where
  -- A listed install: its session's overview, or what is cached for its definition.
  abbrev pub cached_part :
      InstalledServer → Result (Option (List McpTool)) Error → List ConnectedServerOverview
  cached_part server (ok (some tools)) =
      record {
        server_id = server.server_id;
        qualified_name = server.qualified_name;
        display_name = server.display_name;
        description = server.description;
        instructions = none;
        tools = tools;
      }
      ∷ []
  cached_part server (ok none) = []
  cached_part server (err e) = []

  abbrev pub by_id :
      List ConnectedServerOverview → Map ConnectedServerOverview → Map ConnectedServerOverview
  by_id [] live = live
  by_id (o ∷ l) live = by_id l (insert o.server_id o live)

  cached_each :
      List InstalledServer
      → Map ConnectedServerOverview
      → List ConnectedServerOverview
      → Session env (List ConnectedServerOverview)
  cached_each [] live parts = done parts
  cached_each (server ∷ servers) live parts = elim server.enabled [
    | false ↦ cached_each servers live parts
    | true ↦ elim (lookup server.server_id live) [
      | some o ↦ cached_each servers (remove server.server_id live) (parts ++ o ∷ [])
      | none ↦ (do
        cached ←
            attempt
              (ask env (registry.cached_tools server.server_id (env.transports.fingerprint server)))
        cached_each servers live (parts ++ cached_part server cached))
    ]
  ]

  unfoldable pub cached_overview : Session env (List ConnectedServerOverview)
  unfolding cached_each connected_overview
  cached_overview = do
    live ← gets (λ s. by_id (connected_overview s.0) [])
    servers ← ask env env.store.list_servers
    parts ← cached_each servers live []
    done (sort_by (λ o. o.qualified_name) parts)
