-- ===== src/Registry/Connections/Worlds.antt =====
-- crates/tinymcp/src/registry/connections/types.rs: what the sessions leave of the world around them.
use tinymcp.Common.{Bool, true, false, List, Option, none, some, String, Map, Result, ok, err}
use tinymcp.Common.Effects.{Effect, Keeps, keeps_rules}
use tinymcp.Error.{Error}
use tinymcp.Oauth.Guard.{SocketAddr}
use tinymcp.Registry.{InstalledServer, McpTool, Transport, stdio, http_remote}
use tinymcp.Supervisor.{McpClientIdentityConfig}
use tinymcp.Registry.Connections.{ActiveClient, Connection, Connections, HttpDial, Surroundings}
use tinymcp.Registry.Connections.Sessions.{
  ask, tell, modify, dial, dial_stdio, dial_remote, public_addresses, dial_url, close_removed,
  connect_inner, disconnect, connect, confirm, confirm_current, record_outcome,
}

-- Every call that the sessions make keeps `P`.
pub record KeptBy {W : Type 0} (P : W → Type 0) (env : Surroundings W) : Type 0 where
  pub get_server : (id : String) → Keeps P (env.store.get_server id)
  pub is_catalog_server : (id : String) → Keeps P (env.store.is_catalog_server id)
  pub load_env_values : (id : String) → Keeps P (env.store.load_env_values id)
  pub touch_last_connected : (id : String) → Keeps P (env.store.touch_last_connected id)
  pub put_cached_tools :
      (id print : String) (tools : List McpTool)
      → Keeps P (env.store.put_cached_tools id print tools)
  pub open_stdio :
      (command : String) (args : List String) (values : Map String)
      (identity : McpClientIdentityConfig) (w : W)
      → P w
      → P (env.transports.open_stdio command args values identity w).1
  pub open_http : (dial : HttpDial) → Keeps P (env.transports.open_http dial)
  pub initialize : (client : ActiveClient) → Keeps P (env.transports.initialize client)
  pub list_tools : (client : ActiveClient) → Keeps P (env.transports.list_tools client)
  pub close_session : (client : ActiveClient) → Keeps P (env.transports.close_session client)
  pub refresh_if_expired : (id : String) → Keeps P (env.transports.refresh_if_expired id)
  pub guard_endpoint : (url what : String) → Keeps P (env.transports.guard_endpoint url what)
  pub resolve_final_url :
      (url : String) (w : W) → P w → P (env.transports.resolve_final_url url w).1

module _ {W : Type 0} (P : W → Type 0) (env : Surroundings W) where
  abbrev pub Around : Connections × W → Type 0
  Around s = P s.1

  pub Around-ask : {A : Type 0} (f : Effect W Error A) → Keeps P f → Keeps Around (ask env f)
  unfolding ask
  Around-ask f k = record { at = λ s p. k.at s.1 p }

  pub Around-tell :
      {A : Type 0} (f : W → A × W) → ((w : W) → P w → P (f w).1) → Keeps Around (tell env f)
  unfolding tell
  Around-tell f k = record { at = λ s p. k s.1 p }

  pub Around-modify : (f : Connections → Connections) → Keeps Around (modify env f)
  unfolding modify
  Around-modify f = record { at = λ s p. p }

ruleset around_rules = (keeps_rules, Around-ask, Around-tell, Around-modify)

module _ {W : Type 0} (P : W → Type 0) (env : Surroundings W) (kept : KeptBy P env) where
  close_removed-Around : (o : Option Connection) → Keeps (Around P env) (close_removed env o)
  close_removed-Around none = search (around_rules) depth 16
  close_removed-Around (some c) = search (around_rules, kept.close_session) depth 16

  pub disconnect-Around : (id : String) → Keeps (Around P env) (disconnect env id)
  unfolding disconnect
  disconnect-Around id = search (around_rules, close_removed-Around) depth 16

module _ {W : Type 0} (P : W → Type 0) (env : Surroundings W) (kept : KeptBy P env)
    (server : InstalledServer) where
  dial_stdio-Around : Keeps (Around P env) (dial_stdio env server)
  unfolding dial_stdio
  dial_stdio-Around =
      search
        (
          around_rules, kept.is_catalog_server, kept.load_env_values, kept.open_stdio,
          kept.initialize,
        )
        depth 20

  public_addresses-Around :
      (https : Bool) (url : String) → Keeps (Around P env) (public_addresses env https url)
  public_addresses-Around true url = search (around_rules, kept.guard_endpoint) depth 16
  public_addresses-Around false url = search (around_rules) depth 16

  dial_url-Around :
      (addresses : Option (List SocketAddr)) (url : String)
      → Keeps (Around P env) (dial_url env addresses url)
  dial_url-Around none url = search (around_rules, kept.resolve_final_url) depth 16
  dial_url-Around (some a) url = search (around_rules) depth 16

  dial_remote-Around : (url : String) → Keeps (Around P env) (dial_remote env server url)
  unfolding dial_remote
  dial_remote-Around url =
      search
        (
          around_rules, public_addresses-Around, dial_url-Around, kept.refresh_if_expired,
          kept.load_env_values, kept.open_http, kept.initialize,
        )
        depth 20

  dial-Around : (t : Transport) → Keeps (Around P env) (dial env server t)
  dial-Around stdio = dial_stdio-Around
  dial-Around (http_remote url) = dial_remote-Around url

  pub connect_inner-Around : Keeps (Around P env) (connect_inner env server)
  unfolding connect_inner
  connect_inner-Around =
      search
        (
          around_rules, dial-Around, kept.list_tools, kept.initialize, kept.touch_last_connected,
          kept.put_cached_tools,
        )
        depth 20

  confirm_current-Around :
      (tools : List McpTool) (r : Result InstalledServer Error)
      → Keeps (Around P env) (confirm_current env tools server r)
  confirm_current-Around tools (ok current) =
      search (around_rules, disconnect-Around P env kept) depth 16
  confirm_current-Around tools (err e) =
      search (around_rules, disconnect-Around P env kept) depth 16

  confirm-Around : (r : Result (List McpTool) Error) → Keeps (Around P env) (confirm env server r)
  confirm-Around (ok tools) =
      search (around_rules, kept.get_server, confirm_current-Around) depth 16
  confirm-Around (err e) = search (around_rules) depth 16

  record_outcome-Around :
      (r : Result (List McpTool) Error) → Keeps (Around P env) (record_outcome env server r)
  record_outcome-Around (ok tools) = search (around_rules) depth 16
  record_outcome-Around (err e) = search (around_rules, kept.load_env_values) depth 16

  pub connect-Around : Keeps (Around P env) (connect env server)
  unfolding connect
  connect-Around =
      search (around_rules, connect_inner-Around, confirm-Around, record_outcome-Around) depth 16
