-- ===== src/Registry/Operations/Stored.antt =====
-- crates/tinymcp/src/registry/store/types.rs under crates/tinymcp/src/registry/ops/types.rs: what the
-- program's own store gives to the operations that turn an install off and replace its credentials.
use tinymcp.Common.{List, Option, none, some, String, Map}
use tinymcp.Common.Int.{ℤ}
use tinymcp.Common.Effects.{
  Effect, Keeps, Keeps-bind, Keeps-done, Keeps-fail, Keeps-of_result, keeps_rules, always,
}
use tinymcp.Error.{Error}
use tinymcp.Registry.{McpTool}
use tinymcp.Supervisor.{McpClientIdentityConfig}
use tinymcp.Registry.Connections.{ActiveClient, HttpDial, Surroundings, Transports}
use tinymcp.Registry.Connections.Worlds.{KeptBy}
use tinymcp.Registry.Store.{StorageError, Precondition, ToolCacheDoc, StoragePorts, run, anything}
use tinymcp.Registry.Store.Rows
use tinymcp.Registry.Store.Secrets.{EnvCodec, session_store, load_env_values}
use tinymcp.Registry.Store.ToolCache

-- The calls of the host's storage that keep `P`: all that read, and those of the kept listings.
pub record PortsKeep {W : Type 0} (ports : StoragePorts W) (P : W → Type 0) : Type 0 where
  pub get : (k : String) → Keeps P (ports.servers.get k)
  pub put_listing :
      (k : String) (doc : ToolCacheDoc) (when : Precondition)
      → Keeps P (ports.tool_cache.put_with k doc when)
  pub delete_listing : (k : String) (when : Precondition) → Keeps P (ports.tool_cache.delete k when)
  pub get_secret : (name : String) → Keeps P (ports.get_secret name)
  pub now_ms : (w : W) → P w → P (ports.now_ms w).1

-- The calls of the transports that keep `P`.
pub record TransportsKeep {W : Type 0} (transports : Transports W) (P : W → Type 0) : Type 0 where
  pub open_stdio :
      (command : String) (args : List String) (values : Map String)
      (identity : McpClientIdentityConfig) (w : W)
      → P w
      → P (transports.open_stdio command args values identity w).1
  pub open_http : (dial : HttpDial) → Keeps P (transports.open_http dial)
  pub initialize : (client : ActiveClient) → Keeps P (transports.initialize client)
  pub list_tools : (client : ActiveClient) → Keeps P (transports.list_tools client)
  pub close_session : (client : ActiveClient) → Keeps P (transports.close_session client)
  pub refresh_if_expired : (id : String) → Keeps P (transports.refresh_if_expired id)
  pub guard_endpoint : (url what : String) → Keeps P (transports.guard_endpoint url what)
  pub resolve_final_url : (url : String) (w : W) → P w → P (transports.resolve_final_url url w).1

module _ {W : Type 0} (ports : StoragePorts W) (codec : EnvCodec) (P : W → Type 0)
    (keep : PortsKeep ports P)
    (touch : (k : String) (at : Option ℤ)
      → Keeps P (ports.servers.update k (λ doc. record doc { last_connected_ms = at }))) where
  run-Keeps :
      {A : Type 0} (action : String) (f : Effect W StorageError A)
      → Keeps P f
      → Keeps P (run ports action f)
  unfolding run
  run-Keeps action f k = record { at = k.at }

  now-Keeps : Keeps P (always {E = Error} ports.now_ms)
  unfolding always
  now-Keeps = record { at = keep.now_ms }

  known-Keeps :
      (id : String) (o : Option tinymcp.Registry.InstalledServer) → Keeps P (Rows.known ports id o)
  known-Keeps id none = Keeps-fail _
  known-Keeps id (some server) = Keeps-done server

  get_server-Keeps : (id : String) → Keeps P (Rows.get_server ports id)
  unfolding Rows.get_server Rows.find_server
  get_server-Keeps id = search (keeps_rules, run-Keeps, known-Keeps, keep.get) depth 16

  is_catalog_server-Keeps : (id : String) → Keeps P (Rows.is_catalog_server ports id)
  unfolding Rows.is_catalog_server
  is_catalog_server-Keeps id = search (keeps_rules, run-Keeps, keep.get) depth 16

  load-Keeps : (id : String) → Keeps P (load_env_values ports codec id)
  unfolding load_env_values
  load-Keeps id = search (keeps_rules, run-Keeps, keep.get_secret) depth 16

  touch-Keeps : (id : String) → Keeps P (Rows.touch_last_connected ports id)
  unfolding Rows.touch_last_connected
  touch-Keeps id = search (keeps_rules, run-Keeps, now-Keeps, touch) depth 16

  put-Keeps :
      (id print : String) (tools : List McpTool)
      → Keeps P (ToolCache.put_cached_tools ports id print tools)
  unfolding ToolCache.put_cached_tools
  put-Keeps id print tools = search (keeps_rules, run-Keeps, now-Keeps, keep.put_listing) depth 16

  -- With the program's own store, the sessions keep what the storage and the transports keep.
  pub session_store-KeptBy :
      (base : Surroundings W)
      → TransportsKeep base.transports P
      → KeptBy P (record base { store = session_store ports codec })
  unfolding session_store
  session_store-KeptBy base t = record {
    get_server = get_server-Keeps;
    is_catalog_server = is_catalog_server-Keeps;
    load_env_values = load-Keeps;
    touch_last_connected = touch-Keeps;
    put_cached_tools =
        λ id print tools. Keeps-bind _ _ (put-Keeps id print tools) (λ n. Keeps-done tt);
    open_stdio = t.open_stdio;
    open_http = t.open_http;
    initialize = t.initialize;
    list_tools = t.list_tools;
    close_session = t.close_session;
    refresh_if_expired = t.refresh_if_expired;
    guard_endpoint = t.guard_endpoint;
    resolve_final_url = t.resolve_final_url;
  }

module _ {W : Type 0} (ports : StoragePorts W) (P : W → Type 0) (keep : PortsKeep ports P) where
  pub forget-Keeps : (id : String) → Keeps P (ToolCache.forget_cached_tools ports id)
  unfolding ToolCache.forget_cached_tools run
  forget-Keeps id =
      Keeps-bind _ _ (Keeps-of_result _) (λ k. record { at = (keep.delete_listing k anything).at })
