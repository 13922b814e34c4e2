-- ===== src/Tests/RegistryWorld.antt =====
-- A world with one install, its credentials and whether it is enabled, around the registry of
-- crates/tinymcp/src/registry.
use tinymcp.Common.{refl, Bool, true, false, [], ◌∷◌, none, some, String, Map, ok, err}
use tinymcp.Common.Int.{ℤ}
use tinymcp.Json.{Value, Members}
use tinymcp.Transport.Wire.{Url, McpRemoteTool, success}
use tinymcp.Registry.{
  InstalledServer, CommandKind, Transport, RegistryConnection, RegistryServerDetail,
}
use tinymcp.Registry.Connections.{stdio_client, Connections, Surroundings}
use tinymcp.Registry.Connections.Entries.{Leaves}
use tinymcp.Registry.Connections.Worlds.{KeptBy}
use tinymcp.Registry.Operations.{Registry}

pub record World : Type 0 where
  pub values : Map String
  pub on : Bool

abbrev pub demo : Bool → String → InstalledServer
demo on id = record {
  server_id = id;
  qualified_name = "@demo/one";
  display_name = "One";
  description = none;
  icon_url = none;
  command_kind = CommandKind.node;
  command = "npx";
  args = [];
  env_keys = [];
  config = none;
  installed_at = ℤ.pos 0;
  last_connected_at = none;
  transport = Transport.stdio;
  enabled = on;
}

abbrev pub weather : McpRemoteTool
weather = record {
  name = "weather";
  title = none;
  description = none;
  input_schema = Value.null;
  meta = some Value.null;
}

abbrev pub secure : Url
secure = record {
  scheme = "https";
  host_str = some "mcp.example.com";
  port = some 443;
  username = "";
  password = none;
}

abbrev pub connection : String → Bool → RegistryConnection
connection kind published = record {
  kind = kind;
  deployment_url = some "https://mcp.example.com/";
  config_schema = none;
  example_config = none;
  published = published;
  extra = Members.end;
}

abbrev pub offered : RegistryServerDetail
offered = record {
  qualified_name = "demo";
  display_name = "Demo";
  description = none;
  icon_url = none;
  connections = connection "stdio" true ∷ connection "sse" false ∷ [];
  source = "smithery";
  extra = Members.end;
}

abbrev pub env : Surroundings World
env = record {
  store = record {
    get_server = λ id w. (ok (demo w.on id), w);
    list_servers = λ w. (ok (demo w.on "s1" ∷ []), w);
    is_catalog_server = λ id w. (ok true, w);
    load_env_values = λ id w. (ok w.values, w);
    touch_last_connected = λ id w. (ok tt, w);
    put_cached_tools = λ id print tools w. (ok tt, w);
  };
  transports = record {
    open_stdio = λ command args values identity w. (stdio_client 1, w);
    open_http = λ dial w. (ok (stdio_client 2), w);
    initialize = λ client w. (ok (record { instructions = none }), w);
    list_tools = λ client w. (ok (weather ∷ []), w);
    list_tools_within = λ timeout client w. ((some (ok []), 5), w);
    call_tool = λ client name arguments w.
        (ok (record { raw_result = arguments; rendered = success "done" }), w);
    list_resources = λ client w. (ok [], w);
    read_resource = λ client uri w. (ok [], w);
    close_session = λ client w. (ok tt, w);
    refresh_if_expired = λ id w. (ok tt, w);
    guard_endpoint = λ url what w. (ok [], w);
    resolve_final_url = λ url w. (none, w);
    parse_url = λ url. some secure;
    fingerprint = λ server. "";
    render = λ e. "failed";
  };
  others = λ w c. c;
  identity = record { name = "host"; title = "Host"; version = "1"; capabilities = Value.null };
  proxy = none;
}

abbrev pub registry : Registry World
registry = record {
  find_server_by_qualified_name = λ name w. (ok none, w);
  insert_catalog_server_if_absent = λ server w. (ok true, w);
  delete_server = λ id w. (ok true, w);
  update_enabled = λ id on w. (ok tt, record w { on = on });
  update_env_keys = λ id names w. (ok tt, w);
  update_config = λ id config w. (ok tt, w);
  set_env_values = λ id values w. (ok tt, record w { values = values });
  forget_cached_tools = λ id w. (ok true, w);
  cached_tools = λ id print w. (ok none, w);
  detail = λ source name w. (ok offered, w);
  oauth_complete = λ state code w. (ok "s1", w);
  new_id = λ w. ("s2", w);
  now_ms = λ w. (ℤ.pos 1, w);
  parse_ip = λ host. none;
  codec = record { from_str = λ text. err "not JSON"; to_string = λ v. "" };
}

abbrev pub empty : Connections
empty = record { live = []; failures = [] }

abbrev pub start : Connections × World
start = (empty, record { values = ("API_KEY", "old") ∷ []; on = true })

pub leaves : (id : String) → Leaves id env.others
leaves id = record { live = λ w c. refl; failures = λ w c. refl }

-- No call of the sessions changes this world.
pub quiet : (P : World → Type 0) → KeptBy P env
quiet P = record {
  get_server = λ id. record { at = λ w p. p };
  is_catalog_server = λ id. record { at = λ w p. p };
  load_env_values = λ id. record { at = λ w p. p };
  touch_last_connected = λ id. record { at = λ w p. p };
  put_cached_tools = λ id print tools. record { at = λ w p. p };
  open_stdio = λ command args values identity w p. p;
  open_http = λ dial. record { at = λ w p. p };
  initialize = λ client. record { at = λ w p. p };
  list_tools = λ client. record { at = λ w p. p };
  close_session = λ client. record { at = λ w p. p };
  refresh_if_expired = λ id. record { at = λ w p. p };
  guard_endpoint = λ url what. record { at = λ w p. p };
  resolve_final_url = λ url w p. p;
}
