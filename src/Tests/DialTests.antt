-- ===== src/Tests/DialTests.antt =====
-- A remote install that is dialled in a world that logs the connections, of
-- crates/tinymcp/src/registry/connections/dial.rs.
use tinymcp.Common.{true, List, [], ◌∷◌, none, some, String, Map, All, ok}
use tinymcp.Json.{Value}
use tinymcp.Transport.Wire.{success}
use tinymcp.Registry.Connections.{stdio_client, HttpDial, Surroundings}
use tinymcp.Registry.Connections.Dialling.{IsSafeDial}
use tinymcp.Tests.RegistryWorld.{demo, secure}

abbrev Log : Type 0
Log = List HttpDial

abbrev values : Map String
values = ("API_KEY", "k") ∷ ("__oauth", "{}") ∷ []

abbrev logging : Surroundings Log
logging = record {
  store = record {
    get_server = λ id w. (ok (demo true id), w);
    list_servers = λ w. (ok [], w);
    is_catalog_server = λ id w. (ok true, w);
    load_env_values = λ id w. (ok values, w);
    touch_last_connected = λ id w. (ok tt, w);
    put_cached_tools = λ id print tools w. (ok tt, w);
  };
  transports = record {
    open_stdio = λ command args values identity w. (stdio_client 1, w);
    open_http = λ dial w. (ok (stdio_client 2), dial ∷ w);
    initialize = λ client w. (ok (record { instructions = none }), w);
    list_tools = λ client w. (ok [], w);
    list_tools_within = λ timeout client w. ((some (ok []), 5), w);
    call_tool = λ client name arguments w.
        (ok (record { raw_result = arguments; rendered = success "done" }), w);
    list_resources = λ client w. (ok [], w);
    read_resource = λ client uri w. (ok [], w);
    close_session = λ client w. (ok tt, w);
    refresh_if_expired = λ id w. (ok tt, w);
    guard_endpoint = λ url what w. (ok [], w);
    resolve_final_url = λ url w. (some "https://mcp.example.com/b", w);
    parse_url = λ url. some secure;
    fingerprint = λ server. "";
    render = λ e. "failed";
  };
  others = λ w c. c;
  identity = record { name = "host"; title = "Host"; version = "1"; capabilities = Value.null };
  proxy = none;
}

abbrev Logged : Log → Type 0
Logged = All (IsSafeDial logging (demo true "s1") "https://mcp.example.com/")
