-- ===== src/Tests/StoreTests.antt =====
-- Turning an install off and replacing its credentials over a storage of one row and one secret, of
-- crates/tinymcp/src/registry/store/types.rs and crates/tinymcp/src/registry/ops/types.rs.
use tinymcp.Common.{
  refl, Bool, true, false, [], ◌∷◌, Option, none, some, String, Map, ok, err, ◌≡◌, lookup, inr,
}
use tinymcp.Common.Int.{ℤ}
use tinymcp.Common.Effects.{◌>>=◌}
use tinymcp.Json.{Value}
use tinymcp.Registry.Connections.{stdio_client, Connections, Surroundings}
use tinymcp.Registry.Connections.Entries.{Leaves}
use tinymcp.Registry.Operations.{Registry, require_non_empty}
use tinymcp.Registry.Operations.Stored.{PortsKeep, TransportsKeep}
use tinymcp.Registry.Operations.OffRows.{IsRowOf, Off, set_enabled-ends_sessions}
use tinymcp.Registry.Operations.KeptSecrets.{
  RowsBeside, Holds, update_env-stored, session_store-KeepsValues,
}
use tinymcp.Registry.Store.{
  ServerDoc, NameClaim, ToolCacheDoc, StoragePorts, encode, env_secret_name,
}
use tinymcp.Transport.Wire.{success}
use tinymcp.Common.{remove}
use tinymcp.Common.Chars.{trim}
use tinymcp.Registry.Connections.Sessions.{ask, modify, disconnect}
use tinymcp.Registry.Operations.Changing.{set_enabled, update_env}
use tinymcp.Registry.Operations.Switching.{attempts}
use tinymcp.Registry.Operations.Credentials.{Updated}
use tinymcp.Registry.Store.Rows
use tinymcp.Registry.Store.ToolCache
use tinymcp.Registry.Store.Secrets.{IsOwnSecret, session_store, set_env_values, load_env_values}
use tinymcp.Tests.SetupTests.{decode-code, code-empty}
use tinymcp.Tests.RegistryWorld
use tinymcp.Tests.RegistryWorld.{demo, secure, empty, weather}
use tinymcp.Tests.SetupTests.{nothing_kept, one_codec, credentials}

-- Transports that always work and change nothing, and a registry of nothing.
abbrev base : {W : Type 0} → Surroundings W
base = record {
  store = record {
    get_server = λ id w. (ok (demo true id), w);
    list_servers = λ w. (ok [], w);
    is_catalog_server = λ id w. (ok true, w);
    load_env_values = λ id w. (ok [], w);
    touch_last_connected = λ id w. (ok tt, w);
    put_cached_tools = λ id print tools w. (ok tt, w);
  };
  transports = record {
    open_stdio = λ command args values identity w. (stdio_client 1, w);
    open_http = λ dial w. (ok (stdio_client 2), w);
    initialize = λ client w. (ok (record { instructions = none }), w);
    list_tools = λ client w. (ok (weather ∷ []), w);
    list_tools_within = λ timeout client w. ((some (ok []), 5), w);
    call_tool = λ client name arguments w.
        (ok (record { raw_result = arguments; rendered = success "done" }), w);
    list_resources = λ client w. (ok [], w);
    read_resource = λ client uri w. (ok [], w);
    close_session = λ client w. (ok tt, w);
    refresh_if_expired = λ id w. (ok tt, w);
    guard_endpoint = λ url what w. (ok [], w);
    resolve_final_url = λ url w. (none, w);
    parse_url = λ url. some secure;
    fingerprint = λ server. "";
    render = λ e. "failed";
  };
  others = λ w c. c;
  identity = record { name = "host"; title = "Host"; version = "1"; capabilities = Value.null };
  proxy = none;
}

abbrev registry : {W : Type 0} → Registry W
registry = record {
  find_server_by_qualified_name = λ name w. (ok none, w);
  insert_catalog_server_if_absent = λ server w. (ok true, w);
  delete_server = λ id w. (ok true, w);
  update_enabled = λ id on w. (ok tt, w);
  update_env_keys = λ id names w. (ok tt, w);
  update_config = λ id config w. (ok tt, w);
  set_env_values = λ id values w. (ok tt, w);
  forget_cached_tools = λ id w. (ok true, w);
  cached_tools = λ id print w. (ok none, w);
  detail = λ source name w. (ok RegistryWorld.offered, w);
  oauth_complete = λ state code w. (ok "s1", w);
  new_id = λ w. ("s2", w);
  now_ms = λ w. (ℤ.pos 1, w);
  parse_ip = λ host. none;
  codec = record { from_str = λ text. err "not JSON"; to_string = λ v. "" };
}

still : {W : Type 0} (P : W → Type 0) → TransportsKeep (base {W = W}).transports P
still P = record {
  open_stdio = λ command args values identity w p. p;
  open_http = λ dial. record { at = λ w p. p };
  initialize = λ client. record { at = λ w p. p };
  list_tools = λ client. record { at = λ w p. p };
  close_session = λ client. record { at = λ w p. p };
  refresh_if_expired = λ id. record { at = λ w p. p };
  guard_endpoint = λ url what. record { at = λ w p. p };
  resolve_final_url = λ url w p. p;
}

left_alone : {W : Type 0} → Leaves "s1" (base {W = W}).others
left_alone = record { live = λ w c. refl; failures = λ w c. refl }

named : require_non_empty " s1 " "server_id" ≡ ok "s1"
unfolding require_non_empty trim
named = refl

-- A storage that is one row.
abbrev row_ports : StoragePorts ServerDoc
row_ports = record {
  servers = record {
    get = λ k w. (ok (some (record { doc = w; version = 0 })), w);
    put_with = λ k doc when w. (ok 1, doc);
    delete = λ k when w. (ok false, w);
    update = λ k change w. (ok tt, change w);
  };
  claims = nothing_kept ServerDoc NameClaim;
  tool_cache = nothing_kept ServerDoc ToolCacheDoc;
  first_named = λ name w. (ok none, w);
  first_installed = λ name w. (ok none, w);
  all_installed = λ w. (ok [], w);
  get_secret = λ name w. (ok none, w);
  set_secret = λ name bytes w. (ok tt, w);
  delete_secret = λ name w. (ok true, w);
  doc_id = λ part. ok part;
  now_ms = λ w. (1000, w);
  keyed_fingerprint = λ text. text;
}

own_row : IsRowOf row_ports "s1" (λ w. some w)
own_row = record {
  updated = λ k change w. inr refl;
  applied = λ k change w e h. refl;
  read = λ k w e. refl;
}

row_still : (P : ServerDoc → Type 0) → PortsKeep row_ports P
row_still P = record {
  get = λ k. record { at = λ w p. p };
  put_listing = λ k doc when. record { at = λ w p. p };
  delete_listing = λ k when. record { at = λ w p. p };
  get_secret = λ name. record { at = λ w p. p };
  now_ms = λ w p. p;
}

abbrev row_env : Surroundings ServerDoc
row_env = record base { store = session_store row_ports one_codec }

abbrev row_registry : Registry ServerDoc
row_registry = record registry {
  update_enabled = Rows.update_enabled row_ports;
  forget_cached_tools = ToolCache.forget_cached_tools row_ports;
}

abbrev row_start : Connections × ServerDoc
row_start = (empty, encode (demo true "s1") true)

turned_off : (set_enabled row_env row_registry " s1 " false row_start).0 ≡ ok tt
unfolding set_enabled ◌>>=◌ require_non_empty trim ask modify disconnect lookup remove session_store
    Rows.update_enabled ToolCache.forget_cached_tools
turned_off = refl

-- The install is turned off while an attempt to connect has a record that says it is enabled.
set_enabled-ends_sessions_example :
    lookup "s1"
      (attempts row_env
        (demo true "s1" ∷ [])
        (set_enabled row_env row_registry " s1 " false row_start).1).0.live
    ≡ none
set_enabled-ends_sessions_example =
    set_enabled-ends_sessions row_ports one_codec "s1" (λ w. some w) own_row base registry
      (row_still (Off row_ports one_codec "s1" (λ w. some w) own_row))
      (still (Off row_ports one_codec "s1" (λ w. some w) own_row)) left_alone " s1 "
      (demo true "s1" ∷ []) row_start named (refl, tt) turned_off

-- A storage of one row, which is on or off, and one secret.
pub record Host : Type 0 where
  pub on : Bool
  pub secret : Option String

abbrev host_ports : StoragePorts Host
host_ports = record {
  servers = record {
    get = λ k w. (ok (some (record { doc = encode (demo w.on "s1") true; version = 0 })), w);
    put_with = λ k doc when w. (ok 1, record w { on = doc.enabled });
    delete = λ k when w. (ok false, w);
    update =
        λ k change w. (ok tt, record w { on = (change (encode (demo w.on "s1") true)).enabled });
  };
  claims = nothing_kept Host NameClaim;
  tool_cache = nothing_kept Host ToolCacheDoc;
  first_named = λ name w. (ok none, w);
  first_installed = λ name w. (ok none, w);
  all_installed = λ w. (ok [], w);
  get_secret = λ name w. (ok w.secret, w);
  set_secret = λ name bytes w. (ok tt, record w { secret = some bytes });
  delete_secret = λ name w. (ok true, record w { secret = none });
  doc_id = λ part. ok part;
  now_ms = λ w. (1000, w);
  keyed_fingerprint = λ text. text;
}

host_secret : IsOwnSecret host_ports one_codec (env_secret_name "s1") (λ w. w.secret)
host_secret = record {
  set = λ bytes w. refl;
  unset = λ w. refl;
  read = λ w. refl;
  decodes = decode-code;
  empties = code-empty;
}

rows_beside : RowsBeside host_ports "s1" (λ w. w.secret)
unfolding encode
rows_beside = record { updated = λ k change w. refl; named = λ k w e. refl }

host_still : (P : Host → Type 0) → PortsKeep host_ports P
host_still P = record {
  get = λ k. record { at = λ w p. p };
  put_listing = λ k doc when. record { at = λ w p. p };
  delete_listing = λ k when. record { at = λ w p. p };
  get_secret = λ name. record { at = λ w p. p };
  now_ms = λ w p. p;
}

abbrev HostHolds : Map String → Host → Type 0
HostHolds = Holds host_ports one_codec "s1" (λ w. w.secret) host_secret rows_beside

abbrev host_env : Surroundings Host
host_env = record base { store = session_store host_ports one_codec }

abbrev host_registry : Registry Host
host_registry = record registry {
  set_env_values = set_env_values host_ports one_codec;
  update_env_keys = Rows.update_env_keys host_ports;
  forget_cached_tools = ToolCache.forget_cached_tools host_ports;
}

abbrev host_start : Connections × Host
host_start = (empty, record { on = true; secret = some "old" })

update_env-stored_example :
    Updated host_env host_registry "s1" left_alone HostHolds
      (session_store-KeepsValues host_ports one_codec "s1"
        (λ w. w.secret)
        host_secret
        rows_beside
        base
        registry
        (λ values. host_still (HostHolds values))
        (λ values. still (HostHolds values)))
      (load_env_values host_ports one_codec "s1" host_start.1).0
      credentials
      (update_env host_env host_registry " s1 " credentials host_start).0
      (update_env host_env host_registry " s1 " credentials host_start).1
update_env-stored_example =
    update_env-stored host_ports one_codec "s1" (λ w. w.secret) host_secret rows_beside base
      registry (λ values. host_still (HostHolds values)) (λ values. still (HostHolds values))
      left_alone " s1 " credentials host_start named
