-- ===== src/Registry/Store.antt =====
-- crates/tinymcp/src/registry/store (types.rs, tool_cache.rs): the records of installed servers, the
-- claims on their names, and the listings that are kept, over the host's storage.
pub mod Claims
pub mod Rows
pub mod ToolCache
pub mod Secrets
pub mod Inserting
use Prim.Native.String.{◌++◌}
use tinymcp.Common.{
  ℕ, ◌-◌, ltb, Bool, true, false, List, [], ◌∷◌, Option, none, some, String, Map, str_eq,
  if◌then◌else◌, Result, ok, err, map_err, unwrap_or,
}
use tinymcp.Common.Int.{ℤ, pos}
use tinymcp.Common.Effects.{Effect, done, fail, of_result, always, attempt, ◌>>=◌, ◌>>◌}
use tinymcp.Json.{Value}
use tinymcp.Error.{Error, unknown_server}
use tinymcp.Registry.{
  InstalledServer, McpTool, CommandKind, node, python, binary, Transport, stdio, http_remote,
  dispatch_kind, deployment_url,
}

-- `ErrorKind`, in the part that is looked at, with the text of the error.
pub data StorageError : Type 0 where
  conflict : String → StorageError
  failure : String → StorageError

abbrev pub detail_of : StorageError → String
detail_of (conflict s) = s
detail_of (failure s) = s

-- A document as it was read, with the version that a later write can ask for.
pub record Versioned (D : Type 0) : Type 0 where
  pub doc : D
  pub version : ℕ

pub data Precondition : Type 0 where
  anything absent : Precondition
  unchanged : ℕ → Precondition

-- A collection of the host's document store, through the coding of its documents. A document that
-- cannot be decoded is a failure of the read.
pub record Collection (W D : Type 0) : Type 0 where
  pub get : String → Effect W StorageError (Option (Versioned D))
  pub put_with : String → D → Precondition → Effect W StorageError ℕ
  pub delete : String → Precondition → Effect W StorageError Bool
  pub update : String → (D → D) → Effect W StorageError (Unit {0})

abbrev pub as_str : CommandKind → String
as_str node = "node"
as_str python = "python"
as_str binary = "binary"

abbrev pub parse_kind : String → CommandKind
parse_kind raw =
    if str_eq raw "python" then python else (if str_eq raw "binary" then binary else node)

abbrev pub parse_transport : String → Option String → Transport
parse_transport kind url =
    if str_eq kind "http_remote" then http_remote (unwrap_or url "") else stdio

pub record ServerDoc : Type 0 where
  pub server_id : String
  pub qualified_name : String
  pub display_name : String
  pub description : Option String
  pub icon_url : Option String
  pub command_kind : String
  pub command : String
  pub args : List String
  pub env_keys : List String
  pub config : Option Value
  pub installed_ms : ℤ
  pub last_connected_ms : Option ℤ
  pub transport : String
  pub deployment_url : Option String
  pub enabled : Bool
  pub catalog_managed : Bool

unfoldable pub encode : InstalledServer → Bool → ServerDoc
encode server catalog_managed = record {
  server_id = server.server_id;
  qualified_name = server.qualified_name;
  display_name = server.display_name;
  description = server.description;
  icon_url = server.icon_url;
  command_kind = as_str server.command_kind;
  command = server.command;
  args = server.args;
  env_keys = server.env_keys;
  config = server.config;
  installed_ms = server.installed_at;
  last_connected_ms = server.last_connected_at;
  transport = dispatch_kind server.transport;
  deployment_url = tinymcp.Registry.deployment_url server.transport;
  enabled = server.enabled;
  catalog_managed = catalog_managed;
}

unfoldable pub decode : ServerDoc → InstalledServer
decode doc = record {
  server_id = doc.server_id;
  qualified_name = doc.qualified_name;
  display_name = doc.display_name;
  description = doc.description;
  icon_url = doc.icon_url;
  command_kind = parse_kind doc.command_kind;
  command = doc.command;
  args = doc.args;
  env_keys = doc.env_keys;
  config = doc.config;
  installed_at = doc.installed_ms;
  last_connected_at = doc.last_connected_ms;
  transport = parse_transport doc.transport doc.deployment_url;
  enabled = doc.enabled;
}

pub record NameClaim : Type 0 where
  pub qualified_name : String
  pub server_id : String
  pub claimed_ms : ℕ

abbrev pub claim_lease_ms : ℕ
claim_lease_ms = 60000

-- A listing that is kept: `ToolCacheDoc`.
pub record ToolCacheDoc : Type 0 where
  pub server_key : String
  pub fingerprint : String
  pub tools : List McpTool
  pub cached_ms : ℕ

pub record CachedTools : Type 0 where
  pub tools : List McpTool
  pub cached_at : ℕ

-- `StoragePorts` with the key of the fingerprints: the collections, the queries by name and of all, the
-- secrets, the making of document ids, and the clock.
pub record StoragePorts (W : Type 0) : Type 0 where
  pub servers : Collection W ServerDoc
  pub claims : Collection W NameClaim
  pub tool_cache : Collection W ToolCacheDoc
  pub first_named : String → Effect W StorageError (Option ServerDoc)
  pub first_installed : String → Effect W StorageError (Option ServerDoc)
  pub all_installed : Effect W StorageError (List ServerDoc)
  pub get_secret : String → Effect W StorageError (Option String)
  pub set_secret : String → String → Effect W StorageError (Unit {0})
  pub delete_secret : String → Effect W StorageError Bool
  pub doc_id : String → Result String StorageError
  pub now_ms : W → ℕ × W
  pub keyed_fingerprint : String → String

abbrev pub env_secret_name : String → String
env_secret_name server_id = "mcp_client_env/" ++ server_id

abbrev pub is_own : String → Option (Versioned NameClaim) → Option (Versioned NameClaim)
is_own id none = none
is_own id (some held) = if str_eq held.doc.server_id id then some held else none

abbrev pub decode_each : List ServerDoc → List InstalledServer
decode_each [] = []
decode_each (doc ∷ l) = decode doc ∷ decode_each l

abbrev pub decode_found : Option (Versioned ServerDoc) → Option InstalledServer
decode_found none = none
decode_found (some row) = some (decode row.doc)

abbrev pub decode_first : Option ServerDoc → Option InstalledServer
decode_first none = none
decode_first (some doc) = some (decode doc)

abbrev pub is_managed : Option (Versioned ServerDoc) → Bool
is_managed none = false
is_managed (some row) = row.doc.catalog_managed

module _ {W : Type 0} (ports : StoragePorts W) where
  open ports use {servers, claims, tool_cache, doc_id, now_ms}

  -- `StoragePorts::run` and `key`.
  unfoldable pub run : {A : Type 0} → String → Effect W StorageError A → Effect W Error A
  run action f w = (map_err (λ e. tinymcp.Error.store action (detail_of e)) (f w).0, (f w).1)

  abbrev pub key : String → Result String Error
  key part = map_err (λ e. tinymcp.Error.store "building a document id" (detail_of e)) (doc_id part)
