-- ===== src/Error/Names.antt =====
-- crates/tinymcp-bus/src/errors/mod.rs and `Error::wire_name`: the names that failures travel under.
use tinymcp.Common.{◌≡◌, refl, List, [], ◌∷◌, String, Bool, true, not, ◌&&◌, contains, str_eq}
use tinymcp.Error.{
  Error, unauthorized, missing_runtime, http, transport, endpoint_resolution, registry_timeout,
  unsupported_protocol_version, malformed_response, rpc, missing_auth_challenge, auth_discovery,
  tool_not_allowed, not_connected, resource_too_large, server_disabled, invalid_arguments,
  config_doc, unknown_server, client_build, serialization, store, credential_store, store_io, bus,
  invalid_argument, server_io, server_bind, is_unauthorized, is_missing_runtime,
}

unfoldable pub wire_name : Error → String
wire_name (unauthorized _ _) = "ai.tinyhumans.tinymcp.Error.Unauthorized"
wire_name (missing_runtime _ _) = "ai.tinyhumans.tinymcp.Error.MissingRuntime"
wire_name (http _ _ _) = "ai.tinyhumans.tinymcp.Error.Http"
wire_name (transport _ _) = "ai.tinyhumans.tinymcp.Error.Transport"
wire_name (endpoint_resolution _ _) = "ai.tinyhumans.tinymcp.Error.EndpointResolution"
wire_name (registry_timeout _ _ _) = "ai.tinyhumans.tinymcp.Error.RegistryTimeout"
wire_name (unsupported_protocol_version _) =
    "ai.tinyhumans.tinymcp.Error.UnsupportedProtocolVersion"
wire_name (malformed_response _) = "ai.tinyhumans.tinymcp.Error.MalformedResponse"
wire_name (rpc _) = "ai.tinyhumans.tinymcp.Error.Rpc"
wire_name missing_auth_challenge = "ai.tinyhumans.tinymcp.Error.MissingAuthChallenge"
wire_name (auth_discovery _ _) = "ai.tinyhumans.tinymcp.Error.AuthDiscovery"
wire_name (tool_not_allowed _ _) = "ai.tinyhumans.tinymcp.Error.ToolNotAllowed"
wire_name (not_connected _) = "ai.tinyhumans.tinymcp.Error.NotConnected"
wire_name (resource_too_large _ _ _) = "ai.tinyhumans.tinymcp.Error.ResourceTooLarge"
wire_name (server_disabled _) = "ai.tinyhumans.tinymcp.Error.ServerDisabled"
wire_name (unknown_server _) = "ai.tinyhumans.tinymcp.Error.UnknownServer"
wire_name (client_build _) = "ai.tinyhumans.tinymcp.Error.ClientBuild"
wire_name (serialization _) = "ai.tinyhumans.tinymcp.Error.Serialization"
wire_name (store _ _) = "ai.tinyhumans.tinymcp.Error.Store"
wire_name (credential_store _ _) = "ai.tinyhumans.tinymcp.Error.CredentialStore"
wire_name (store_io _ _) = "ai.tinyhumans.tinymcp.Error.StoreIo"
wire_name (bus _) = "ai.tinyhumans.tinymcp.Error.Bus"
wire_name (invalid_argument _) = "ai.tinyhumans.tinymcp.Error.InvalidArgument"
wire_name (invalid_arguments _ _) = "ai.tinyhumans.tinymcp.Error.InvalidArguments"
wire_name (config_doc _) = "ai.tinyhumans.tinymcp.Error.ConfigDoc"
wire_name (server_io _) = "ai.tinyhumans.tinymcp.Error.ServerIo"
wire_name (server_bind _ _) = "ai.tinyhumans.tinymcp.Error.ServerBind"

-- `errors::ALL`.
abbrev pub all_names : List String
all_names =
    "ai.tinyhumans.tinymcp.Error.Unauthorized" ∷ "ai.tinyhumans.tinymcp.Error.MissingRuntime"
    ∷ "ai.tinyhumans.tinymcp.Error.Http" ∷ "ai.tinyhumans.tinymcp.Error.Transport"
    ∷ "ai.tinyhumans.tinymcp.Error.EndpointResolution"
    ∷ "ai.tinyhumans.tinymcp.Error.UnsupportedProtocolVersion"
    ∷ "ai.tinyhumans.tinymcp.Error.MalformedResponse" ∷ "ai.tinyhumans.tinymcp.Error.Rpc"
    ∷ "ai.tinyhumans.tinymcp.Error.MissingAuthChallenge"
    ∷ "ai.tinyhumans.tinymcp.Error.AuthDiscovery" ∷ "ai.tinyhumans.tinymcp.Error.ToolNotAllowed"
    ∷ "ai.tinyhumans.tinymcp.Error.NotConnected" ∷ "ai.tinyhumans.tinymcp.Error.ServerDisabled"
    ∷ "ai.tinyhumans.tinymcp.Error.UnknownServer" ∷ "ai.tinyhumans.tinymcp.Error.ClientBuild"
    ∷ "ai.tinyhumans.tinymcp.Error.Serialization" ∷ "ai.tinyhumans.tinymcp.Error.Store"
    ∷ "ai.tinyhumans.tinymcp.Error.CredentialStore" ∷ "ai.tinyhumans.tinymcp.Error.StoreIo"
    ∷ "ai.tinyhumans.tinymcp.Error.Bus" ∷ "ai.tinyhumans.tinymcp.Error.InvalidArgument"
    ∷ "ai.tinyhumans.tinymcp.Error.ServerIo" ∷ "ai.tinyhumans.tinymcp.Error.ServerBind"
    ∷ "ai.tinyhumans.tinymcp.Error.ConfigDoc" ∷ "ai.tinyhumans.tinymcp.Error.InvalidArguments"
    ∷ "ai.tinyhumans.tinymcp.Error.RegistryTimeout" ∷ "ai.tinyhumans.tinymcp.Error.ResourceTooLarge"
    ∷ []

abbrev pub is_nodup : List String → Bool
is_nodup [] = true
is_nodup (x ∷ xs) = not (contains xs x) && is_nodup xs

contains-wire_name : (e : Error) → contains all_names (wire_name e) ≡ true
unfolding wire_name
contains-wire_name (unauthorized _ _) = refl
contains-wire_name _ = refl

name-is_unauthorized :
    (e : Error)
    → str_eq (wire_name e) "ai.tinyhumans.tinymcp.Error.Unauthorized" ≡ is_unauthorized e
unfolding wire_name is_unauthorized
name-is_unauthorized (unauthorized _ _) = refl
name-is_unauthorized _ = refl

name-is_missing_runtime :
    (e : Error)
    → str_eq (wire_name e) "ai.tinyhumans.tinymcp.Error.MissingRuntime" ≡ is_missing_runtime e
unfolding wire_name is_missing_runtime
name-is_missing_runtime (missing_runtime _ _) = refl
name-is_missing_runtime _ = refl

-- Every failure travels under a name of the published table, which lists no name twice, and a host
-- that only sees the name tells the failures for which the supervisor parks a server, an
-- unauthorized one and a missing runtime, just as the program does.
pub wire_name-classifies :
    (e : Error)
    → (contains all_names (wire_name e) ≡ true)
      × (is_nodup all_names ≡ true)
      × (str_eq (wire_name e) "ai.tinyhumans.tinymcp.Error.Unauthorized" ≡ is_unauthorized e)
      × (str_eq (wire_name e) "ai.tinyhumans.tinymcp.Error.MissingRuntime" ≡ is_missing_runtime e)
wire_name-classifies e =
    (contains-wire_name e, refl, name-is_unauthorized e, name-is_missing_runtime e)
