-- ===== src/Registry/Store/Rows.antt =====
-- crates/tinymcp/src/registry/store/types.rs: reading, changing and deleting the rows of servers.
use tinymcp.Common.{Bool, false, List, Option, none, some, String, Result, ok, err}
use tinymcp.Common.Int.{pos}
use tinymcp.Common.Effects.{Effect, done, fail, of_result, always, attempt, ◌>>=◌, ◌>>◌}
use tinymcp.Json.{Value}
use tinymcp.Error.{Error, unknown_server}
use tinymcp.Registry.{InstalledServer}
use tinymcp.Registry.Store.{
  StorageError, conflict, failure, Versioned, anything, unchanged, ServerDoc, NameClaim,
  StoragePorts, decode, is_own, run, key, is_managed, env_secret_name, decode_each, decode_found,
  decode_first,
}

module _ {W : Type 0} (ports : StoragePorts W) where
  open ports use {servers, claims, tool_cache, doc_id, now_ms}

  unfoldable pub is_catalog_server : String → Effect W Error Bool
  unfolding run
  is_catalog_server server_id = do
    id ← of_result (key ports server_id)
    found ← run ports "reading catalog provenance" (servers.get id)
    done (is_managed found)

  unfoldable pub list_servers : Effect W Error (List InstalledServer)
  unfolding run decode
  list_servers = do rows ← run ports "listing servers" ports.all_installed; done (decode_each rows)

  unfoldable pub find_server : String → Effect W Error (Option InstalledServer)
  unfolding run decode
  find_server server_id = do
    id ← of_result (key ports server_id)
    found ← run ports "looking a server up" (servers.get id)
    done (decode_found found)

  abbrev pub known : String → Option InstalledServer → Effect W Error InstalledServer
  known server_id none = fail (unknown_server server_id)
  known server_id (some server) = done server

  unfoldable pub get_server : String → Effect W Error InstalledServer
  unfolding find_server
  get_server server_id = do found ← find_server server_id; known server_id found

  unfoldable pub find_server_by_qualified_name : String → Effect W Error (Option InstalledServer)
  unfolding run decode
  find_server_by_qualified_name name = do
    found ← run ports "looking a server up by qualified name" (ports.first_installed name)
    done (decode_first found)

  -- A claim that another install has taken over meanwhile is left.
  abbrev pub released : Result Bool StorageError → Effect W StorageError Bool
  released (ok b) = done b
  released (err (conflict s)) = done false
  released (err (failure s)) = fail (failure s)

  abbrev pub release_claim :
      String → String → Option (Versioned NameClaim) → Effect W StorageError Bool
  release_claim id claim_id none = done false
  release_claim id claim_id (some own) = do
    gone ← attempt (claims.delete claim_id (unchanged own.version))
    released gone

  abbrev pub release_name : String → Option (Versioned ServerDoc) → Effect W StorageError Bool
  release_name id none = done false
  release_name id (some row) = do
    claim_id ← of_result (doc_id row.doc.qualified_name)
    held ← claims.get claim_id
    release_claim id claim_id (is_own id held)

  unfoldable pub delete_server : String → Effect W Error Bool
  unfolding run
  delete_server server_id = do
    server_key ← of_result (key ports server_id)
    run ports "deleting a server" (do
      existing ← servers.get server_key
      removed ← servers.delete server_key anything
      tool_cache.delete server_key anything
      ports.delete_secret (env_secret_name server_id)
      release_name server_id existing
      done removed)

  abbrev pub update_server : String → String → (ServerDoc → ServerDoc) → Effect W Error (Unit {0})
  update_server action server_id change = do
    id ← of_result (key ports server_id)
    run ports action (servers.update id change)

  unfoldable pub update_env_keys : String → List String → Effect W Error (Unit {0})
  unfolding run
  update_env_keys server_id env_keys =
      update_server "updating a server's environment keys" server_id
        (λ doc. record doc { env_keys = env_keys })

  unfoldable pub update_config : String → Option Value → Effect W Error (Unit {0})
  unfolding run
  update_config server_id config =
      update_server "updating a server's configuration" server_id
        (λ doc. record doc { config = config })

  unfoldable pub update_enabled : String → Bool → Effect W Error (Unit {0})
  unfolding run
  update_enabled server_id enabled =
      update_server "updating a server's enabled flag" server_id
        (λ doc. record doc { enabled = enabled })

  unfoldable pub touch_last_connected : String → Effect W Error (Unit {0})
  unfolding run
  touch_last_connected server_id = do
    now ← always now_ms
    update_server "recording a successful connection" server_id
        (λ doc. record doc { last_connected_ms = some (pos now) })
