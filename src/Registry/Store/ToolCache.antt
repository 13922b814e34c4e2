-- ===== src/Registry/Store/ToolCache.antt =====
-- crates/tinymcp/src/registry/store/tool_cache.rs: the listings that are kept.
use tinymcp.Common.{ℕ, Bool, List, Option, none, some, String, str_eq, if◌then◌else◌}
use tinymcp.Common.Effects.{Effect, done, of_result, always, ◌>>=◌}
use tinymcp.Error.{Error}
use tinymcp.Registry.{McpTool}
use tinymcp.Registry.Store.{Versioned, anything, ToolCacheDoc, CachedTools, StoragePorts, run, key}

module _ {W : Type 0} (ports : StoragePorts W) where
  open ports use {servers, claims, tool_cache, doc_id, now_ms}

  unfoldable pub put_cached_tools : String → String → List McpTool → Effect W Error ℕ
  unfolding run
  put_cached_tools server_key fingerprint tools = do
    now ← always now_ms
    id ← of_result (key ports server_key)
    run ports "writing the tool cache" (
        tool_cache.put_with id
          (record {
            server_key = server_key;
            fingerprint = ports.keyed_fingerprint fingerprint;
            tools = tools;
            cached_ms = now;
          })
          anything)

  abbrev pub same_definition : String → Option (Versioned ToolCacheDoc) → Option CachedTools
  same_definition fingerprint none = none
  same_definition fingerprint (some row) =
      if str_eq row.doc.fingerprint fingerprint
      then some (record { tools = row.doc.tools; cached_at = row.doc.cached_ms })
      else none

  unfoldable pub cached_tools : String → String → Effect W Error (Option CachedTools)
  unfolding run
  cached_tools server_key fingerprint = do
    id ← of_result (key ports server_key)
    found ← run ports "reading the tool cache" (tool_cache.get id)
    done (same_definition (ports.keyed_fingerprint fingerprint) found)

  unfoldable pub forget_cached_tools : String → Effect W Error Bool
  unfolding run
  forget_cached_tools server_key = do
    id ← of_result (key ports server_key)
    run ports "forgetting cached tools" (tool_cache.delete id anything)
