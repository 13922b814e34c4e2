-- ===== src/Registry/Operations/KeptSecrets.antt =====
-- crates/tinymcp/src/registry/store/types.rs under crates/tinymcp/src/registry/ops/types.rs: replacing
-- an install's credentials in the program's own store.
use tinymcp.Common.{◌≡◌, refl, Option, none, some, String, Map, Result, ok, err, map_err, List}
use tinymcp.Common.Effects.{Keeps, Keeps-bind, Keeps-of_result, of_result, done, fail, ◌>>=◌}
use tinymcp.Registry.Connections.{Surroundings, Connections}
use tinymcp.Registry.Connections.Entries.{Leaves}
use tinymcp.Registry.Store.{
  StorageError, Versioned, ServerDoc, StoragePorts, run, decode, decode_found, env_secret_name,
  detail_of,
}
use tinymcp.Registry.Store.Rows
use tinymcp.Registry.Store.Secrets.{
  EnvCodec, IsOwnSecret, SecretHolds, session_store, set_env_values, set_env_values-load,
  load_env_values,
}
use tinymcp.Registry.Store.ToolCache
use tinymcp.Registry.Operations.{Registry, require_non_empty}
use tinymcp.Registry.Operations.Changing.{update_env}
use tinymcp.Registry.Operations.Credentials.{KeepsValues, Answers, Updated, update_env-Updated}
use tinymcp.Registry.Operations.Stored.{
  PortsKeep, TransportsKeep, session_store-KeptBy, forget-Keeps,
}

-- A document that is read is of the install that it was asked for.
abbrev pub IsOf : String → Result (Option (Versioned ServerDoc)) StorageError → Type 0
IsOf id (ok (some row)) = row.doc.server_id ≡ id
IsOf id (ok none) = Unit
IsOf id (err e) = Unit

-- The rows beside the secret: an update of one leaves the secret alone, and the one of the install is
-- under its own name.
pub record RowsBeside {W : Type 0} (ports : StoragePorts W) (id : String)
    (secret : W → Option String) : Type 0 where
  pub updated :
      (k : String) (change : ServerDoc → ServerDoc) (w : W)
      → secret (ports.servers.update k change w).1 ≡ secret w
  pub named : (k : String) (w : W) → ports.doc_id id ≡ ok k → IsOf id (ports.servers.get k w).0

module _ {W : Type 0} (ports : StoragePorts W) (codec : EnvCodec) (id : String)
    (secret : W → Option String) (own : IsOwnSecret ports codec (env_secret_name id) secret)
    (rows : RowsBeside ports id secret) where
  abbrev pub Holds : Map String → W → Type 0
  Holds values = SecretHolds ports codec id secret own values

  update-Keeps :
      (values : Map String) (k : String) (change : ServerDoc → ServerDoc)
      → Keeps (Holds values) (ports.servers.update k change)
  update-Keeps values k change = record { at = λ w h. rw (rows.updated k change w) h }

  renamed :
      (values : Map String) (names : List String)
      → Keeps (Holds values) (Rows.update_env_keys ports id names)
  unfolding Rows.update_env_keys run
  renamed values names =
      Keeps-bind _ _ (Keeps-of_result _) (λ k. record { at = (update-Keeps values k _).at })

  found_of :
      (r : Result (Option (Versioned ServerDoc)) StorageError) (v : W)
      → IsOf id r
      → Answers id
          ((of_result (map_err (λ e. tinymcp.Error.store "looking a server up" (detail_of e)) r)
              >>= (λ found. done (decode_found found))
              >>= Rows.known ports id)
            v).0
  unfolding decode of_result ◌>>=◌ done fail
  found_of (err x) v h = tt
  found_of (ok none) v h = tt
  found_of (ok (some found)) v h = h

  keyed_of :
      (r : Result String StorageError) (w : W)
      → ports.doc_id id ≡ r
      → Answers id
          ((of_result (map_err (λ e. tinymcp.Error.store "building a document id" (detail_of e)) r)
              >>= (λ k.
                  run ports "looking a server up" (ports.servers.get k)
                  >>= (λ found. done (decode_found found)))
              >>= Rows.known ports id)
            w).0
  unfolding of_result ◌>>=◌ run
  keyed_of (ok k) w e =
      found_of (ports.servers.get k w).0 (ports.servers.get k w).1 (rows.named k w e)
  keyed_of (err x) w e = tt

  get_server-Answers : (w : W) → Answers id (Rows.get_server ports id w).0
  unfolding Rows.get_server Rows.find_server
  get_server-Answers w = keyed_of (ports.doc_id id) w refl

  -- The program's own store keeps the credentials where the storage and the transports do.
  pub session_store-KeepsValues :
      (base : Surroundings W) (registry : Registry W)
      → ((values : Map String) → PortsKeep ports (Holds values))
      → ((values : Map String) → TransportsKeep base.transports (Holds values))
      → KeepsValues
          (record base { store = session_store ports codec })
          (record registry {
            set_env_values = set_env_values ports codec;
            update_env_keys = Rows.update_env_keys ports;
            forget_cached_tools = ToolCache.forget_cached_tools ports;
          })
          id
          Holds
  unfolding session_store
  session_store-KeepsValues base registry keep transports = record {
    written = λ values w h. (set_env_values-load ports codec id secret own values w h).0;
    kept = λ values.
        session_store-KeptBy ports codec (Holds values) (keep values)
          (λ k at. update-Keeps values k _) base (transports values);
    forgotten = λ values. forget-Keeps ports (Holds values) (keep values) id;
    renamed = renamed;
    found = get_server-Answers;
  }

  -- With the program's own store over a storage that keeps the install's secret and its row, transports
  -- that change neither, so that no sign-in is refreshed meanwhile, and other tasks that leave the
  -- entries of the install alone: every outcome of replacing its credentials leaves in the secret
  -- store those that were loaded at the start merged with the new ones, also when it is disabled or
  -- does not connect again; it reports a connection just when there is a session, with its tools,
  -- and no session is left otherwise.
  pub update_env-stored :
      (base : Surroundings W) (registry : Registry W)
      (keep : (values : Map String) → PortsKeep ports (Holds values))
      (transports : (values : Map String) → TransportsKeep base.transports (Holds values))
      (leaves : Leaves id base.others) (server_id : String) (values : Map String)
      (s : Connections × W)
      → require_non_empty server_id "server_id" ≡ ok id
      → let env : Surroundings W = record base { store = session_store ports codec } in
        let stored : Registry W = record registry {
          set_env_values = set_env_values ports codec;
          update_env_keys = Rows.update_env_keys ports;
          forget_cached_tools = ToolCache.forget_cached_tools ports;
        } in
        Updated env stored id leaves Holds
          (session_store-KeepsValues base registry keep transports)
          (load_env_values ports codec id s.1).0
          values
          (update_env env stored server_id values s).0
          (update_env env stored server_id values s).1
  unfolding session_store
  update_env-stored base registry keep transports leaves server_id values s named =
      update_env-Updated _ _ id leaves Holds
        (session_store-KeepsValues base registry keep transports) server_id values s named
