-- ===== src/Registry/Store/Secrets.antt =====
-- crates/tinymcp/src/registry/store/types.rs: the credentials of an install, one secret of the host's
-- secret store, and the store that the sessions call.
use tinymcp.Common.{
  ◌≡◌, refl, sym, ap, ◌∙◌, Bool, [], Option, none, some, String, Map, str_eq, if◌then◌else◌,
  if_split, Result, ok, err, map_err, subst, eq_iff, arith,
}
use tinymcp.Common.Effects.{
  Effect, done, of_result, ◌>>=◌, ◌>>◌, resume, Yields, Yields-bind, Yields-done,
}
use tinymcp.Error.{Error}
use tinymcp.Registry.Connections.{SessionStore}
use tinymcp.Registry.Store.{StorageError, StoragePorts, env_secret_name, run, detail_of}
use tinymcp.Registry.Store.Rows.{get_server, list_servers, is_catalog_server, touch_last_connected}
use tinymcp.Registry.Store.ToolCache.{put_cached_tools}

-- `serde_json::to_vec` and `from_slice` of a map of texts.
pub record EnvCodec : Type 0 where
  pub to_vec : Map String → Result String Error
  pub from_slice : String → Result (Map String) Error

abbrev pub decoded : EnvCodec → Option String → Result (Map String) Error
decoded codec none = ok []
decoded codec (some bytes) = codec.from_slice bytes

module _ {W : Type 0} (ports : StoragePorts W) (codec : EnvCodec) where
  -- An empty map is no secret.
  abbrev pub store_bytes : String → String → Effect W StorageError (Unit {0})
  store_bytes name bytes =
      if str_eq bytes "{}"
      then (do ports.delete_secret name; done tt)
      else ports.set_secret name bytes

  unfoldable pub set_env_values : String → Map String → Effect W Error (Unit {0})
  unfolding run
  set_env_values server_id env = do
    bytes ← of_result (codec.to_vec env)
    run ports "storing credentials" (store_bytes (env_secret_name server_id) bytes)

  unfoldable pub load_env_values : String → Effect W Error (Map String)
  unfolding run
  load_env_values server_id = do
    bytes ← run ports "loading credentials" (ports.get_secret (env_secret_name server_id))
    of_result (decoded codec bytes)

  unfoldable pub session_store : SessionStore W
  unfolding load_env_values get_server list_servers is_catalog_server touch_last_connected
      put_cached_tools
  session_store = record {
    get_server = get_server ports;
    list_servers = list_servers ports;
    is_catalog_server = is_catalog_server ports;
    load_env_values = load_env_values;
    touch_last_connected = touch_last_connected ports;
    put_cached_tools =
        λ id fingerprint tools. (do put_cached_tools ports id fingerprint tools; done tt);
  }

-- What the secret store says of one secret.
abbrev pub IsWritten : String → Result (Unit {0}) StorageError → Option String → Type 0
IsWritten bytes (ok t) secret = secret ≡ some bytes
IsWritten bytes (err e) secret = Unit

abbrev pub IsDeleted : Result Bool StorageError → Option String → Type 0
IsDeleted (ok b) secret = secret ≡ none
IsDeleted (err e) secret = Unit

abbrev pub IsRead : Option String → Result (Option String) StorageError → Type 0
IsRead secret (ok bytes) = bytes ≡ secret
IsRead secret (err e) = Unit

-- `secret` is the secret of one name, which only its own calls change; and a map of texts is coded as
-- bytes that decode to it, as `{}` only when it is empty.
pub record IsOwnSecret {W : Type 0} (ports : StoragePorts W) (codec : EnvCodec) (name : String)
    (secret : W → Option String) : Type 0 where
  pub set :
      (bytes : String) (w : W)
      → IsWritten bytes (ports.set_secret name bytes w).0 (secret (ports.set_secret name bytes w).1)
  pub unset :
      (w : W) → IsDeleted (ports.delete_secret name w).0 (secret (ports.delete_secret name w).1)
  pub read : (w : W) → IsRead (secret w) (ports.get_secret name w).0
  pub decodes :
      (values : Map String) (bytes : String)
      → codec.to_vec values ≡ ok bytes
      → codec.from_slice bytes ≡ ok values
  pub empties : (values : Map String) → codec.to_vec values ≡ ok "{}" → values ≡ []

-- What is read when it can be read.
abbrev pub Loaded : Map String → Result (Map String) Error → Type 0
Loaded values (ok loaded) = loaded ≡ values
Loaded values (err e) = Unit

module _ {W : Type 0} (ports : StoragePorts W) (codec : EnvCodec) (server_id : String)
    (secret : W → Option String) (own : IsOwnSecret ports codec (env_secret_name server_id) secret)
    (values : Map String) where
  abbrev pub SecretHolds : W → Type 0
  SecretHolds w = decoded codec (secret w) ≡ ok values

  abbrev Stored {ℓ} : {E : Type ℓ} → Result (Unit {0}) E → W → Type 0
  Stored (ok t) w = SecretHolds w
  Stored (err e) w = Unit

  set-Stored :
      (bytes : String) (r : Result (Unit {0}) StorageError) (w : W)
      → codec.from_slice bytes ≡ ok values
      → IsWritten bytes r (secret w)
      → Stored r w
  set-Stored bytes (ok t) w d h = ap (decoded codec) h ∙ d
  set-Stored bytes (err e) w d h = tt

  store_bytes-Stored :
      (bytes : String)
      → codec.to_vec values ≡ ok bytes
      → Yields (λ _. Unit) Stored (store_bytes ports codec (env_secret_name server_id) bytes)
  store_bytes-Stored bytes e =
      if_split (λ (m : Effect W StorageError (Unit {0})). Yields (λ _. Unit) Stored m)
        (str_eq bytes "{}")
        (λ f.
          let same : bytes ≡ "{}" = ground (arith, eq_iff bytes "{}") in
          Yields-bind (λ r w. IsDeleted r (secret w)) _ _ (record { at = λ w h. own.unset w })
            (λ b.
              Yields-done tt
                (λ w h. ap (decoded codec) h ∙ ap ok (sym (own.empties values (e ∙ ap ok same)))))
            (λ e w h. tt))
        (λ _. record {
          at = λ w h.
              set-Stored bytes (ports.set_secret (env_secret_name server_id) bytes w).0
                (ports.set_secret (env_secret_name server_id) bytes w).1
                (own.decodes values bytes e) (own.set bytes w);
        })

  mapped :
      (f : StorageError → Error) (r : Result (Unit {0}) StorageError) (w : W)
      → Stored r w
      → Stored (map_err f r) w
  mapped f (ok t) w h = h
  mapped f (err e) w h = tt

  coded-Stored :
      (r : Result String Error)
      → codec.to_vec values ≡ r
      → Yields
          (λ _. Unit)
          Stored
          (of_result r >>= λ bytes.
            run ports "storing credentials"
              (store_bytes ports codec (env_secret_name server_id) bytes))
  unfolding of_result ◌>>=◌ run
  coded-Stored (ok bytes) e = record {
    at = λ w h. mapped _ _ _ ((store_bytes-Stored bytes e).at w tt);
  }
  coded-Stored (err x) e = record { at = λ w h. tt }

  read-Loaded :
      (r : Result (Option String) StorageError) (w v : W)
      → SecretHolds w
      → IsRead (secret w) r
      → Loaded values
          (resume
            (λ bytes. of_result (decoded codec bytes))
            (map_err (λ e. tinymcp.Error.store "loading credentials" (detail_of e)) r)
            v).0
  unfolding of_result
  read-Loaded (ok bytes) w v holds h = rw (ap (decoded codec) h ∙ holds) refl
  read-Loaded (err e) w v holds h = tt

  -- Credentials that are stored, of none or of some, are in the secret store and are what is loaded
  -- when it can be read.
  pub set_env_values-load :
      (w : W)
      → (set_env_values ports codec server_id values w).0 ≡ ok tt
      → let stored = (set_env_values ports codec server_id values w).1 in
        SecretHolds stored × Loaded values (load_env_values ports codec server_id stored).0
  unfolding set_env_values load_env_values run ◌>>=◌
  set_env_values-load w e =
      let stored = (set_env_values ports codec server_id values w).1 in
      let holds : SecretHolds stored =
        subst (λ r. Stored r stored) e ((coded-Stored (codec.to_vec values) refl).at w tt) in
      (
        holds,
        read-Loaded (ports.get_secret (env_secret_name server_id) stored).0 stored _ holds
            (own.read stored),
      )
