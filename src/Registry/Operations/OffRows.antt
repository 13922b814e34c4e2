-- ===== src/Registry/Operations/OffRows.antt =====
-- crates/tinymcp/src/registry/store/types.rs under crates/tinymcp/src/registry/ops/types.rs: an install
-- that the program's own store has turned off stays off.
use tinymcp.Common.{
  ◌≡◌, ◌⊎◌, inl, inr, refl, sym, subst, false, Option, none, some, String, Result, ok, err, map_err,
  ◌∙◌, List, All, lookup,
}
use tinymcp.Common.Int.{ℤ}
use mathlib.Core.Bool.{true≢false}
use tinymcp.Common.Effects.{Keeps, of_result, done, fail, ◌>>=◌}
use tinymcp.Registry.Connections.{Surroundings, Connections}
use tinymcp.Registry.Connections.Entries.{Leaves}
use tinymcp.Registry.Connections.Outcome.{IsEnabled}
use tinymcp.Registry.Store.{
  StorageError, Versioned, ServerDoc, StoragePorts, run, decode, decode_found, detail_of,
}
use tinymcp.Registry.Store.Rows
use tinymcp.Registry.Store.Secrets.{EnvCodec, session_store}
use tinymcp.Registry.Store.ToolCache
use tinymcp.Registry.Operations.{Registry, InstalledServer, require_non_empty}
use tinymcp.Registry.Operations.Switching.{StaysOff, attempts, set_enabled-attempts}
use tinymcp.Registry.Operations.Changing.{set_enabled}
use tinymcp.Registry.Operations.Stored.{
  PortsKeep, TransportsKeep, session_store-KeptBy, forget-Keeps,
}

abbrev pub changed : (ServerDoc → ServerDoc) → Option ServerDoc → Option ServerDoc
changed change none = none
changed change (some doc) = some (change doc)

abbrev pub doc_of : Option (Versioned ServerDoc) → Option ServerDoc
doc_of none = none
doc_of (some row) = some row.doc

-- What a read of the row may tell.
abbrev pub IsTold : Option ServerDoc → Result (Option (Versioned ServerDoc)) StorageError → Type 0
IsTold row (ok found) = doc_of found ≡ row
IsTold row (err e) = Unit

-- `row` is the document of the install `id`: an update of any document changes it in that way or not
-- at all, one of its own that succeeds does, and a read tells it.
pub record IsRowOf {W : Type 0} (ports : StoragePorts W) (id : String) (row : W → Option ServerDoc)
    : Type 0 where
  pub updated :
      (k : String) (change : ServerDoc → ServerDoc) (w : W)
      → (row (ports.servers.update k change w).1 ≡ row w)
        ⊎ (row (ports.servers.update k change w).1 ≡ changed change (row w))
  pub applied :
      (k : String) (change : ServerDoc → ServerDoc) (w : W)
      → ports.doc_id id ≡ ok k
      → (ports.servers.update k change w).0 ≡ ok tt
      → row (ports.servers.update k change w).1 ≡ changed change (row w)
  pub read :
      (k : String) (w : W) → ports.doc_id id ≡ ok k → IsTold (row w) (ports.servers.get k w).0

-- No document, or one that is turned off.
abbrev pub IsOff : Option ServerDoc → Type 0
IsOff none = Unit
IsOff (some doc) = doc.enabled ≡ false

changed-IsOff :
    (change : ServerDoc → ServerDoc) (o : Option ServerDoc)
    → ((doc : ServerDoc) → doc.enabled ≡ false → (change doc).enabled ≡ false)
    → IsOff o
    → IsOff (changed change o)
changed-IsOff change none h off = tt
changed-IsOff change (some doc) h off = h doc off

turned-IsOff : (o : Option ServerDoc) → IsOff (changed (λ doc. record doc { enabled = false }) o)
turned-IsOff none = tt
turned-IsOff (some doc) = refl

module _ {W : Type 0} (ports : StoragePorts W) (codec : EnvCodec) (id : String)
    (row : W → Option ServerDoc) (own : IsRowOf ports id row) where
  abbrev pub Off : W → Type 0
  Off w = IsOff (row w)

  touch-Off :
      (k : String) (at : Option ℤ)
      → Keeps Off (ports.servers.update k (λ doc. record doc { last_connected_ms = at }))
  touch-Off k at = record {
    at = λ w off. elim (own.updated k (λ doc. record doc { last_connected_ms = at }) w) [
      | inl same ↦ subst IsOff (sym same) off
      | inr e ↦
          subst IsOff (sym e)
            (changed-IsOff (λ doc. record doc { last_connected_ms = at }) (row w) (λ doc h. h) off)
    ];
  }

  mapped :
      (f : StorageError → tinymcp.Error.Error) (r : Result (Unit {0}) StorageError)
      → map_err f r ≡ ok tt
      → r ≡ ok tt
  mapped f (ok u) e = refl
  mapped f (err x) e = cc

  keyed-Off :
      (r : Result String StorageError) (w : W)
      → ports.doc_id id ≡ r
      → let m =
          of_result (map_err (λ e. tinymcp.Error.store "building a document id" (detail_of e)) r)
          >>= λ k.
              run ports "updating a server's enabled flag"
                (ports.servers.update k (λ doc. record doc { enabled = false })) in
        (m w).0 ≡ ok tt → Off (m w).1
  unfolding of_result ◌>>=◌ run
  keyed-Off (ok k) w e h =
      subst IsOff (sym (own.applied k (λ doc. record doc { enabled = false }) w e (mapped _ _ h)))
        (turned-IsOff (row w))
  keyed-Off (err x) w e h = cc

  update_enabled-Off :
      (w : W)
      → (Rows.update_enabled ports id false w).0 ≡ ok tt
      → Off (Rows.update_enabled ports id false w).1
  unfolding Rows.update_enabled
  update_enabled-Off w h = keyed-Off (ports.doc_id id) w refl h

  found-Off :
      (r : Result (Option (Versioned ServerDoc)) StorageError) (w v : W)
      → IsTold (row w) r
      → Off w
      → IsEnabled
          ((of_result (map_err (λ e. tinymcp.Error.store "looking a server up" (detail_of e)) r)
              >>= (λ found. done (decode_found found))
              >>= Rows.known ports id)
            v).0
      → ⊥
  unfolding decode of_result ◌>>=◌ done fail
  found-Off (err x) w v told off h = h
  found-Off (ok none) w v told off h = h
  found-Off (ok (some found)) w v told off h = true≢false (sym h ∙ subst IsOff (sym told) off)

  keyed_told :
      (r : Result String StorageError) (w : W)
      → ports.doc_id id ≡ r
      → Off w
      → IsEnabled
          ((of_result (map_err (λ e. tinymcp.Error.store "building a document id" (detail_of e)) r)
              >>= (λ k.
                  run ports "looking a server up" (ports.servers.get k)
                  >>= (λ found. done (decode_found found)))
              >>= Rows.known ports id)
            w).0
      → ⊥
  unfolding of_result ◌>>=◌ run
  keyed_told (ok k) w e off h =
      found-Off (ports.servers.get k w).0 w (ports.servers.get k w).1 (own.read k w e) off h
  keyed_told (err x) w e off h = h

  get_server-Off : (w : W) → Off w → IsEnabled (Rows.get_server ports id w).0 → ⊥
  unfolding Rows.get_server Rows.find_server
  get_server-Off w off h = keyed_told (ports.doc_id id) w refl off h

  -- Where the calls that write no row keep the install turned off, so does the program's own store.
  pub session_store-StaysOff :
      (base : Surroundings W) (registry : Registry W)
      → PortsKeep ports Off
      → TransportsKeep base.transports Off
      → StaysOff
          (record base { store = session_store ports codec })
          (record registry {
            update_enabled = Rows.update_enabled ports;
            forget_cached_tools = ToolCache.forget_cached_tools ports;
          })
          id
          Off
  unfolding session_store
  session_store-StaysOff base registry keep transports = record {
    written = update_enabled-Off;
    kept = session_store-KeptBy ports codec Off keep touch-Off base transports;
    forgotten = forget-Keeps ports Off keep id;
    told = get_server-Off;
  }

  -- With the program's own store over a storage that does not touch the row outside of its updates,
  -- transports that do not touch it either, and other tasks that leave the entries of the install
  -- alone: once an install is turned off, it has no session, and no attempt to connect that follows
  -- brings one up, whatever record of the install it has read before.
  pub set_enabled-ends_sessions :
      (base : Surroundings W) (registry : Registry W)
      → PortsKeep ports Off
      → TransportsKeep base.transports Off
      → Leaves id base.others
      → (server_id : String) (l : List InstalledServer) (s : Connections × W)
      → require_non_empty server_id "server_id" ≡ ok id
      → All (λ (server : InstalledServer). server.server_id ≡ id) l
      → let env : Surroundings W = record base { store = session_store ports codec } in
        let stored : Registry W = record registry {
          update_enabled = Rows.update_enabled ports;
          forget_cached_tools = ToolCache.forget_cached_tools ports;
        } in
        (set_enabled env stored server_id false s).0 ≡ ok tt
        → lookup id (attempts env l (set_enabled env stored server_id false s).1).0.live ≡ none
  set_enabled-ends_sessions base registry keep transports leaves server_id l s named records
        succeeded =
      set_enabled-attempts _ _ id leaves Off (session_store-StaysOff base registry keep transports)
        server_id l s named records succeeded
