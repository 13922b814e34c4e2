-- ===== src/Registry/Store/Inserting.antt =====
-- crates/tinymcp/src/registry/store/types.rs: an install that another one may race.
use tinymcp.Common.{
  ℕ, ◌≡◌, refl, subst, ap, ◌∙◌, Bool, true, false, Option, none, some, String, Result, ok, err,
  map_err,
}
use tinymcp.Common.Effects.{
  Effect, Keeps, keeps_rules, Yields, Yields-done, Yields-fail, Yields-bind, Yields-after,
  Yields-attempt, of_result, always, ◌>>=◌,
}
use tinymcp.Error.{Error}
use tinymcp.Registry.{
  InstalledServer, CommandKind, node, python, binary, Transport, stdio, http_remote, dispatch_kind,
  deployment_url,
}
use tinymcp.Registry.Store.{
  StorageError, conflict, failure, Versioned, Precondition, anything, absent, as_str, parse_kind,
  parse_transport, ServerDoc, encode, decode, NameClaim, StoragePorts, decode_first, run, key,
  is_own,
}
use tinymcp.Registry.Store.Claims.{
  seized, take_over, contend, after_claim, acquire_claim, confirm_claim, after_put, insert_claimed,
  insert_unnamed, claim_of, insert_server_if_absent_with_origin,
}

as_str-parse_kind : (kind : CommandKind) → parse_kind (as_str kind) ≡ kind
as_str-parse_kind node = refl
as_str-parse_kind python = refl
as_str-parse_kind binary = refl

parse-dispatch_kind : (t : Transport) → parse_transport (dispatch_kind t) (deployment_url t) ≡ t
parse-dispatch_kind stdio = refl
parse-dispatch_kind (http_remote url) = refl

-- The record that is written is read back as the install.
pub decode-encode :
    (server : InstalledServer) (managed : Bool) → decode (encode server managed) ≡ server
unfolding decode encode
decode-encode server managed =
    rw (as_str-parse_kind server.command_kind, parse-dispatch_kind server.transport) refl

-- What a write of the row leaves, and what a removal of it does.
abbrev pub Put : ServerDoc → Option ServerDoc → Result ℕ StorageError → Option ServerDoc → Type 0
Put doc before (ok version) after = after ≡ some doc
Put doc before (err e) after = after ≡ before

abbrev pub Removed : Result Bool StorageError → Option ServerDoc → Type 0
Removed (ok b) after = after ≡ none
Removed (err e) after = Unit

-- `row` is the row of one key: a write that succeeds puts its document there and one that fails leaves
-- it, a removal that succeeds takes it away, and every other call, with what other tasks do before it,
-- leaves it.
pub record IsOwnRow {W : Type 0} (ports : StoragePorts W) (key : String)
    (row : W → Option ServerDoc) : Type 0 where
  pub written :
      (doc : ServerDoc) (w : W)
      → Put doc
          (row w)
          (ports.servers.put_with key doc absent w).0
          (row (ports.servers.put_with key doc absent w).1)
  pub removed :
      (w : W)
      → Removed
          (ports.servers.delete key anything w).0
          (row (ports.servers.delete key anything w).1)
  pub named :
      (o : Option ServerDoc) (name : String) → Keeps (λ w. row w ≡ o) (ports.first_named name)
  pub got : (o : Option ServerDoc) (id : String) → Keeps (λ w. row w ≡ o) (ports.servers.get id)
  pub claim_got :
      (o : Option ServerDoc) (id : String) → Keeps (λ w. row w ≡ o) (ports.claims.get id)
  pub claimed :
      (o : Option ServerDoc) (id : String) (claim : NameClaim) (p : Precondition)
      → Keeps (λ w. row w ≡ o) (ports.claims.put_with id claim p)
  pub unclaimed :
      (o : Option ServerDoc) (id : String) (p : Precondition)
      → Keeps (λ w. row w ≡ o) (ports.claims.delete id p)
  pub clock : (w : W) → row (ports.now_ms w).1 ≡ row w

-- What an insertion says of the row of its install.
abbrev pub Inserted {ℓ} : {E : Type ℓ} → InstalledServer → Result Bool E → Option ServerDoc → Type 0
Inserted server (ok true) row = decode_first row ≡ some server
Inserted server (ok false) row = row ≡ none
Inserted server (err e) row = Unit

Keeps-always :
    {S E A : Type 0} {P : S → Type 0} (f : S → A × S)
    → ((s : S) → P s → P (f s).1)
    → Keeps {E = E} P (always f)
unfolding always
Keeps-always f h = record { at = h }

mapped :
    (server : InstalledServer) (f : StorageError → Error) (r : Result Bool StorageError)
    (o : Option ServerDoc)
    → Inserted server r o
    → Inserted server (map_err f r) o
mapped server f (ok true) o h = h
mapped server f (ok false) o h = h
mapped server f (err e) o h = tt

module _ {W : Type 0} (ports : StoragePorts W) (server_key : String) (row : W → Option ServerDoc)
    (own : IsOwnRow ports server_key row) where
  abbrev Row : Option ServerDoc → W → Type 0
  Row o w = row w ≡ o

  module _ (o : Option ServerDoc) where
    clock-Keeps : Keeps {E = StorageError} (Row o) (always ports.now_ms)
    clock-Keeps = Keeps-always ports.now_ms (λ w h. own.clock w ∙ h)

    seized-Keeps : (r : Result ℕ StorageError) → Keeps (Row o) (seized ports r)
    seized-Keeps (ok version) = search (keeps_rules) depth 16
    seized-Keeps (err (conflict s)) = search (keeps_rules) depth 16
    seized-Keeps (err (failure s)) = search (keeps_rules) depth 16

    take_over-Keeps :
        (claim_id : String) (claim : NameClaim) (held : Versioned NameClaim)
        (holder : Option (Versioned ServerDoc))
        → Keeps (Row o) (take_over ports claim_id claim held holder)
    take_over-Keeps claim_id claim held (some other) = search (keeps_rules) depth 16
    take_over-Keeps claim_id claim held none =
        search (keeps_rules, clock-Keeps, seized-Keeps, own.claimed o) depth 16

    contend-Keeps :
        (claim_id : String) (claim : NameClaim) (held : Option (Versioned NameClaim))
        → Keeps (Row o) (contend ports claim_id claim held)
    contend-Keeps claim_id claim none = search (keeps_rules) depth 16
    contend-Keeps claim_id claim (some held) =
        search (keeps_rules, take_over-Keeps, own.got o) depth 16

    after_claim-Keeps :
        (claim_id : String) (claim : NameClaim) (r : Result ℕ StorageError)
        → Keeps (Row o) (after_claim ports claim_id claim r)
    after_claim-Keeps claim_id claim (ok version) = search (keeps_rules) depth 16
    after_claim-Keeps claim_id claim (err (conflict s)) =
        search (keeps_rules, contend-Keeps, own.claim_got o) depth 16
    after_claim-Keeps claim_id claim (err (failure s)) = search (keeps_rules) depth 16

    acquire_claim-Keeps :
        (claim_id : String) (claim : NameClaim) → Keeps (Row o) (acquire_claim ports claim_id claim)
    unfolding acquire_claim
    acquire_claim-Keeps claim_id claim =
        search (keeps_rules, after_claim-Keeps, own.claimed o) depth 16

  module _ (server : InstalledServer) (managed : Bool) where
    abbrev Outcome : Result Bool StorageError → W → Type 0
    Outcome r w = Inserted server r (row w)

    abbrev written_doc : ServerDoc
    written_doc = encode server managed

    confirm_claim-Outcome :
        (held : Option (Versioned NameClaim))
        → Yields (Row (some written_doc)) Outcome (confirm_claim ports server_key held)
    confirm_claim-Outcome (some mine) =
        Yields-done true (λ w h. ap decode_first h ∙ ap some (decode-encode server managed))
    confirm_claim-Outcome none =
        Yields-bind (λ r w. Removed r (row w)) _ _ (record { at = λ w h. own.removed w })
          (λ b. Yields-done false (λ w h. h)) (λ e w h. tt)

    -- A failed write leaves no row, and a written one is confirmed.
    abbrev Wrote : Result ℕ StorageError → W → Type 0
    Wrote r w = Put written_doc none r (row w)

    after_put-Outcome :
        (id claim_id : String) (r : Result ℕ StorageError)
        → Yields (Wrote r) Outcome (after_put ports id server_key claim_id r)
    after_put-Outcome id claim_id (err e) =
        Yields-attempt (λ _ _. Unit) _ _ (record { at = λ w h. tt })
          (λ _. Yields-fail e (λ w h. tt))
    after_put-Outcome id claim_id (ok version) =
        Yields-after _ _ (own.claim_got (some written_doc) claim_id)
          (λ held. confirm_claim-Outcome (is_own id held)) (λ e w h. tt)

    insert_claimed-Outcome :
        (id claim_id : String) (mine : Bool)
        → Yields (Row none) Outcome (insert_claimed ports id server_key claim_id written_doc mine)
    insert_claimed-Outcome id claim_id false = Yields-done false (λ w h. h)
    insert_claimed-Outcome id claim_id true =
        Yields-attempt Wrote _ _
          (record {
            at = λ w h.
                subst
                  (λ b.
                    Put written_doc b (ports.servers.put_with server_key written_doc absent w).0
                      (row (ports.servers.put_with server_key written_doc absent w).1))
                  h (own.written written_doc w);
          })
          (after_put-Outcome id claim_id)

    insert_unnamed-Outcome :
        (claim_id : String) (claim : NameClaim) (existing : Option ServerDoc)
        → Yields
            (Row none)
            Outcome
            (insert_unnamed ports server_key claim_id written_doc claim existing)
    insert_unnamed-Outcome claim_id claim (some existing) = Yields-done false (λ w h. h)
    insert_unnamed-Outcome claim_id claim none =
        Yields-after _ _ (acquire_claim-Keeps none claim_id claim)
          (insert_claimed-Outcome claim.server_id claim_id) (λ e w h. tt)

    run-Outcome :
        (action : String) (m : Effect W StorageError Bool)
        → Yields (Row none) Outcome m
        → Yields
            (Row none)
            (λ (r : Result Bool Error) w. Inserted server r (row w))
            (run ports action m)
    unfolding run
    run-Outcome action m y = record { at = λ w h. mapped server _ (m w).0 (row (m w).1) (y.at w h) }

    named-Outcome :
        (now : ℕ)
        → Yields
            (Row none)
            (λ (r : Result Bool Error) w. Inserted server r (row w))
            (of_result (key ports server.qualified_name) >>= λ claim_id.
              run ports "inserting a server if absent" (
                ports.first_named server.qualified_name
                >>= insert_unnamed ports server_key claim_id written_doc
                    (claim_of ports server now)))
    named-Outcome now =
        Yields-after _ _ (search (keeps_rules) depth 16)
          (λ claim_id. run-Outcome _ _ (
            Yields-after _ _ (own.named none server.qualified_name)
              (insert_unnamed-Outcome claim_id (claim_of ports server now)) (λ e w h. tt)))
          (λ e w h. tt)

    -- However installs of one name race, and whatever takes their claims over: an insertion that
    -- reports success leaves the row of its install, which is read back as that install; one that
    -- reports that the name is taken leaves no row of its own, also when it had written one.
    pub insert-Inserted :
        (w : W)
        → ports.doc_id server.server_id ≡ ok server_key
        → row w ≡ none
        → let r = insert_server_if_absent_with_origin ports server managed w in
          Inserted server r.0 (row r.1)
    unfolding insert_server_if_absent_with_origin ◌>>=◌ of_result always
    insert-Inserted w e h =
        rw e ((named-Outcome (ports.now_ms w).0).at (ports.now_ms w).1 (own.clock w ∙ h))
