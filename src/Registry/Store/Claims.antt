-- ===== src/Registry/Store/Claims.antt =====
-- crates/tinymcp/src/registry/store/types.rs: inserting a server under a claim on its name.
use tinymcp.Common.{
  ℕ, ◌-◌, ltb, Bool, true, false, Option, none, some, String, if◌then◌else◌, Result, ok, err,
}
use tinymcp.Common.Effects.{Effect, done, fail, of_result, always, attempt, ◌>>=◌, ◌>>◌}
use tinymcp.Error.{Error}
use tinymcp.Registry.{InstalledServer}
use tinymcp.Registry.Store.{
  StorageError, conflict, failure, Versioned, anything, absent, unchanged, ServerDoc, NameClaim,
  StoragePorts, encode, is_own, run, key, claim_lease_ms,
}

module _ {W : Type 0} (ports : StoragePorts W) where
  open ports use {servers, claims, tool_cache, doc_id, now_ms}

  -- The claim is taken over when its version is still the one that was read.
  abbrev pub seized : Result ℕ StorageError → Effect W StorageError Bool
  seized (ok version) = done true
  seized (err (conflict s)) = done false
  seized (err (failure s)) = fail (failure s)

  abbrev pub seize_after : ℕ → String → NameClaim → Versioned NameClaim → Effect W StorageError Bool
  seize_after now claim_id claim held =
      if ltb (now - held.doc.claimed_ms) claim_lease_ms
      then done false
      else do put ← attempt (claims.put_with claim_id claim (unchanged held.version)); seized put

  abbrev pub take_over :
      String
      → NameClaim
      → Versioned NameClaim
      → Option (Versioned ServerDoc)
      → Effect W StorageError Bool
  take_over claim_id claim held (some row) = done false
  take_over claim_id claim held none = do now ← always now_ms; seize_after now claim_id claim held

  abbrev pub contend :
      String → NameClaim → Option (Versioned NameClaim) → Effect W StorageError Bool
  contend claim_id claim none = done false
  contend claim_id claim (some held) = do
    id ← of_result (doc_id held.doc.server_id)
    holder ← servers.get id
    take_over claim_id claim held holder

  abbrev pub after_claim : String → NameClaim → Result ℕ StorageError → Effect W StorageError Bool
  after_claim claim_id claim (ok version) = done true
  after_claim claim_id claim (err (conflict s)) = do
    held ← claims.get claim_id
    contend claim_id claim held
  after_claim claim_id claim (err (failure s)) = fail (failure s)

  unfoldable pub acquire_claim : String → NameClaim → Effect W StorageError Bool
  acquire_claim claim_id claim = do
    put ← attempt (claims.put_with claim_id claim absent)
    after_claim claim_id claim put

  -- Only a claim that is still this install's, at the version that was read, is given up.
  abbrev pub give_up : String → Option (Versioned NameClaim) → Effect W StorageError Bool
  give_up claim_id none = done false
  give_up claim_id (some own) = claims.delete claim_id (unchanged own.version)

  abbrev pub release : String → String → Effect W StorageError Bool
  release id claim_id = do held ← claims.get claim_id; give_up claim_id (is_own id held)

  -- Another installer may have taken the claim over before the row was written.
  abbrev pub confirm_claim : String → Option (Versioned NameClaim) → Effect W StorageError Bool
  confirm_claim server_key (some own) = done true
  confirm_claim server_key none = do servers.delete server_key anything; done false

  abbrev pub after_put :
      String → String → String → Result ℕ StorageError → Effect W StorageError Bool
  after_put id server_key claim_id (err e) = do attempt (release id claim_id); fail e
  after_put id server_key claim_id (ok version) = do
    held ← claims.get claim_id
    confirm_claim server_key (is_own id held)

  abbrev pub insert_claimed :
      String → String → String → ServerDoc → Bool → Effect W StorageError Bool
  insert_claimed id server_key claim_id doc false = done false
  insert_claimed id server_key claim_id doc true = do
    put ← attempt (servers.put_with server_key doc absent)
    after_put id server_key claim_id put

  abbrev pub insert_unnamed :
      String → String → ServerDoc → NameClaim → Option ServerDoc → Effect W StorageError Bool
  insert_unnamed server_key claim_id doc claim (some existing) = done false
  insert_unnamed server_key claim_id doc claim none = do
    mine ← acquire_claim claim_id claim
    insert_claimed claim.server_id server_key claim_id doc mine

  abbrev pub claim_of : InstalledServer → ℕ → NameClaim
  claim_of server now = record {
    qualified_name = server.qualified_name;
    server_id = server.server_id;
    claimed_ms = now;
  }

  unfoldable pub insert_server_if_absent_with_origin : InstalledServer → Bool → Effect W Error Bool
  unfolding acquire_claim encode
  insert_server_if_absent_with_origin server catalog_managed = do
    now ← always now_ms
    server_key ← of_result (key ports server.server_id)
    claim_id ← of_result (key ports server.qualified_name)
    run ports "inserting a server if absent" (do
      existing ← ports.first_named server.qualified_name
      insert_unnamed server_key claim_id (encode server catalog_managed) (claim_of server now)
          existing)

  unfoldable pub insert_server : InstalledServer → Effect W Error ℕ
  unfolding run
  insert_server server = do
    id ← of_result (key ports server.server_id)
    run ports "inserting a server" (servers.put_with id (encode server false) absent)
