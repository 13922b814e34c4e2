-- ===== src/Tests/SetupTests.antt =====
-- The guided setup, the startup pass and the store at concrete inputs, of
-- crates/tinymcp/src/registry.
use tinymcp.Common.{
  ◌≡◌, refl, true, false, List, [], ◌∷◌, Option, none, some, lookup, ok, err, String, Map, Result,
  arith, if◌then◌else◌, eq_iff, str_eq, ◌&&◌, not,
}
use tinymcp.Common.Effects.{◌>>=◌}
use tinymcp.Registry.Setup.{SecretRef, SecretVault, submit, resolve, consume, no_such_handle}
use tinymcp.Registry.Setup.Holding.{Call, calls, sweeping, resolving, Holds}
use tinymcp.Registry.Setup.Answers.{answered_once}
use tinymcp.Registry.Operations.Setup.{Desk, setup_test_connection}
use tinymcp.Registry.Operations.Testing.{LeavesBoth, Both, setup_test_connection-Keeps}
use tinymcp.Registry.Store.{
  StoragePorts, Collection, ServerDoc, NameClaim, ToolCacheDoc, env_secret_name,
}
use tinymcp.Registry.Store.Claims.{insert_server_if_absent_with_origin}
use tinymcp.Registry.Store.Inserting.{IsOwnRow, Inserted, insert-Inserted}
use tinymcp.Registry.Store.Secrets.{
  EnvCodec, IsOwnSecret, Loaded, SecretHolds, set_env_values, load_env_values, set_env_values-load,
}
use tinymcp.Error.{Error, malformed_response}
use tinymcp.Tests.RegistryWorld.{World, demo, env, registry, start, empty}

abbrev handle : SecretRef
handle = "secret://0123456789ab"

abbrev asked : SecretVault
asked =
    (handle, record { key_name = "API_KEY"; value = none; last_touched = 50; waiter = true }) ∷ []

abbrev later_calls : List Call
later_calls = sweeping 200 ∷ resolving (("API_KEY", handle) ∷ []) 300 ∷ []

answered_once_example :
    let answered = submit handle "key" 100 asked in
    let later = calls later_calls answered.1 in
    (answered.0 ≡ true)
    × (submit handle "other" 400 later ≡ (false, later))
    × ((resolve (("API_KEY", handle) ∷ []) 400 later).0 ≡ ok (("API_KEY", "key") ∷ []))
    × ((consume (("API_KEY", handle) ∷ []) 400 later).0 ≡ ok (("API_KEY", "key") ∷ []))
    × ((resolve (("API_KEY", handle) ∷ []) 400 (consume (("API_KEY", handle) ∷ []) 400 later).1).0
        ≡ err (no_such_handle handle))
unfolding lookup
answered_once_example =
    answered_once handle "key" 100 "API_KEY" "other" 400 asked later_calls refl refl

abbrev desk : Desk World
desk = record {
  new_hex = λ w. ("0123456789abcdef", w);
  clock = λ w. (200, w);
  other_vault = λ w v. v;
}

abbrev answered_vault : SecretVault
answered_vault =
    (
      handle,
      record { key_name = "API_KEY"; value = some "key"; last_touched = 100; waiter = false },
    )
    ∷ []

untouched : LeavesBoth (λ c. c ≡ empty) handle "key" 100 env desk
untouched = record { sessions = λ w c p. p; secrets = λ w v p. p; onwards = λ w. refl }

answered-Holds : Holds "key" 100 (lookup handle answered_vault)
unfolding lookup
answered-Holds = (refl, refl)

setup_test_connection-Keeps_example :
    Both
      (λ c. c ≡ empty)
      handle
      "key"
      100
      env
      registry
      desk
      untouched
      (setup_test_connection env registry desk "demo"
        (("API_KEY", handle) ∷ [])
        (answered_vault, start)).1
setup_test_connection-Keeps_example =
    setup_test_connection-Keeps (λ c. c ≡ empty) handle "key" 100 env registry desk untouched "demo"
      (("API_KEY", handle) ∷ []) (answered_vault, start) (answered-Holds, refl)

-- A store with one row, whose claims are always free.
abbrev Row : Type 0
Row = Option ServerDoc

abbrev one_row : Collection Row ServerDoc
one_row = record {
  get = λ id w. (ok none, w);
  put_with = λ id doc p w. (ok 1, some doc);
  delete = λ id p w. (ok true, none);
  update = λ id change w. (ok tt, w);
}

abbrev pub nothing_kept : (W D : Type 0) → Collection W D
nothing_kept W D = record {
  get = λ id w. (ok none, w);
  put_with = λ id doc p w. (ok 1, w);
  delete = λ id p w. (ok false, w);
  update = λ id change w. (ok tt, w);
}

abbrev ports : StoragePorts Row
ports = record {
  servers = one_row;
  claims = nothing_kept Row NameClaim;
  tool_cache = nothing_kept Row ToolCacheDoc;
  first_named = λ name w. (ok none, w);
  first_installed = λ name w. (ok none, w);
  all_installed = λ w. (ok [], w);
  get_secret = λ name w. (ok none, w);
  set_secret = λ name bytes w. (ok tt, w);
  delete_secret = λ name w. (ok false, w);
  doc_id = λ part. ok part;
  now_ms = λ w. (1000, w);
  keyed_fingerprint = λ text. text;
}

own_row : IsOwnRow ports "s1" (λ w. w)
own_row = record {
  written = λ doc w. refl;
  removed = λ w. refl;
  named = λ o name. record { at = λ w p. p };
  got = λ o id. record { at = λ w p. p };
  claim_got = λ o id. record { at = λ w p. p };
  claimed = λ o id claim p. record { at = λ w q. q };
  unclaimed = λ o id p. record { at = λ w q. q };
  clock = λ w. refl;
}

insert-Inserted_example :
    let r = insert_server_if_absent_with_origin ports (demo true "s1") true none in
    Inserted (demo true "s1") r.0 r.1
insert-Inserted_example =
    insert-Inserted ports "s1" (λ w. w) own_row (demo true "s1") true none refl refl

-- Credentials of at most one name, coded as the text of its value.
abbrev code_one : Map String → Result String Error
code_one [] = ok "{}"
code_one ((name, value) ∷ []) =
    if str_eq name "API_KEY" && not (str_eq value "{}")
    then ok value
    else err (malformed_response "not one name")
code_one (x ∷ y ∷ l) = err (malformed_response "not one name")

abbrev decode_one : String → Result (Map String) Error
decode_one bytes = if str_eq bytes "{}" then ok [] else ok (("API_KEY", bytes) ∷ [])

abbrev pub one_codec : EnvCodec
one_codec = record { to_vec = code_one; from_slice = decode_one }

pub decode-code :
    (values : Map String) (bytes : String)
    → code_one values ≡ ok bytes
    → decode_one bytes ≡ ok values
decode-code [] bytes h = ground (arith, eq_iff bytes "{}")
decode-code ((name, value) ∷ []) bytes h = ground (arith, eq_iff name "API_KEY", eq_iff value "{}")
decode-code (x ∷ y ∷ l) bytes h = ground arith

pub code-empty : (values : Map String) → code_one values ≡ ok "{}" → values ≡ []
code-empty [] h = refl
code-empty ((name, value) ∷ []) h = ground (arith, eq_iff name "API_KEY", eq_iff value "{}")
code-empty (x ∷ y ∷ l) h = ground arith

-- Ports whose world is one secret.
abbrev secret_ports : StoragePorts (Option String)
secret_ports = record {
  servers = nothing_kept (Option String) ServerDoc;
  claims = nothing_kept (Option String) NameClaim;
  tool_cache = nothing_kept (Option String) ToolCacheDoc;
  first_named = λ name w. (ok none, w);
  first_installed = λ name w. (ok none, w);
  all_installed = λ w. (ok [], w);
  get_secret = λ name w. (ok w, w);
  set_secret = λ name bytes w. (ok tt, some bytes);
  delete_secret = λ name w. (ok true, none);
  doc_id = λ part. ok part;
  now_ms = λ w. (1000, w);
  keyed_fingerprint = λ text. text;
}

own_secret : IsOwnSecret secret_ports one_codec (env_secret_name "s1") (λ w. w)
own_secret = record {
  set = λ bytes w. refl;
  unset = λ w. refl;
  read = λ w. refl;
  decodes = decode-code;
  empties = code-empty;
}

abbrev pub credentials : Map String
credentials = ("API_KEY", "key") ∷ []

set_env_values-load_example :
    let stored = (set_env_values secret_ports one_codec "s1" credentials none).1 in
    SecretHolds secret_ports one_codec "s1" (λ w. w) own_secret credentials stored
    × Loaded credentials (load_env_values secret_ports one_codec "s1" stored).0
unfolding set_env_values ◌>>=◌
set_env_values-load_example =
    set_env_values-load secret_ports one_codec "s1" (λ w. w) own_secret credentials none refl
