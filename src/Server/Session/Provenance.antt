-- ===== src/Server/Session/Provenance.antt =====
-- crates/tinymcp/src/server/session/mod.rs: which client a session is attributed to, over its life.
use tinymcp.Common.{◌≡◌, refl, List, [], ◌∷◌, some, String, arith}
use tinymcp.Json.{Value}
use tinymcp.Server.Session.{
  ClientSession, new, observe_initialize_params, observe_initialize_response, source_type,
  client_name, locked,
}

-- What a session is told: the params of an `initialize`, and the version that it was answered.
pub data Told : Type 0 where
  params : Value → Told
  version : String → Told

unfoldable pub told : Told → ClientSession → ClientSession
told (params p) s = observe_initialize_params p s
told (version v) s = observe_initialize_response v s

unfoldable pub all_told : List Told → ClientSession → ClientSession
all_told [] s = s
all_told (t ∷ l) s = all_told l (told t s)

keeps_attribution :
    (l : List Told) (s : ClientSession) (source : String)
    → s.client_source_type ≡ some source
    → source_type (all_told l s) ≡ source
unfolding all_told told observe_initialize_params observe_initialize_response source_type
keeps_attribution [] s source h = ground arith
keeps_attribution (params p ∷ l) s source h =
    keeps_attribution l (observe_initialize_params p s) source (ground arith)
keeps_attribution (version v ∷ l) s source h =
    keeps_attribution l (observe_initialize_response v s) source (ground arith)

-- However often a client initializes, a new session is attributed for good to what its first
-- `initialize` named, under the session's prefix, and to the prefix alone when that named nobody;
-- before it, to the prefix alone.
pub first_initialize_wins :
    (prefix : String) (p : Value) (l : List Told)
    → (source_type (new prefix) ≡ prefix)
      × (source_type (all_told l (observe_initialize_params p (new prefix)))
          ≡ locked prefix (client_name p))
unfolding new source_type observe_initialize_params
first_initialize_wins prefix p l = (
  refl,
  keeps_attribution l (observe_initialize_params p (new prefix)) (locked prefix (client_name p))
      refl,
)
