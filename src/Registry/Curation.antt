-- ===== src/Registry/Curation.antt =====
-- crates/tinymcp/src/registry/curation/types.rs: the curated servers and the order of a search. The
-- names of the curated servers, a table of servers.rs, are an argument.
use tinymcp.Common.{
  ℕ, ◌-◌, ◌&&◌, not, Bool, false, List, [], ◌∷◌, length, Option, none, some, String, str_eq,
  contains, if◌then◌else◌,
}
use tinymcp.Common.Chars.{trim}
use tinymcp.Registry.{RegistryServerSummary}

pub data CuratedTransport : Type 0 where
  streamable_http sse : CuratedTransport

abbrev pub connection_type : CuratedTransport → String
connection_type streamable_http = "http"
connection_type sse = "sse"

abbrev pub is_named : List String → RegistryServerSummary → Bool
is_named names server = contains names server.qualified_name

-- What a catalog says of itself is overwritten.
unfoldable pub tag_official : List String → List RegistryServerSummary → List RegistryServerSummary
tag_official names [] = []
tag_official names (server ∷ l) =
    record server { official = is_named names server } ∷ tag_official names l

abbrev pub has_text : Option String → Bool
has_text none = false
has_text (some url) = not (str_eq (trim url) "")

abbrev pub is_text : String → Option String → Bool
is_text kind none = false
is_text kind (some s) = str_eq s kind

unfoldable pub is_perfect_server : RegistryServerSummary → Bool
is_perfect_server server = has_text server.website_url && is_text "api_key" server.auth_kind

unfoldable pub retained : List RegistryServerSummary → List RegistryServerSummary
unfolding is_perfect_server
retained [] = []
retained (server ∷ l) =
    let rest = retained l in if is_perfect_server server then server ∷ rest else rest

unfoldable pub retain_perfect_servers : List RegistryServerSummary → ℕ × List RegistryServerSummary
unfolding retained
retain_perfect_servers servers = (length servers - length (retained servers), retained servers)

-- The stable sort by `!official`: a server goes before those of the same key that come after it.
unfoldable pub place_official :
    RegistryServerSummary → List RegistryServerSummary → List RegistryServerSummary
place_official server [] = server ∷ []
place_official server (x ∷ l) =
    let rest = place_official server l in
    if not server.official && x.official then x ∷ rest else server ∷ x ∷ l

unfoldable pub float_official_first : List RegistryServerSummary → List RegistryServerSummary
unfolding place_official
float_official_first [] = []
float_official_first (server ∷ l) = place_official server (float_official_first l)

-- The servers whose name is in the list, or is not, tagged so, in their order.
unfoldable pub named_of :
    Bool → List String → List RegistryServerSummary → List RegistryServerSummary
named_of wanted names [] = []
named_of wanted names (server ∷ l) =
    let rest = named_of wanted names l in
    if (if wanted then is_named names server else not (is_named names server))
    then record server { official = wanted } ∷ rest
    else rest
