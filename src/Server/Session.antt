-- ===== src/Server/Session.antt =====
-- crates/tinymcp/src/server/session/mod.rs: which client a session's acts are attributed to. The
-- text under construction is the list of its characters, the last one first.
pub mod Provenance
pub mod Slugs
use tinymcp.Common.{
  Bool, true, false, ◌&&◌, not, List, [], ◌∷◌, Option, none, some, String, if◌then◌else◌, unwrap_or,
  is_some, ◌==◌,
}
use tinymcp.Common.Chars.{chars, text_of, trim, is_ascii_alphanumeric, to_ascii_lowercase}
use tinymcp.Json.{Value, get_in, as_str}
use Prim.Native.Char.{Char, code}
use Prim.Native.String.{char_at, ◌++◌}
use tinymcp.Common.Options.{◌>>=◌}

pub record ClientSession : Type 0 where
  pub prefix : String
  pub client_source_type : Option String
  pub initialized : Bool
  pub protocol_version : Option String

unfoldable pub new : String → ClientSession
new prefix = record {
  prefix = prefix;
  client_source_type = none;
  initialized = false;
  protocol_version = none;
}

unfoldable pub observe_initialize_response : String → ClientSession → ClientSession
observe_initialize_response version s = record s {
  initialized = true;
  protocol_version = some version;
}

-- `ServerSessionMetadata`.
pub record ServerSessionMetadata : Type 0 where
  pub initialized : Bool
  pub protocol_version : Option String

unfoldable pub metadata : ClientSession → ServerSessionMetadata
metadata s = record { initialized = s.initialized; protocol_version = s.protocol_version }

abbrev pub dash : Char
dash = char_at "-" 0

abbrev pub is_nil : List Char → Bool
is_nil [] = true
is_nil (_ ∷ _) = false

-- One round of the loop over the characters, on `(normalized, previous_was_separator)`.
abbrev pub push_char : Char → List Char × Bool → List Char × Bool
push_char c (normalized, separated) =
    if is_ascii_alphanumeric c
    then (to_ascii_lowercase c ∷ normalized, false)
    else (if not (is_nil normalized) && not separated
        then (dash ∷ normalized, true)
        else (normalized, separated))

unfoldable pub push_all : List Char → List Char × Bool → List Char × Bool
push_all [] n = n
push_all (c ∷ l) n = push_all l (push_char c n)

-- `while normalized.ends_with('-') { normalized.pop(); }`.
unfoldable pub pop_dashes : List Char → List Char
pop_dashes [] = []
pop_dashes (c ∷ l) = let rest = pop_dashes l in if code c == code dash then rest else c ∷ l

abbrev pub reverse_onto : List Char → List Char → List Char
reverse_onto [] l = l
reverse_onto (c ∷ r) l = reverse_onto r (c ∷ l)

abbrev pub unless_empty : List Char → Option String
unless_empty [] = none
unless_empty (c ∷ r) = some (text_of (reverse_onto (c ∷ r) []))

unfoldable pub normalize_client_name : String → Option String
unfolding push_all pop_dashes
normalize_client_name raw = unless_empty (pop_dashes (push_all (chars (trim raw)) ([], false)).0)

-- `params.get("clientInfo").and_then(..)` up to the normalized name.
unfoldable pub client_name : Value → Option String
client_name params = do
  info ← get_in "clientInfo" params
  name ← get_in "name" info
  raw ← as_str name
  normalize_client_name raw

-- The source type that an `initialize` locks in.
abbrev pub locked : String → Option String → String
locked prefix none = prefix
locked prefix (some name) = prefix ++ (":" ++ name)

unfoldable pub observe_initialize_params : Value → ClientSession → ClientSession
unfolding client_name
observe_initialize_params params s =
    if is_some s.client_source_type
    then s
    else record s { client_source_type = some (locked s.prefix (client_name params)) }

unfoldable pub source_type : ClientSession → String
source_type s = unwrap_or s.client_source_type s.prefix
