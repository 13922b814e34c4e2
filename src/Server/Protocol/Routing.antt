-- ===== src/Server/Protocol/Routing.antt =====
-- crates/tinymcp/src/server/protocol/mod.rs: which messages have an effect.
use tinymcp.Common.{
  ◌≡◌, refl, Bool, false, ◌&&◌, List, [], ◌∷◌, Option, none, some, String, if◌then◌else◌, is_some,
  arith,
}
use tinymcp.Json.{Value, null, bool, number, string, array, object, Members, Codec, get}
use tinymcp.Server.Declarations.{RequestHeaders}
use tinymcp.Server.Session.{ClientSession}
use tinymcp.Server.Protocol.{valid_request_id}
use tinymcp.Server.Protocol.Requests.{Handler}
use tinymcp.Server.Protocol.Messages.{
  is_text, text_at, handle_identified, handle_single_message, handle_each,
}

-- A request that is routed to a method: an object with a usable id, the version and a method.
abbrev has_id : Option Value → Bool
has_id none = false
has_id (some id) = valid_request_id id

abbrev pub is_request : Value → Bool
is_request (object m) =
    has_id (get "id" m) && is_text "2.0" (text_at "jsonrpc" m) && is_some (text_at "method" m)
is_request _ = false

abbrev pub requests : List Value → List Value
requests [] = []
requests (item ∷ items) = let rest = requests items in if is_request item then item ∷ rest else rest

module _ {S : Type 0} (json : Codec) (h : Handler S) (headers : RequestHeaders) where
  identified_without_method :
      (id : Option Value) (method : Option String) (m : Members) (w : ClientSession × S)
      → (has_id id && is_text "2.0" (text_at "jsonrpc" m) && is_some (text_at "method" m)) ≡ false
      → (handle_identified json h headers id m w).1 ≡ w
  identified_without_method none method m w no_request = refl
  identified_without_method (some id) method m w no_request = ground arith

  no_request-effect :
      (item : Value) (w : ClientSession × S)
      → is_request item ≡ false
      → (handle_single_message json h headers item w).1 ≡ w
  unfolding handle_single_message
  no_request-effect null w no_request = refl
  no_request-effect (bool b) w no_request = refl
  no_request-effect (number n) w no_request = refl
  no_request-effect (string s) w no_request = refl
  no_request-effect (array l) w no_request = refl
  no_request-effect (object m) w no_request =
      identified_without_method (get "id" m) (text_at "method" m) m w no_request

  -- The session and the handler's state after any messages are those after the requests among them
  -- alone: notifications, malformed messages and those without a usable id have no effect and do not
  -- reach the handler.
  pub handle_each-requests :
      (items : List Value) (w : ClientSession × S)
      → (handle_each json h headers items w).1 ≡ (handle_each json h headers (requests items) w).1
  unfolding handle_each
  handle_each-requests [] w = refl
  handle_each-requests (item ∷ items) w =
      let next = (handle_single_message json h headers item w).1 in
      ground (arith, handle_each-requests items next, no_request-effect item w)
