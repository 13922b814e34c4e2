-- ===== src/Server/Protocol/Messages.antt =====
-- crates/tinymcp/src/server/protocol/mod.rs: messages, batches and lines, and the line whose answer
-- is held under a limit of bytes.
use tinymcp.Common.{
  not, Bool, true, false, List, [], ◌∷◌, Option, none, some, String, str_eq, if◌then◌else◌,
  unwrap_or, Result, ok, err,
}
use tinymcp.Common.Options.{◌>>=◌}
use tinymcp.Json.{
  Value, null, string, array, nil, cons, Members, Codec, get, as_str, as_object, list_items,
  items_list,
}
use tinymcp.Server.Declarations.{RequestHeaders, parse_error}
use tinymcp.Server.Session.{ClientSession}
use tinymcp.Server.Protocol.{error_response, invalid, valid_request_id}
use tinymcp.Server.Protocol.Requests.{Handler, handle_request}

-- Whether a member is the text `s`.
abbrev pub is_text : String → Option String → Bool
is_text s none = false
is_text s (some t) = str_eq t s

abbrev pub text_at : String → Members → Option String
text_at key m = do v ← get key m; as_str v

-- `into_iter().collect()` of an answer, and pushing one.
abbrev pub push_some : Option Value → List Value → List Value
push_some none l = l
push_some (some v) l = v ∷ l

abbrev pub is_batch : Value → Bool
is_batch (array (cons _ _)) = true
is_batch _ = false

abbrev pub is_empty_batch : Value → Bool
is_empty_batch (array nil) = true
is_empty_batch _ = false

-- The messages of a line: a batch's, or the one.
abbrev pub messages : Value → List Value
messages (array (cons v items)) = v ∷ items_list items
messages other = other ∷ []

abbrev pub no_messages : Value
no_messages = invalid null "batch must not be empty"

module _ {S : Type 0} (json : Codec) (h : Handler S) (headers : RequestHeaders) where
  abbrev pub answered : Value × (ClientSession × S) → Option Value × (ClientSession × S)
  answered (response, w) = (some response, w)

  abbrev pub handle_method :
      Value → Option String → Members → ClientSession × S → Option Value × (ClientSession × S)
  handle_method id none m w = (some (invalid id "method must be a string"), w)
  handle_method id (some method) m w =
      answered (handle_request json h headers id method (unwrap_or (get "params" m) null) w)

  -- `handle_notification` only logs.
  abbrev pub handle_identified :
      Option Value → Members → ClientSession × S → Option Value × (ClientSession × S)
  handle_identified none m w = (none, w)
  handle_identified (some id) m w =
      if not (valid_request_id id)
      then (some (invalid null "id must be a string or integer"), w)
      else if not (is_text "2.0" (text_at "jsonrpc" m))
      then (some (invalid id "jsonrpc must be \"2.0\""), w)
      else handle_method id (text_at "method" m) m w

  abbrev pub handle_object : Option Members → ClientSession × S → Option Value × (ClientSession × S)
  handle_object none w = (some (invalid null "message must be a JSON object"), w)
  handle_object (some m) w = handle_identified (get "id" m) m w

  unfoldable pub handle_single_message :
      Value → ClientSession × S → Option Value × (ClientSession × S)
  handle_single_message value w = handle_object (as_object value) w

  unfoldable pub handle_each : List Value → ClientSession × S → List Value × (ClientSession × S)
  handle_each [] w = ([], w)
  handle_each (item ∷ items) w =
      let (response, w1) = handle_single_message item w in
      let (responses, w2) = handle_each items w1 in (push_some response responses, w2)

  unfoldable pub handle_value : Value → ClientSession × S → List Value × (ClientSession × S)
  handle_value value w =
      if is_empty_batch value then (no_messages ∷ [], w) else handle_each (messages value) w

  -- The answers of a line: an array when there are several or the line is a batch.
  abbrev pub frame : Bool → List Value → Option String
  frame batch [] = none
  frame true (v ∷ l) = some (json.to_string (array (list_items (v ∷ l))))
  frame false (v ∷ []) = some (json.to_string v)
  frame false (v ∷ u ∷ l) = some (json.to_string (array (list_items (v ∷ u ∷ l))))

  abbrev pub framed : Bool → List Value × (ClientSession × S) → Option String × (ClientSession × S)
  framed batch (l, w) = (frame batch l, w)

  abbrev pub handle_parsed :
      Result Value String → ClientSession × S → Option String × (ClientSession × S)
  handle_parsed (err e) w =
      (some (json.to_string (error_response null parse_error "Parse error" (some (string e)))), w)
  handle_parsed (ok value) w = framed (is_batch value) (handle_value value w)

  unfoldable pub handle_line : String → ClientSession × S → Option String × (ClientSession × S)
  unfolding handle_value handle_each handle_single_message
  handle_line line w = handle_parsed (json.from_str line) w
