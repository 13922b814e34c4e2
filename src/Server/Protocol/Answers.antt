-- ===== src/Server/Protocol/Answers.antt =====
-- crates/tinymcp/src/server/protocol/mod.rs: what a client gets back.
use tinymcp.Common.{
  ◌≡◌, refl, true, false, ◌&&◌, not, List, [], ◌∷◌, Option, none, some, String, str_eq,
  if◌then◌else◌, if_split, is_some, Result, ok, err, unwrap_or,
}
use tinymcp.Common.Int.{ℤ}
use tinymcp.Json.{Value, null, bool, number, string, array, object, Members, Codec, get, get_in}
use tinymcp.Server.Declarations.{ToolCallError, RequestHeaders, RequestContext}
use tinymcp.Server.Session.{ClientSession}
use tinymcp.Server.Protocol.{
  envelope, success_response, error_response, handler_response, invalid, valid_request_id,
}
use tinymcp.Server.Protocol.Requests.{
  Handler, get_named_prompt, get_prompt, read_uri, read_resource, call_parsed, call_tool,
  handle_request, context,
}
use tinymcp.Server.Protocol.Messages.{
  is_text, text_at, push_some, is_empty_batch, messages, no_messages, handle_method,
  handle_identified, handle_single_message, handle_each, handle_value,
}

-- A JSON-RPC response to the request `id`: it carries a result or an error, and not both.
pub record IsResponse (id response : Value) : Type 0 where
  pub version : get_in "jsonrpc" response ≡ some (string "2.0")
  pub addressed : get_in "id" response ≡ some id
  pub exclusive : is_some (get_in "result" response) ≡ not (is_some (get_in "error" response))

success-IsResponse : (id result : Value) → IsResponse id (success_response id result)
unfolding success_response envelope
success-IsResponse id result = record { version = refl; addressed = refl; exclusive = refl }

error-IsResponse :
    (id : Value) (code : ℤ) (text : String) (detail : Option Value)
    → IsResponse id (error_response id code text detail)
unfolding error_response envelope
error-IsResponse id code text detail = record { version = refl; addressed = refl; exclusive = refl }

handler-IsResponse :
    (id : Value) (r : Result Value ToolCallError) → IsResponse id (handler_response id r)
handler-IsResponse id (ok v) = success-IsResponse id v
handler-IsResponse id (err e) = error-IsResponse id _ _ _

module _ {S : Type 0} (json : Codec) (h : Handler S) where
  get_named_prompt-IsResponse :
      (ctx : RequestContext) (id : Value) (name : Option String) (given : Option Members) (s : S)
      → IsResponse id (get_named_prompt json h ctx id name given s).0
  get_named_prompt-IsResponse ctx id none given s = error-IsResponse id _ _ _
  get_named_prompt-IsResponse ctx id (some name) none s = error-IsResponse id _ _ _
  get_named_prompt-IsResponse ctx id (some name) (some m) s = handler-IsResponse id _

  read_uri-IsResponse :
      (ctx : RequestContext) (id : Value) (uri : Option String) (s : S)
      → IsResponse id (read_uri json h ctx id uri s).0
  read_uri-IsResponse ctx id none s = error-IsResponse id _ _ _
  read_uri-IsResponse ctx id (some uri) s = handler-IsResponse id _

  call_parsed-IsResponse :
      (ctx : RequestContext) (id : Value) (parsed : Result (String × Members) String) (s : S)
      → IsResponse id (call_parsed json h ctx id parsed s).0
  call_parsed-IsResponse ctx id (err what) s = error-IsResponse id _ _ _
  call_parsed-IsResponse ctx id (ok (name, m)) s = handler-IsResponse id _

  -- Whatever the method, its answer is a response to the request.
  handle_request-IsResponse :
      (headers : RequestHeaders) (id : Value) (method : String) (params : Value)
      (w : ClientSession × S)
      → IsResponse id (handle_request json h headers id method params w).0
  unfolding handle_request get_prompt read_resource call_tool
  handle_request-IsResponse headers id method params (session, s) =
      let P : Value × (ClientSession × S) → Type 0 = λ x. IsResponse id x.0 in
      let ctx = context json h session headers in
      if_split P (str_eq method "initialize") (λ _. success-IsResponse id _)
        (λ _.
          if_split P (str_eq method "ping") (λ _. success-IsResponse id _)
            (λ _.
              if_split P (str_eq method "tools/list") (λ _. handler-IsResponse id _)
                (λ _.
                  if_split P (str_eq method "resources/list") (λ _. success-IsResponse id _)
                    (λ _.
                      if_split P (str_eq method "resources/templates/list")
                        (λ _. success-IsResponse id _)
                        (λ _.
                          if_split P (str_eq method "resources/read")
                            (λ _. read_uri-IsResponse ctx id _ s)
                            (λ _.
                              if_split P (str_eq method "prompts/list" && h.supports_prompts s)
                                (λ _. handler-IsResponse id _)
                                (λ _.
                                  if_split P (str_eq method "prompts/get" && h.supports_prompts s)
                                    (λ _. get_named_prompt-IsResponse ctx id _ _ s)
                                    (λ _.
                                      if_split P (str_eq method "tools/call")
                                        (λ _. call_parsed-IsResponse ctx id _ s)
                                        (λ _. error-IsResponse id _ _ _)))))))))

-- The id under which a message is answered: its own, `null` when it has no usable one or is no
-- object, and none for a notification.
abbrev pub id_answered : Option Value → Option Value
id_answered none = none
id_answered (some id) = some (if valid_request_id id then id else null)

abbrev pub reply_id : Value → Option Value
reply_id (object m) = id_answered (get "id" m)
reply_id _ = some null

abbrev pub reply_ids : List Value → List Value
reply_ids [] = []
reply_ids (item ∷ items) = push_some (reply_id item) (reply_ids items)

abbrev pub expected_ids : Value → List Value
expected_ids value = if is_empty_batch value then null ∷ [] else reply_ids (messages value)

-- Responses to ids, one to each and in their order.
abbrev pub AreResponses : List Value → List Value → Type 0
AreResponses [] [] = Unit
AreResponses [] (_ ∷ _) = ⊥
AreResponses (_ ∷ _) [] = ⊥
AreResponses (id ∷ ids) (response ∷ l) = IsResponse id response × AreResponses ids l

-- The answer of one message, under the id it is expected to have.
abbrev IsAnswer : Option Value → Option Value → Type 0
IsAnswer none none = Unit
IsAnswer none (some _) = ⊥
IsAnswer (some _) none = ⊥
IsAnswer (some id) (some response) = IsResponse id response

push_some-AreResponses :
    (o r : Option Value) (ids l : List Value)
    → IsAnswer o r
    → AreResponses ids l
    → AreResponses (push_some o ids) (push_some r l)
push_some-AreResponses none none ids l a b = b
push_some-AreResponses (some id) (some v) ids l a b = (a, b)
push_some-AreResponses none (some v) ids l a b = absurd a
push_some-AreResponses (some id) none ids l a b = absurd a

module _ {S : Type 0} (json : Codec) (h : Handler S) (headers : RequestHeaders) where
  handle_method-IsAnswer :
      (id : Value) (method : Option String) (m : Members) (w : ClientSession × S)
      → IsAnswer (some id) (handle_method json h headers id method m w).0
  handle_method-IsAnswer id none m w = error-IsResponse id _ _ _
  handle_method-IsAnswer id (some method) m w =
      handle_request-IsResponse json h headers id method (unwrap_or (get "params" m) null) w

  abbrev Answers : Option Value → Option Value × (ClientSession × S) → Type 0
  Answers id x = IsAnswer id x.0

  handle_identified-IsAnswer :
      (id : Option Value) (m : Members) (w : ClientSession × S)
      → IsAnswer (id_answered id) (handle_identified json h headers id m w).0
  handle_identified-IsAnswer none m w = tt
  handle_identified-IsAnswer (some id) m w =
      let unidentified = invalid null "id must be a string or integer" in
      let rest =
        if not (is_text "2.0" (text_at "jsonrpc" m))
        then (some (invalid id "jsonrpc must be \"2.0\""), w)
        else handle_method json h headers id (text_at "method" m) m w in
      elim (valid_request_id id)
        as (λ b.
          IsAnswer (some (if b then id else null))
            (if not b then (some unidentified, w) else rest).0) [
              | false ↦ error-IsResponse null _ _ _
              | true ↦
                  if_split (Answers (some id)) (not (is_text "2.0" (text_at "jsonrpc" m)))
                    (λ _. error-IsResponse id _ _ _)
                    (λ _. handle_method-IsAnswer id (text_at "method" m) m w)
            ]

  handle_single_message-IsAnswer :
      (item : Value) (w : ClientSession × S)
      → IsAnswer (reply_id item) (handle_single_message json h headers item w).0
  unfolding handle_single_message
  handle_single_message-IsAnswer null w = error-IsResponse null _ _ _
  handle_single_message-IsAnswer (bool b) w = error-IsResponse null _ _ _
  handle_single_message-IsAnswer (number n) w = error-IsResponse null _ _ _
  handle_single_message-IsAnswer (string s) w = error-IsResponse null _ _ _
  handle_single_message-IsAnswer (array l) w = error-IsResponse null _ _ _
  handle_single_message-IsAnswer (object m) w = handle_identified-IsAnswer (get "id" m) m w

  handle_each-AreResponses :
      (items : List Value) (w : ClientSession × S)
      → AreResponses (reply_ids items) (handle_each json h headers items w).0
  unfolding handle_each
  handle_each-AreResponses [] w = tt
  handle_each-AreResponses (item ∷ items) w =
      let answered = handle_single_message json h headers item w in
      push_some-AreResponses (reply_id item) answered.0 (reply_ids items)
        (handle_each json h headers items answered.1).0 (handle_single_message-IsAnswer item w)
        (handle_each-AreResponses items answered.1)

  -- A message or a batch gets one response for each of its messages that is no notification, in
  -- their order: the version is "2.0", the id is the request's, or `null` when that one is not
  -- usable, and there is either a result or an error. An empty batch gets one, to `null`.
  pub handle_value-AreResponses :
      (value : Value) (w : ClientSession × S)
      → AreResponses (expected_ids value) (handle_value json h headers value w).0
  unfolding handle_value
  handle_value-AreResponses value w =
      elim (is_empty_batch value)
        as (λ b.
          AreResponses (if b then null ∷ [] else reply_ids (messages value))
            (if b
              then (no_messages ∷ [], w)
              else handle_each json h headers (messages value) w).0) [
                | true ↦ (error-IsResponse null _ _ _, tt)
                | false ↦ handle_each-AreResponses (messages value) w
              ]
