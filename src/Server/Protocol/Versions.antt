-- ===== src/Server/Protocol/Versions.antt =====
-- crates/tinymcp/src/server/protocol/mod.rs: the negotiation of the version of the protocol.
use tinymcp.Common.{
  ◌≡◌, refl, Bool, true, false, contains, Option, none, some, String, if◌then◌else◌, if_split,
  unwrap_or, ap, ◌∙◌, arith,
}
use tinymcp.Common.Options.{◌>>=◌}
use tinymcp.Json.{Value, string, object, Members, Codec, get, get_in, as_str, insert, end}
use tinymcp.Json.Laws.{get-insert}
use tinymcp.Server.Declarations.{RequestHeaders, ServerInfo, insert_some}
use tinymcp.Server.Session.{ClientSession, observe_initialize_params, observe_initialize_response}
use tinymcp.Server.Protocol.{
  latest_protocol_version, supported_protocol_versions, negotiated, initialize_result, with_prompts,
  success_response, envelope, instructions_value, initialize_members, set_in,
}
use tinymcp.Server.Protocol.Requests.{Handler, observe_result, observe_version, handle_request}

-- The version that a client asks for, when it names one.
abbrev pub requested : Value → Option String
requested params = do v ← get_in "protocolVersion" params; as_str v

abbrev pub chosen : Option String → String
chosen none = latest_protocol_version
chosen (some v) = if contains supported_protocol_versions v then v else latest_protocol_version

negotiated-chosen : (params : Value) → negotiated params ≡ chosen (requested params)
unfolding negotiated
negotiated-chosen params = ground arith

chosen-supported : (o : Option String) → contains supported_protocol_versions (chosen o) ≡ true
chosen-supported none = refl
chosen-supported (some v) =
    if_split (λ x. contains supported_protocol_versions x ≡ true)
      (contains supported_protocol_versions v) (λ h. h) (λ _. refl)

-- Neither the instructions nor the capabilities are the version.
version_beside_instructions :
    (o : Option Value) (m : Members)
    → get "protocolVersion" (insert_some "instructions" o m) ≡ get "protocolVersion" m
version_beside_instructions none m = refl
version_beside_instructions (some v) m = get-insert "instructions" "protocolVersion" v m

version_beside_capabilities :
    (c v : Value) (m : Members)
    → get "protocolVersion" m ≡ some v
    → get "protocolVersion" (insert "capabilities" c m) ≡ some v
version_beside_capabilities c v m h = get-insert "capabilities" "protocolVersion" c m ∙ h

result-version :
    (info : ServerInfo) (prompts : Bool) (params : Value)
    → get_in "protocolVersion" (
        if prompts
        then with_prompts (initialize_result info params)
        else initialize_result info params)
      ≡ some (string (negotiated params))
unfolding initialize_result
result-version info false params =
    version_beside_instructions (instructions_value info.instructions)
      (initialize_members info params)
result-version info true params =
    let result = initialize_result info params in
    let prompts =
      set_in "prompts" (object end) (unwrap_or (get_in "capabilities" result) (object end)) in
    version_beside_capabilities prompts (string (negotiated params))
      (insert_some "instructions" (instructions_value info.instructions)
        (initialize_members info params))
      (version_beside_instructions (instructions_value info.instructions)
        (initialize_members info params))

observe_result-chosen :
    (result : Value) (v : String) (session : ClientSession)
    → get_in "protocolVersion" result ≡ some (string v)
    → observe_result result session ≡ observe_initialize_response v session
observe_result-chosen result v session h = ap (observe_version session) h

module _ {S : Type 0} (json : Codec) (h : Handler S) (headers : RequestHeaders) where
  -- What an `initialize` leaves: the version that was chosen is in the result, and in the session.
  pub record IsNegotiated (params : Value) (s : S) (x : Value × (ClientSession × S)) : Type 0 where
    pub in_result :
        (get_in "result" x.0 >>= get_in "protocolVersion")
        ≡ some (string (chosen (requested params)))
    pub in_session : x.1.0.protocol_version ≡ some (chosen (requested params))
    pub initialized : x.1.0.initialized ≡ true
    pub supported : contains supported_protocol_versions (chosen (requested params)) ≡ true
    pub kept : x.1.1 ≡ s

  -- An `initialize` is answered with a supported version, the one that the client asks for when it is
  -- supported and else the latest. The session records just that version and that it is initialized,
  -- and the state of the handler stays.
  pub handle_request-IsNegotiated :
      (id params : Value) (session : ClientSession) (s : S)
      → IsNegotiated params s (handle_request json h headers id "initialize" params (session, s))
  unfolding handle_request observe_initialize_response success_response envelope
  handle_request-IsNegotiated id params session s =
      let is_chosen = negotiated-chosen params in
      let prompts = h.supports_prompts s in
      let info = h.server_info s in
      let observed =
        observe_result-chosen (initialize_result info params) (negotiated params)
          (observe_initialize_params params session) (result-version info false params) in
      record {
        in_result = result-version info prompts params ∙ ap (λ v. some (string v)) is_chosen;
        in_session = ap (λ x. x.protocol_version) observed ∙ ap some is_chosen;
        initialized = ap (λ x. x.initialized) observed;
        supported = chosen-supported (requested params);
        kept = refl;
      }
