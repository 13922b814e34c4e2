-- ===== src/Tests/ServerTests.antt =====
-- crates/tinymcp/src/server: concrete messages, a handler with one tool that counts its calls, and a
-- printer.
use Prim.Native.String.{◌++◌}
use tinymcp.Common.{
  ℕ, ◌+◌, ◌≡◌, refl, ap, true, false, List, [], ◌∷◌, none, some, String, ok, err, str_eq,
  if◌then◌else◌,
}
use tinymcp.Common.Chars.{trim}
use tinymcp.AgentTools.Arguments.{normalize_tool_arguments}
use tinymcp.Common.Int.{ℤ}
use tinymcp.Json.{
  Value, null, bool, number, string, array, object, Items, nil, cons, Members, end, field, Codec,
  object_of, list_items, from_i64,
}
use tinymcp.Server.Declarations.{RequestHeaders, resource_not_found, internal}
use tinymcp.Server.Session.{
  ClientSession, normalize_client_name, new, observe_initialize_params, source_type, locked,
  client_name,
}
use tinymcp.Server.Session.Slugs.{IsNormal, normalize_client_name-IsNormal}
use tinymcp.Server.Session.Provenance.{params, version, all_told, first_initialize_wins}
use tinymcp.Server.Protocol.Requests.{Handler, call_tool, handle_request}
use tinymcp.Server.Protocol.Messages.{handle_single_message, handle_each, handle_value, handle_line}
use tinymcp.Server.Protocol.Bounded.{handle_line_bounded}
use tinymcp.Server.Protocol.Answers.{AreResponses, expected_ids, handle_value-AreResponses}
use tinymcp.Server.Protocol.Routing.{requests, handle_each-requests}
use tinymcp.Server.Protocol.Versions.{IsNegotiated, handle_request-IsNegotiated}
use tinymcp.Server.Protocol.Limits.{rest_of}
use tinymcp.Server.Protocol.Agreement.{Agrees, PrintsArrays, handle_line_bounded-Agrees}

mutual
  print : Value → String
  print null = "null"
  print (bool true) = "true"
  print (bool false) = "false"
  print (number n) = "0"
  print (string s) = "\"" ++ (s ++ "\"")
  print (array nil) = "[]"
  print (array (cons v items)) = "[" ++ (print v ++ (print_rest items ++ "]"))
  print (object m) = "{" ++ (print_members m ++ "}")

  print_rest : Items → String
  print_rest nil = ""
  print_rest (cons v items) = "," ++ (print v ++ print_rest items)

  print_members : Members → String
  print_members end = ""
  print_members (field key v m) = key ++ (":" ++ (print v ++ (";" ++ print_members m)))

abbrev ping : ℕ → Value
ping n =
    object_of
      (("jsonrpc", string "2.0") ∷ ("id", from_i64 (ℤ.pos n)) ∷ ("method", string "ping") ∷ [])

abbrev call : Value
call = object_of (
    ("jsonrpc", string "2.0")
    ∷ ("id", string "c")
    ∷ ("method", string "tools/call")
    ∷ ("params", object_of (("name", string " count ") ∷ []))
    ∷ [])

abbrev notification : Value
notification =
    object_of (("jsonrpc", string "2.0") ∷ ("method", string "notifications/initialized") ∷ [])

abbrev batch : Value
batch = array (list_items (ping 1 ∷ notification ∷ null ∷ call ∷ []))

-- Two lines are known to the parser.
abbrev codec : Codec
codec = record {
  from_str = λ s. if str_eq s "batch" then ok batch else err "no JSON";
  to_string = print;
}

abbrev no_headers : RequestHeaders
no_headers = record { entries = [] }

abbrev counting : Handler ℕ
counting = record {
  server_info = λ s. record { name = "counter"; version = "1"; instructions = none };
  supports_prompts = λ s. false;
  list_tools_result = λ ctx s. (ok [], s);
  call_tool = λ ctx name arguments s. (ok (object end), s + 1);
  list_prompts = λ ctx s. (ok null, s);
  get_prompt = λ ctx name arguments s. (err (internal "no prompts"), s);
  read_resource_context = λ ctx uri s. (err (resource_not_found uri), s);
  list_resources = λ s. [];
}

abbrev session : ClientSession
session = record {
  prefix = "mcp";
  client_source_type = none;
  initialized = false;
  protocol_version = none;
}

print_rest-rest_of : (l : List Value) → print_rest (list_items l) ≡ rest_of codec l
unfolding print_rest print
print_rest-rest_of [] = refl
print_rest-rest_of (v ∷ l) = ap (λ r. "," ++ (print v ++ r)) (print_rest-rest_of l)

codec-PrintsArrays : PrintsArrays codec counting no_headers 1000
unfolding print print_rest
codec-PrintsArrays [] = refl
codec-PrintsArrays (v ∷ l) = ap (λ r. "[" ++ (print v ++ (r ++ "]"))) (print_rest-rest_of l)

handle_value-AreResponses_example :
    AreResponses (expected_ids batch) (handle_value codec counting no_headers batch (session, 0)).0
handle_value-AreResponses_example =
    handle_value-AreResponses codec counting no_headers batch (session, 0)

handle_each-requests_example :
    (handle_each codec counting no_headers (notification ∷ call ∷ []) (session, 0)).1
    ≡ (handle_each codec counting no_headers (requests (notification ∷ call ∷ [])) (session, 0)).1
handle_each-requests_example =
    handle_each-requests codec counting no_headers (notification ∷ call ∷ []) (session, 0)

abbrev asks_old_version : Value
asks_old_version = object_of (("protocolVersion", string "2025-03-26") ∷ [])

handle_request-IsNegotiated_example : IsNegotiated codec counting no_headers asks_old_version 0 (
    handle_request codec counting no_headers
      (string "i")
      "initialize"
      asks_old_version
      (session, 0))
handle_request-IsNegotiated_example =
    handle_request-IsNegotiated codec counting no_headers (string "i") asks_old_version session 0

handle_line_bounded-Agrees_example :
    Agrees codec counting no_headers 1000
      (handle_line_bounded codec counting no_headers 1000 "batch" (session, 0))
      (handle_line codec counting no_headers "batch" (session, 0))
handle_line_bounded-Agrees_example =
    handle_line_bounded-Agrees codec counting no_headers 1000 codec-PrintsArrays "batch"
      (session, 0)

abbrev claude : Value
claude = object_of (("clientInfo", object_of (("name", string " Claude  Desktop! ") ∷ [])) ∷ [])

normalize_client_name-IsNormal_example : IsNormal (normalize_client_name " Claude  Desktop! ")
normalize_client_name-IsNormal_example = normalize_client_name-IsNormal " Claude  Desktop! "

first_initialize_wins_example :
    (source_type (new "mcp") ≡ "mcp")
    × (source_type (
          all_told
            (version "2025-11-25" ∷ params null ∷ [])
            (observe_initialize_params claude (new "mcp")))
        ≡ locked "mcp" (client_name claude))
first_initialize_wins_example =
    first_initialize_wins "mcp" claude (version "2025-11-25" ∷ params null ∷ [])

claude_desktop : normalize_client_name " Claude  Desktop! " ≡ some "claude-desktop"
unfolding normalize_client_name trim
claude_desktop = refl

-- The call reaches the handler, the notification and the malformed message do not.
counted_once : (handle_value codec counting no_headers batch (session, 0)).1.1 ≡ 1
unfolding handle_value handle_request handle_each handle_single_message call_tool trim
    normalize_tool_arguments
counted_once = refl
