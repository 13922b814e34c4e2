-- ===== src/Tests/ArgsTests.antt =====
-- crates/tinymcp/src/server/args/mod.rs and crates/tinymcp/src/agent_tools/arguments.rs: a concrete
-- call.
use tinymcp.Common.{str_eq, err, ◌≡◌, refl, [], ◌∷◌, some, if◌then◌else◌, ok, err}
use tinymcp.Common.Chars.{trim}
use tinymcp.Common.Decimal.{decimal_from}
use tinymcp.Common.Int.{ℤ}
use tinymcp.AgentTools.Arguments.{normalize_tool_arguments}
use tinymcp.AgentTools.Arguments.Encoded.{fenced, encoded_object}
use tinymcp.Json.{Codec, end, object, string, Members, members_of, from_i64, array, list_items, get}
use tinymcp.Server.Declarations.{invalid_params}
use tinymcp.Server.Args.{
  required_non_empty_string_array, positive_u64_or_default, optional_positive_u64,
}
use tinymcp.Server.Args.Ranges.{accepted, number_or, optional_in, accepted_numbers}

abbrev arguments : Members
arguments = members_of (
    ("limit", from_i64 (ℤ.pos 7))
    ∷ ("query", string " cats ")
    ∷ ("tags", array (list_items (string "" ∷ string "a " ∷ [])))
    ∷ [])

accepted_numbers_example :
    (accepted (positive_u64_or_default arguments "limit" 10 50)
      ≡ number_or 10 50 (get "limit" arguments))
    × (accepted (optional_positive_u64 arguments "limit" 50)
        ≡ optional_in 50 (get "limit" arguments))
accepted_numbers_example = accepted_numbers arguments "limit" 10 50

two_tags : required_non_empty_string_array arguments "tags" ≡ ok ("a" ∷ [])
unfolding required_non_empty_string_array trim
two_tags = refl

too_many :
    positive_u64_or_default arguments "limit" 1 5
    ≡ err (invalid_params "argument `limit` must not exceed 5 (got 7)")
unfolding positive_u64_or_default decimal_from
too_many = refl

-- One text is known to the parser.
abbrev codec : Codec
codec = record {
  from_str = λ s. if str_eq s "{}" then ok (object end) else err "no JSON";
  to_string = λ v. "";
}

encoded_object_example :
    (normalize_tool_arguments codec (some (object end)) ≡ ok end)
    × (normalize_tool_arguments codec (some (string "{}")) ≡ ok end)
    × (normalize_tool_arguments codec (some (string (fenced "{}"))) ≡ ok end)
encoded_object_example = encoded_object codec end "{}" refl refl

in_a_fence : fenced "{}" ≡ "```json\n{}\n```"
in_a_fence = refl
