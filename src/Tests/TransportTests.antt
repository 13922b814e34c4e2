-- ===== src/Tests/TransportTests.antt =====
-- crates/tinymcp/src/transport/http/sse.rs: a stream that arrives in two parts.
use tinymcp.Common.{◌≡◌, refl, true, ◌++◌, none, str_eq, if◌then◌else◌, ok, err}
use tinymcp.Common.Chars.{chars}
use tinymcp.Json.{bool, Codec}
use tinymcp.Transport.Sse.{first_complete_sse_data, first_response}
use tinymcp.Transport.Sse.Early.{Keeps, first_complete_sse_data-Keeps}

-- One text is known to the parser.
abbrev codec : Codec
codec = record {
  from_str = λ s. if str_eq s "true" then ok (bool true) else err "no JSON";
  to_string = λ v. "";
}

first_complete_sse_data-Keeps_example :
    Keeps codec (bool true) (
      first_complete_sse_data codec (chars ": hi\r\ndata: true\r\n\r\ndata: fa" ++ chars "lse\n\n"))
unfolding first_complete_sse_data first_response
first_complete_sse_data-Keeps_example =
    first_complete_sse_data-Keeps codec (chars ": hi\r\ndata: true\r\n\r\ndata: fa")
      (chars "lse\n\n") (bool true) refl

half_an_event : first_complete_sse_data codec (chars "data: true\ndata: tr") ≡ ok none
unfolding first_complete_sse_data
half_an_event = refl
