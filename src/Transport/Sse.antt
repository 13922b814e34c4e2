-- ===== src/Transport/Sse.antt =====
-- crates/tinymcp/src/transport/http/sse.rs: the bodies of event streams, read as lists of characters.
pub mod Early
pub mod Arriving
pub mod Boundary
use Prim.Native.Char.{Char, code}
use Prim.Native.String.{◌++◌, char_at}
use mathlib.Core.List.{◌++◌ as append}
use tinymcp.Common.{
  Bool, true, false, ◌&&◌, not, List, [], ◌∷◌, map, Option, none, some, String, if◌then◌else◌, ◌==◌,
  is_some, Result, ok, err, ◌>>=◌, ◌||◌,
}
use tinymcp.Common.Chars.{chars, text_of, trim_start}
use tinymcp.Error.{Error, malformed_response}
use tinymcp.Json.{Value, Codec, get_in}
use tinymcp.AgentTools.Arguments.{strip_prefix}

-- `McpSseEvent`.
pub record McpSseEvent : Type 0 where
  pub event : Option String
  pub id : Option String
  pub payload : Option Value

pub record PendingEvent : Type 0 where
  pub pending_event : Option String
  pub pending_id : Option String
  pub data_lines : List (List Char)

abbrev pub no_event : PendingEvent
no_event = record { pending_event = none; pending_id = none; data_lines = [] }

abbrev pub is_char : Char → Char → Bool
is_char c d = code c == code d

abbrev pub newline : Char
newline = char_at "\n" 0

abbrev pub return : Char
return = char_at "\r" 0

-- `str::lines`; what it does with a `\r` is left to `without_returns`.
abbrev pub put_first : Char → List (List Char) → List (List Char)
put_first c [] = (c ∷ []) ∷ []
put_first c (line ∷ rest) = (c ∷ line) ∷ rest

unfoldable pub lines : List Char → List (List Char)
lines [] = []
lines (c ∷ l) = let rest = lines l in if is_char c newline then [] ∷ rest else put_first c rest

-- `trim_end_matches('\r')`.
abbrev pub unless_return : Char → List Char → List Char
unless_return c [] = if is_char c return then [] else c ∷ []
unless_return c (d ∷ l) = c ∷ d ∷ l

unfoldable pub without_returns : List Char → List Char
without_returns [] = []
without_returns (c ∷ l) = unless_return c (without_returns l)

abbrev pub set_event :
    Option (List Char) → (PendingEvent → PendingEvent) → PendingEvent → PendingEvent
set_event none other p = other p
set_event (some value) other p = record p { pending_event = some (text_of (trim_start value)) }

abbrev pub set_id : Option (List Char) → (PendingEvent → PendingEvent) → PendingEvent → PendingEvent
set_id none other p = other p
set_id (some value) other p = record p { pending_id = some (text_of (trim_start value)) }

abbrev pub add_line : List (List Char) → List Char → List (List Char)
add_line [] line = line ∷ []
add_line (l ∷ rest) line = l ∷ add_line rest line

abbrev pub add_data : Option (List Char) → PendingEvent → PendingEvent
add_data none p = p
add_data (some value) p = record p { data_lines = add_line p.data_lines (trim_start value) }

abbrev pub is_comment : List Char → Bool
is_comment [] = false
is_comment (c ∷ l) = is_char c (char_at ":" 0)

-- The effect of a line that is not blank.
unfoldable pub take_line : List Char → PendingEvent → PendingEvent
unfolding strip_prefix trim_start
take_line line p =
    if is_comment line
    then p
    else set_event (strip_prefix (chars "event:") line)
        (set_id (strip_prefix (chars "id:") line) (add_data (strip_prefix (chars "data:") line))) p

-- `join("\n")`.
unfoldable pub join_lines : List (List Char) → List Char
join_lines [] = []
join_lines (l ∷ []) = l
join_lines (l ∷ m ∷ rest) = append l (newline ∷ join_lines (m ∷ rest))

module _ (json : Codec) where
  abbrev pub parse_data : String → Result Value String → Result (Option Value) Error
  parse_data joined (ok value) = ok (some value)
  parse_data joined (err e) =
      err (malformed_response ("sse data frame is not json: " ++ (e ++ (" — " ++ joined))))

  abbrev pub data_of : List (List Char) → Result (Option Value) Error
  data_of [] = ok none
  data_of (l ∷ rest) =
      let joined = text_of (join_lines (l ∷ rest)) in parse_data joined (json.from_str joined)

  abbrev pub has_lines : List (List Char) → Bool
  has_lines [] = false
  has_lines (_ ∷ _) = true

  abbrev pub is_pending : PendingEvent → Bool
  is_pending p = is_some p.pending_event || is_some p.pending_id || has_lines p.data_lines

  -- `flush_into`: the events it pushes. What is pending is reset.
  abbrev pub event_of : PendingEvent → Result (Option Value) Error → Result (List McpSseEvent) Error
  event_of p (err e) = err e
  event_of p (ok payload) =
      ok (record { event = p.pending_event; id = p.pending_id; payload = payload } ∷ [])

  unfoldable pub flush : PendingEvent → Result (List McpSseEvent) Error
  unfolding join_lines
  flush p = if is_pending p then event_of p (data_of p.data_lines) else ok []

  abbrev pub then_events :
      Result (List McpSseEvent) Error
      → Result (List McpSseEvent) Error
      → Result (List McpSseEvent) Error
  then_events (err e) r = err e
  then_events (ok l) (err e) = err e
  then_events (ok l) (ok m) = ok (append l m)

  -- The loop over the lines, and the flush after it.
  unfoldable pub parse_lines : List (List Char) → PendingEvent → Result (List McpSseEvent) Error
  unfolding flush take_line
  parse_lines [] p = flush p
  parse_lines ([] ∷ rest) p = then_events (flush p) (parse_lines rest no_event)
  parse_lines ((c ∷ l) ∷ rest) p = parse_lines rest (take_line (c ∷ l) p)

  unfoldable pub parse_sse_events : List Char → Result (List McpSseEvent) Error
  unfolding parse_lines lines without_returns
  parse_sse_events body = parse_lines (map without_returns (lines body)) no_event

  -- `find_map` of the first response: a response has no method.
  abbrev pub is_response : Value → Bool
  is_response value = not (is_some (get_in "method" value))

  abbrev pub response_in : Option Value → Option Value → Option Value
  response_in none rest = rest
  response_in (some value) rest = if is_response value then some value else rest

  unfoldable pub first_response : List McpSseEvent → Option Value
  first_response [] = none
  first_response (e ∷ l) = response_in e.payload (first_response l)

  abbrev pub response_or_error : String → Result (List McpSseEvent) Error → Result Value Error
  response_or_error body (err e) = err e
  response_or_error body (ok l) = elim (first_response l) [
    | some v ↦ ok v
    | none ↦ err (malformed_response ("no sse data frame in response: " ++ body))
  ]

  unfoldable pub parse_sse_message : String → Result Value Error
  unfolding parse_sse_events first_response
  parse_sse_message body = response_or_error body (parse_sse_events (chars body))

  abbrev pub response_if_ok : Result (List McpSseEvent) Error → Result (Option Value) Error
  response_if_ok (err e) = err e
  response_if_ok (ok l) = ok (first_response l)

-- `replace("\r\n", "\n")`.
abbrev pub starts_with_newline : List Char → Bool
starts_with_newline [] = false
starts_with_newline (c ∷ l) = is_char c newline

unfoldable pub normalized : List Char → List Char
normalized [] = []
normalized (c ∷ l) =
    let rest = normalized l in if is_char c return && starts_with_newline l then rest else c ∷ rest

-- The text up to the first of its last two newlines in a row.
abbrev pub prefix_or : Char → Bool → Option (List Char) → Option (List Char)
prefix_or c here (some p) = some (c ∷ p)
prefix_or c here none = if here then some (c ∷ []) else none

unfoldable pub complete_prefix : List Char → Option (List Char)
complete_prefix [] = none
complete_prefix (c ∷ l) =
    prefix_or c (is_char c newline && starts_with_newline l) (complete_prefix l)

module _ (json : Codec) where
  abbrev pub events_of : Option (List Char) → Result (Option Value) Error
  events_of none = ok none
  events_of (some complete) = response_if_ok json (parse_sse_events json complete)

  unfoldable pub first_complete_sse_data : List Char → Result (Option Value) Error
  unfolding normalized complete_prefix parse_sse_events
  first_complete_sse_data buffer = events_of (complete_prefix (normalized buffer))
