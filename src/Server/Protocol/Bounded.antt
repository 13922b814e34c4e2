-- ===== src/Server/Protocol/Bounded.antt =====
-- crates/tinymcp/src/server/protocol/mod.rs: the answer of a line under a limit of bytes. A response
-- is printed by one write here: the printer's writes together fail just when their sum does not fit,
-- and what a failed line has written is dropped.
use Prim.Native.String.{◌++◌, len}
use tinymcp.Common.{
  ℕ, ◌+◌, ◌-◌, ltb, ◌==◌, not, ◌&&◌, Bool, false, List, [], ◌∷◌, Option, none, some, String,
  if◌then◌else◌, Result, ok, err,
}
use tinymcp.Common.Options.{◌>>=◌, keep_if}
use tinymcp.Json.{Value, null, object, Members, end, Codec, get, as_object}
use tinymcp.Server.Declarations.{RequestHeaders}
use tinymcp.Server.Session.{ClientSession}
use tinymcp.Server.Protocol.{success_response, invalid, valid_request_id}
use tinymcp.Server.Protocol.Requests.{Handler}
use tinymcp.Server.Protocol.Messages.{
  is_batch, is_empty_batch, messages, no_messages, handle_single_message, handle_line,
}

-- `LimitedOutput::write`.
abbrev pub write : ℕ → String → String → Option String
write limit bytes out = if ltb (limit - len out) (len bytes) then none else some (out ++ bytes)

abbrev pub write_if : Bool → ℕ → String → String → Option String
write_if test limit bytes out = if test then write limit bytes out else some out

-- What is written, and the number of responses in it.
pub record Output : Type 0 where
  pub out : String
  pub count : ℕ

-- Whether the shortest response that a message can have does not fit, with a comma and a bracket.
abbrev pub too_small : ℕ → Output → Option ℕ → Bool
too_small limit o none = false
too_small limit o (some minimum) = ltb limit (len o.out + 1 + minimum + 1)

abbrev pub as_line : Option String → Result (Option String) (Unit {0})
as_line none = err tt
as_line (some line) = ok (some line)

module _ (json : Codec) where
  abbrev pub minimum_of_id : Option Value → Option ℕ
  minimum_of_id none = none
  minimum_of_id (some id) = some (
      len (
        json.to_string (
          if valid_request_id id
          then success_response id (object end)
          else invalid null "id must be a string or integer")))

  abbrev pub minimum_of_object : Option Members → Option ℕ
  minimum_of_object none =
      some (len (json.to_string (invalid null "message must be a JSON object")))
  minimum_of_object (some m) = minimum_of_id (get "id" m)

  unfoldable pub minimum_response_len : Value → Option ℕ
  minimum_response_len item = minimum_of_object (as_object item)

  -- The writes of one response.
  unfoldable pub emit : ℕ → Bool → Option Value → Output → Option Output
  emit limit batch none o = some o
  emit limit batch (some response) o = do
    opened ← write_if (o.count == 0 && batch) limit "[" o.out
    separated ← write_if (ltb 0 o.count) limit "," opened
    written ← write limit (json.to_string response) separated
    keep_if (λ o1. not (batch && ltb limit (len o1.out + 1)))
        (record { out = written; count = o.count + 1 })

  -- The end of the line: nothing, or what was written, with its bracket.
  abbrev pub close : ℕ → Bool → Output → Result (Option String) (Unit {0})
  close limit batch o =
      if o.count == 0
      then ok none
      else (if batch then as_line (write limit "]" o.out) else ok (some o.out))

-- The answer of a line of which nothing was parsed.
abbrev pub limited : ℕ → Option String → Result (Option String) (Unit {0})
limited limit none = ok none
limited limit (some line) = if ltb limit (len line) then err tt else ok (some line)

module _ {S : Type 0} (json : Codec) (h : Handler S) (headers : RequestHeaders) where
  -- The response of a message: an empty batch is no message for the handler.
  abbrev pub response_to : Bool → Value → ClientSession × S → Option Value × (ClientSession × S)
  response_to empty_batch item w =
      if empty_batch then (some no_messages, w) else handle_single_message json h headers item w

module _ {S : Type 0} (json : Codec) (h : Handler S) (headers : RequestHeaders) (limit : ℕ) where
  abbrev pub continue_with :
      Option Output
      → (Output → ClientSession × S → Option Output × (ClientSession × S))
      → ClientSession × S
      → Option Output × (ClientSession × S)
  continue_with none rest w = (none, w)
  continue_with (some o) rest w = rest o w

  unfoldable pub bounded_each :
      Bool → Bool → List Value → Output → ClientSession × S → Option Output × (ClientSession × S)
  unfolding emit
  bounded_each batch empty_batch [] o w = (some o, w)
  bounded_each batch empty_batch (item ∷ items) o w =
      let (response, w1) = response_to json h headers empty_batch item w in
      let rest =
        continue_with (emit json limit batch response o) (bounded_each batch empty_batch items)
          w1 in
      if batch && too_small limit o (minimum_response_len json item) then (none, w) else rest

  abbrev pub closed :
      Bool
      → Option Output × (ClientSession × S)
      → Result (Option String) (Unit {0}) × (ClientSession × S)
  closed batch (none, w) = (err tt, w)
  closed batch (some o, w) = (close json limit batch o, w)

  abbrev pub bounded_parsed :
      Result Value String
      → String
      → ClientSession × S
      → Result (Option String) (Unit {0}) × (ClientSession × S)
  bounded_parsed (err e) line w =
      let (response, w1) = handle_line json h headers line w in (limited limit response, w1)
  bounded_parsed (ok value) line w = closed (is_batch value) (
      bounded_each (is_batch value) (is_empty_batch value) (messages value)
        (record { out = ""; count = 0 }) w)

  unfoldable pub handle_line_bounded :
      String → ClientSession × S → Result (Option String) (Unit {0}) × (ClientSession × S)
  unfolding bounded_each
  handle_line_bounded line w = bounded_parsed (json.from_str line) line w
