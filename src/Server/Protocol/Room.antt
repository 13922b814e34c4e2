-- ===== src/Server/Protocol/Room.antt =====
-- crates/tinymcp/src/server/protocol/mod.rs: the room that the bounded answer of a line takes.
use Prim.Native.String.{len}
use tinymcp.Common.{
  ℕ, ◌+◌, ◌≤◌, leb, ◌≡◌, Bool, true, false, List, [], ◌∷◌, Option, none, some, String, Result, ok,
  err, zero, suc,
}
use tinymcp.Json.{Value, Codec}
use tinymcp.Server.Declarations.{RequestHeaders}
use tinymcp.Server.Session.{ClientSession}
use tinymcp.Server.Protocol.Requests.{Handler}
use tinymcp.Server.Protocol.Messages.{is_batch, is_empty_batch, messages, handle_line}
use tinymcp.Server.Protocol.Bounded.{Output, minimum_response_len, response_to}
use tinymcp.Server.Protocol.Writing.{
  max, closing, bytes_after, count_after, minimum_need, response_need,
}

-- What has been written asks for its bytes and the bracket.
abbrev pub written_need : Bool → ℕ → ℕ → ℕ
written_need batch n zero = n
written_need batch n (suc count) = n + closing batch

module _ {S : Type 0} (json : Codec) (h : Handler S) (headers : RequestHeaders) where
  -- The largest limit that a message asks for, with `n` bytes and `count` responses written before.
  abbrev pub messages_need : Bool → Bool → List Value → ℕ → ℕ → ClientSession × S → ℕ
  messages_need batch empty_batch [] n count w = 0
  messages_need batch empty_batch (item ∷ items) n count w =
      let (response, w1) = response_to json h headers empty_batch item w in
      max (minimum_need json batch (minimum_response_len json item) n) (
        max (response_need json batch response n count) (
          messages_need batch empty_batch items (bytes_after json batch response n count)
            (count_after json response count) w1))

  abbrev pub text_bytes : Option String → ℕ
  text_bytes none = 0
  text_bytes (some t) = len t

  abbrev pub parsed_need : Result Value String → String → ClientSession × S → ℕ
  parsed_need (err e) line w = text_bytes (handle_line json h headers line w).0
  parsed_need (ok value) line w =
      messages_need (is_batch value) (is_empty_batch value) (messages value) 0 0 w

  -- The limit that a line asks for.
  unfoldable pub line_need : String → ClientSession × S → ℕ
  line_need line w = parsed_need (json.from_str line) line w

  -- Whether the loop goes through, by the limit that it asks for; what it has written then fits.
  abbrev Judged : ℕ → Bool → ℕ → Option Output × (ClientSession × S) → Type 0
  Judged limit batch need (none, w) = leb need limit ≡ false
  Judged limit batch need (some o, w) =
      (leb need limit ≡ true) × (written_need batch (len o.out) o.count ≤ limit)

  abbrev pub is_answer : Result (Option String) (Unit {0}) → Bool
  is_answer (ok _) = true
  is_answer (err _) = false
