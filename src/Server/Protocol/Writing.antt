-- ===== src/Server/Protocol/Writing.antt =====
-- crates/tinymcp/src/server/protocol/mod.rs: the bytes that the writes of a response take.
use Prim.Native.String.{len, ◌++◌}
use text.Mathlib.TextPositions.{len-append}
use tinymcp.Common.{
  ℕ, ◌+◌, ◌≤◌, ◌<◌, leb, ◌≡◌, refl, Bool, true, false, Option, none, some, String, arith, zero, suc,
  if◌then◌else◌,
}
use tinymcp.Json.{Value, Codec}
use tinymcp.Server.Protocol.Bounded.{Output, emit}

abbrev pub max : ℕ → ℕ → ℕ
max a b = if leb a b then b else a

-- The bracket that closes a batch.
abbrev pub closing : Bool → ℕ
closing batch = if batch then 1 else 0

-- The bracket or the comma before a response, when `count` of them are written.
abbrev pub opening : Bool → ℕ → ℕ
opening batch zero = closing batch
opening batch (suc count) = 1

module _ (json : Codec) where
  -- The bytes and the number of responses that are written after one more response.
  abbrev pub bytes_after : Bool → Option Value → ℕ → ℕ → ℕ
  bytes_after batch none n count = n
  bytes_after batch (some v) n count = n + opening batch count + len (json.to_string v)

  abbrev pub count_after : Option Value → ℕ → ℕ
  count_after none count = count
  count_after (some v) count = count + 1

  -- The limit that the shortest response of a message of a batch asks for, and that its response
  -- asks for.
  abbrev pub minimum_need : Bool → Option ℕ → ℕ → ℕ
  minimum_need batch none n = 0
  minimum_need batch (some m) n = if batch then n + 1 + m + 1 else 0

  abbrev pub response_need : Bool → Option Value → ℕ → ℕ → ℕ
  response_need batch none n count = 0
  response_need batch (some v) n count = bytes_after batch (some v) n count + closing batch

  -- What a response leaves when it fits: so many bytes and responses.
  abbrev pub Left : Bool → Option Value → Output → Option Output → Type 0
  Left batch r o none = ⊥
  Left batch r o (some o1) =
      (len o1.out ≡ bytes_after batch r (len o.out) o.count) × (o1.count ≡ count_after r o.count)

  pub emit_fits :
      (limit : ℕ) (batch : Bool) (r : Option Value) (out : String) (count : ℕ)
      → response_need batch r (len out) count ≤ limit
      → Left batch r
          (record { out = out; count = count })
          (emit json limit batch r (record { out = out; count = count }))
  unfolding emit
  emit_fits limit batch none out count room = (refl, refl)
  emit_fits limit true (some v) out zero room =
      ground (arith, len-append out "[", len-append (out ++ "[") (json.to_string v))
  emit_fits limit false (some v) out zero room = ground (arith, len-append out (json.to_string v))
  emit_fits limit true (some v) out (suc count) room =
      ground (arith, len-append out ",", len-append (out ++ ",") (json.to_string v))
  emit_fits limit false (some v) out (suc count) room =
      ground (arith, len-append out ",", len-append (out ++ ",") (json.to_string v))

  pub emit_full :
      (limit : ℕ) (batch : Bool) (r : Option Value) (out : String) (count : ℕ)
      → len out ≤ limit
      → limit < response_need batch r (len out) count
      → emit json limit batch r (record { out = out; count = count }) ≡ none
  unfolding emit
  emit_full limit batch none out count h full = absurd (ground arith)
  emit_full limit true (some v) out zero h full =
      ground (arith, len-append out "[", len-append (out ++ "[") (json.to_string v))
  emit_full limit false (some v) out zero h full = ground (arith, len-append out (json.to_string v))
  emit_full limit true (some v) out (suc count) h full =
      ground (arith, len-append out ",", len-append (out ++ ",") (json.to_string v))
  emit_full limit false (some v) out (suc count) h full =
      ground (arith, len-append out ",", len-append (out ++ ",") (json.to_string v))
