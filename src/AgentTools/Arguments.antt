-- ===== src/AgentTools/Arguments.antt =====
-- crates/tinymcp/src/agent_tools/arguments.rs: reading a call's `arguments` as an object, whether it
-- is absent, an object, or an object encoded in a text.
pub mod Encoded
use Prim.Native.Char.{Char, code}
use Prim.Native.String.{◌++◌}
use tinymcp.Common.{
  Bool, true, false, ◌&&◌, List, [], ◌∷◌, Option, none, some, String, if◌then◌else◌, ◌==◌,
  unwrap_or, Result, ok, err,
}
use tinymcp.Common.Chars.{chars, text_of, trim, to_ascii_lowercase}
use tinymcp.Error.{ArgsError, not_an_object, string_not_an_object}
use tinymcp.Json.{Value, null, bool, number, string, array, object, Members, end, Codec}

abbrev pub fence : List Char
fence = chars "```"

-- `str::strip_prefix`.
unfoldable pub strip_prefix : List Char → List Char → Option (List Char)
strip_prefix [] l = some l
strip_prefix (c ∷ p) [] = none
strip_prefix (c ∷ p) (d ∷ l) =
    let rest = strip_prefix p l in if code c == code d then rest else none

abbrev pub chars_eq : List Char → List Char → Bool
chars_eq [] [] = true
chars_eq [] (d ∷ l) = false
chars_eq (c ∷ k) [] = false
chars_eq (c ∷ k) (d ∷ l) = code c == code d && chars_eq k l

abbrev pub with_first : Char → Option (List Char) → Option (List Char)
with_first c none = none
with_first c (some l) = some (c ∷ l)

-- `str::strip_suffix`, on the text that is left.
unfoldable pub strip_suffix : List Char → List Char → Option (List Char)
strip_suffix p [] = if chars_eq [] p then some [] else none
strip_suffix p (c ∷ l) =
    let rest = with_first c (strip_suffix p l) in if chars_eq (c ∷ l) p then some [] else rest

-- `tag.eq_ignore_ascii_case("json")`.
abbrev pub is_json_tag : Char → Char → Char → Char → Bool
is_json_tag a b c d =
    chars_eq
      (to_ascii_lowercase a
        ∷ to_ascii_lowercase b
        ∷ to_ascii_lowercase c
        ∷ to_ascii_lowercase d
        ∷ [])
      (chars "json")

-- The language tag of a fence goes when it is `json`.
abbrev pub drop_tag : List Char → List Char
drop_tag (a ∷ b ∷ c ∷ d ∷ l) = if is_json_tag a b c d then l else a ∷ b ∷ c ∷ d ∷ l
drop_tag l = l

abbrev pub without_fence : List Char → Option (List Char) → String
without_fence trimmed none = text_of trimmed
without_fence trimmed (some inner) =
    trim (text_of (drop_tag (unwrap_or (strip_suffix fence inner) inner)))

unfoldable pub strip_fence : String → String
unfolding strip_prefix strip_suffix trim
strip_fence text =
    let trimmed = chars (trim text) in without_fence trimmed (strip_prefix fence trimmed)

abbrev pub json_type_name : Value → String
json_type_name null = "null"
json_type_name (bool _) = "a boolean"
json_type_name (number _) = "a number"
json_type_name (string _) = "a string"
json_type_name (array _) = "an array"
json_type_name (object _) = "an object"

module _ (json : Codec) where
  abbrev pub decoded : Result Value String → Result Members ArgsError
  decoded (ok (object map)) = ok map
  decoded (ok other) = err (string_not_an_object (some (json_type_name other)))
  decoded (err _) = err (string_not_an_object none)

  unfoldable pub decode_object : String → Result Members ArgsError
  unfolding strip_fence
  decode_object text = decoded (json.from_str (strip_fence text))

  unfoldable pub normalize_tool_arguments : Option Value → Result Members ArgsError
  unfolding decode_object
  normalize_tool_arguments none = ok end
  normalize_tool_arguments (some null) = ok end
  normalize_tool_arguments (some (object map)) = ok map
  normalize_tool_arguments (some (string text)) = decode_object text
  normalize_tool_arguments (some (bool b)) = err (not_an_object (json_type_name (bool b)))
  normalize_tool_arguments (some (number n)) = err (not_an_object (json_type_name (number n)))
  normalize_tool_arguments (some (array l)) = err (not_an_object (json_type_name (array l)))

-- `ArgsError`'s `Display`.
abbrev pub args_error_text : ArgsError → String
args_error_text (not_an_object actual) = "tool arguments must be a JSON object, not " ++ actual
args_error_text (string_not_an_object (some decoded)) =
    "tool arguments must be a JSON object, not " ++ ("a string holding " ++ decoded)
args_error_text (string_not_an_object none) =
    "tool arguments must be a JSON object, not a string that is not JSON"
