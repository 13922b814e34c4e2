-- ===== src/Server/Args.antt =====
-- crates/tinymcp/src/server/args/mod.rs: the validators of a tool call's arguments, with the texts of
-- their errors.
pub mod Accepted
pub mod Ranges
use Prim.Native.String.{◌++◌, compare}
use text.Mathlib.Text.{is_lt}
use tinymcp.Common.{
  ℕ, ltb, ◌==◌, Bool, true, false, not, List, [], ◌∷◌, contains, Option, none, some, String, str_eq,
  if◌then◌else◌, Result, ok, err, ◌>>=◌,
}
use tinymcp.Common.Int.{ℤ}
use tinymcp.Common.Chars.{trim}
use tinymcp.Common.Decimal.{decimal}
use tinymcp.Json.{
  Value, null, bool, number, string, array, object, Items, nil, cons, Members, end, get, keys,
  as_str, as_i64, as_u64, is_null, items_list,
}
use tinymcp.Server.Declarations.{ToolCallError, invalid_params}

-- An argument's name between a text before it and one after it.
abbrev pub about : String → String → String → ToolCallError
about before key after = invalid_params (before ++ (key ++ after))

-- `json_type_name`.
abbrev pub type_name : Value → String
type_name null = "null"
type_name (bool _) = "bool"
type_name (number _) = "number"
type_name (string _) = "string"
type_name (array _) = "array"
type_name (object _) = "object"

-- `Vec::sort` and `join`, of names.
unfoldable pub insert_sorted : String → List String → List String
insert_sorted s [] = s ∷ []
insert_sorted s (t ∷ l) =
    let rest = insert_sorted s l in if is_lt (compare t s) then t ∷ rest else s ∷ t ∷ l

unfoldable pub sort : List String → List String
unfolding insert_sorted
sort [] = []
sort (s ∷ l) = insert_sorted s (sort l)

unfoldable pub join : String → List String → String
join between [] = ""
join between (s ∷ []) = s
join between (s ∷ t ∷ l) = s ++ (between ++ join between (t ∷ l))

unfoldable pub unexpected : List String → List String → List String
unexpected allowed [] = []
unexpected allowed (key ∷ l) =
    let rest = unexpected allowed l in if contains allowed key then rest else key ∷ rest

abbrev pub reject_names : List String → Result (Unit {0}) ToolCallError
reject_names [] = ok tt
reject_names (name ∷ l) =
    err (invalid_params ("unexpected argument `" ++ (join "`, `" (sort (name ∷ l)) ++ "`")))

unfoldable pub reject_unexpected_arguments : Members → List String → Result (Unit {0}) ToolCallError
unfolding unexpected sort join
reject_unexpected_arguments args allowed = reject_names (unexpected allowed (keys args))

unfoldable pub object_arguments : Value → Result Members ToolCallError
object_arguments null = ok end
object_arguments (object map) = ok map
object_arguments (bool b) = err (invalid_params "tools/call arguments must be an object, got bool")
object_arguments (number n) =
    err (invalid_params "tools/call arguments must be an object, got number")
object_arguments (string s) =
    err (invalid_params "tools/call arguments must be an object, got string")
object_arguments (array l) =
    err (invalid_params "tools/call arguments must be an object, got array")

-- A trimmed text, unless it is blank.
abbrev pub unless_blank : ToolCallError → String → Result String ToolCallError
unless_blank e trimmed = if str_eq trimmed "" then err e else ok trimmed

abbrev pub required_text : String → Option Value → Result String ToolCallError
required_text key (some (string raw)) =
    unless_blank (about "argument `" key "` must not be empty") (trim raw)
required_text key _ = err (about "missing required argument `" key "`")

unfoldable pub required_non_empty_string : Members → String → Result String ToolCallError
unfolding trim
required_non_empty_string args key = required_text key (get key args)

-- `args.get(key).filter(|value| !value.is_null())`.
abbrev pub unless_null : Option Value → Option Value
unless_null none = none
unless_null (some v) = if is_null v then none else some v

unfoldable pub present : Members → String → Option Value
present args key = unless_null (get key args)

-- `map(Some)`.
abbrev pub ok_some {ℓ} : {A : Type ℓ} → Result A ToolCallError → Result (Option A) ToolCallError
ok_some (ok a) = ok (some a)
ok_some (err e) = err e

abbrev pub optional_text : String → Option Value → Result (Option String) ToolCallError
optional_text key none = ok none
optional_text key (some (string raw)) =
    ok_some (unless_blank (about "argument `" key "` must not be empty when provided") (trim raw))
optional_text key (some _) = err (about "argument `" key "` must be a string")

unfoldable pub optional_non_empty_string : Members → String → Result (Option String) ToolCallError
unfolding present trim
optional_non_empty_string args key = optional_text key (present args key)

-- The loop of `optional_string_array`: the entries, trimmed, without the blank ones.
abbrev pub add_entry :
    String → Result (List String) ToolCallError → Result (List String) ToolCallError
add_entry trimmed (err e) = err e
add_entry trimmed (ok l) = if str_eq trimmed "" then ok l else ok (trimmed ∷ l)

unfoldable pub string_entries : String → List Value → Result (List String) ToolCallError
string_entries key [] = ok []
string_entries key (string text ∷ items) = add_entry (trim text) (string_entries key items)
string_entries key (item ∷ items) =
    err
      (about "argument `" key ("` must contain only strings, got " ++ (type_name item ++ " entry")))

abbrev pub optional_entries : String → Option Value → Result (Option (List String)) ToolCallError
optional_entries key none = ok none
optional_entries key (some (array items)) = ok_some (string_entries key (items_list items))
optional_entries key (some v) =
    err (about "argument `" key ("` must be an array of strings, got " ++ type_name v))

unfoldable pub optional_string_array :
    Members → String → Result (Option (List String)) ToolCallError
unfolding present string_entries trim
optional_string_array args key = optional_entries key (present args key)

abbrev pub required_entries : String → Option (List String) → Result (List String) ToolCallError
required_entries key none = err (about "missing required argument `" key "`")
required_entries key (some []) =
    err (about "argument `" key "` must contain at least one non-empty string")
required_entries key (some (s ∷ l)) = ok (s ∷ l)

unfoldable pub required_non_empty_string_array :
    Members → String → Result (List String) ToolCallError
unfolding optional_string_array
required_non_empty_string_array args key = do
  entries ← optional_string_array args key
  required_entries key entries

abbrev pub or_error {ℓ} : {A : Type ℓ} → ToolCallError → Option A → Result (Option A) ToolCallError
or_error e none = err e
or_error e (some a) = ok (some a)

abbrev pub optional_number {ℓ} :
    {A : Type ℓ}
    → (Value → Option A)
    → ToolCallError
    → Option Value
    → Result (Option A) ToolCallError
optional_number read e none = ok none
optional_number read e (some v) = or_error e (read v)

unfoldable pub optional_i64 : Members → String → Result (Option ℤ) ToolCallError
unfolding present
optional_i64 args key =
    optional_number as_i64 (about "argument `" key "` must be an integer in the i64 range")
      (present args key)

unfoldable pub optional_u64 : Members → String → Result (Option ℕ) ToolCallError
unfolding present
optional_u64 args key =
    optional_number as_u64 (about "argument `" key "` must be a non-negative integer")
      (present args key)

abbrev pub bounded : String → ℕ → Option ℕ → Result ℕ ToolCallError
bounded key max none = err (about "argument `" key "` must be a positive integer")
bounded key max (some n) =
    if n == 0
    then err (about "argument `" key "` must be greater than zero")
    else if ltb max n
    then err (
        about "argument `" key
          ("` must not exceed " ++ (decimal max ++ (" (got " ++ (decimal n ++ ")")))))
    else ok n

unfoldable pub bounded_positive : String → Value → ℕ → Result ℕ ToolCallError
bounded_positive key value max = bounded key max (as_u64 value)

abbrev pub positive_or : ℕ → String → ℕ → Option Value → Result ℕ ToolCallError
positive_or default key max none = ok default
positive_or default key max (some value) = bounded_positive key value max

unfoldable pub positive_u64_or_default : Members → String → ℕ → ℕ → Result ℕ ToolCallError
unfolding bounded_positive
positive_u64_or_default args key default max = positive_or default key max (get key args)

abbrev pub optional_bounded : String → ℕ → Option Value → Result (Option ℕ) ToolCallError
optional_bounded key max none = ok none
optional_bounded key max (some value) = ok_some (bounded_positive key value max)

unfoldable pub optional_positive_u64 : Members → String → ℕ → Result (Option ℕ) ToolCallError
unfolding present bounded_positive
optional_positive_u64 args key max = optional_bounded key max (present args key)
