-- ===== src/Json.antt =====
-- JSON values as the program sees them (the `serde_json` types `Value`, `Number` and `Map`): the
-- constructors it matches on, and the few operations of `Map` that it calls. A number is known by
-- the two integer readings that the program takes of it, and nothing else.
use tinymcp.Common.{
  ℕ, Bool, true, false, List, [], ◌∷◌, Option, none, some, String, str_eq, if◌then◌else◌, Map,
  Result,
}
use tinymcp.Common.Int.{ℤ}
use Prim.Native.String.{compare}
use text.Mathlib.Text.{is_lt}
pub mod Laws

pub record Number : Type 0 where
  pub as_u64 : Option ℕ
  pub as_i64 : Option ℤ

mutual
  pub data Value : Type 0 where
    null : Value
    bool : Bool → Value
    number : Number → Value
    string : String → Value
    array : Items → Value
    object : Members → Value

  pub data Items : Type 0 where
    nil : Items
    cons : Value → Items → Items

  pub data Members : Type 0 where
    end : Members
    field : String → Value → Members → Members

abbrev pub items_list : Items → List Value
items_list nil = []
items_list (cons v vs) = v ∷ items_list vs

abbrev pub list_items : List Value → Items
list_items [] = nil
list_items (v ∷ vs) = cons v (list_items vs)

-- `Map::new`, `Map::get`, `Map::insert`, `Map::keys` and `Map::values`. A map keeps its members in
-- the order of their names, as `BTreeMap` does.
abbrev pub get : String → Members → Option Value
get name end = none
get name (field key v rest) = if str_eq key name then some v else get name rest

abbrev pub insert : String → Value → Members → Members
insert name new end = field name new end
insert name new (field key v rest) =
    if str_eq key name
    then field name new rest
    else (if is_lt (compare name key)
        then field name new (field key v rest)
        else field key v (insert name new rest))

abbrev pub keys : Members → List String
keys end = []
keys (field k v m) = k ∷ keys m

abbrev pub values : Members → List Value
values end = []
values (field k v m) = v ∷ values m

abbrev pub is_empty : Members → Bool
is_empty end = true
is_empty (field _ _ _) = false

-- `Value::as_str`, `as_object`, `as_array`, `as_u64`, `as_i64` and `is_null`.
abbrev pub as_str : Value → Option String
as_str (string s) = some s
as_str _ = none

abbrev pub as_object : Value → Option Members
as_object (object m) = some m
as_object _ = none

abbrev pub as_array : Value → Option (List Value)
as_array (array vs) = some (items_list vs)
as_array _ = none

abbrev pub as_u64 : Value → Option ℕ
as_u64 (number n) = n.as_u64
as_u64 _ = none

abbrev pub as_i64 : Value → Option ℤ
as_i64 (number n) = n.as_i64
as_i64 _ = none

abbrev pub is_null : Value → Bool
is_null null = true
is_null _ = false

abbrev pub is_string : Value → Bool
is_string (string _) = true
is_string _ = false

-- `Value::get` with a text key: a member of an object, nothing in any other value.
abbrev pub get_in : String → Value → Option Value
get_in k (object m) = get k m
get_in k _ = none

-- `json!` of an object whose members are listed.
abbrev pub members_of : Map Value → Members
members_of [] = end
members_of ((k, v) ∷ m) = insert k v (members_of m)

abbrev pub object_of : Map Value → Value
object_of l = object (members_of l)

-- An integer of the machine ranges, as `Value::from` makes it.
abbrev pub from_i64 : ℤ → Value
from_i64 (ℤ.pos n) = number (record { as_u64 = some n; as_i64 = some (ℤ.pos n) })
from_i64 (ℤ.negsuc n) = number (record { as_u64 = none; as_i64 = some (ℤ.negsuc n) })

-- `serde_json::from_str`, with the text of its error, and the printer of values.
pub record Codec : Type 0 where
  pub from_str : String → Result Value String
  pub to_string : Value → String
