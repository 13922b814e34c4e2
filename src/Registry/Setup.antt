-- ===== src/Registry/Setup.antt =====
-- crates/tinymcp/src/registry/setup/types.rs: the vault of secrets that a user gives while a server is
-- set up. The time at which a call reads the clock, the text of a new identifier, and how a wait ended
-- are arguments; the vault is the state that its lock guards.
pub mod Holding
pub mod Answers
use Prim.Native.Char.{Char}
use Prim.Native.String.{◌++◌}
use tinymcp.Common.{
  ℕ, ◌-◌, leb, ltb, ◌&&◌, ◌||◌, not, Bool, true, false, List, [], ◌∷◌, map, length, Option, none,
  some, String, Map, str_eq, lookup, insert, remove, contains, is_some, if◌then◌else◌, Result, ok,
  err,
}
use tinymcp.Common.Chars.{chars, text_of, trim, is_prefix, is_digit, is_between}
use tinymcp.Common.Slices.{first, after_prefix}
use tinymcp.Error.{Error, malformed_response}
use tinymcp.Supervisor.{Instant, Duration, from_secs}

abbrev pub request_timeout_secs : ℕ
request_timeout_secs = 300

abbrev pub idle_ttl : Duration
idle_ttl = from_secs 900

abbrev pub secret_scheme : String
secret_scheme = "secret://"

abbrev pub handle_length : ℕ
handle_length = 12

abbrev pub SecretRef : Type 0
SecretRef = String

abbrev pub is_ascii_hexdigit : Char → Bool
is_ascii_hexdigit c =
    is_digit c
    || is_between 65 70 (Prim.Native.Char.code c)
    || is_between 97 102 (Prim.Native.Char.code c)

abbrev pub all_hex : List Char → Bool
all_hex [] = true
all_hex (c ∷ l) = is_ascii_hexdigit c && all_hex l

abbrev pub with_scheme : String → Option SecretRef
with_scheme hex =
    if str_eq hex "" || not (all_hex (chars hex)) then none else some (secret_scheme ++ hex)

-- `SecretRef::parse`: trimmed before the scheme is taken away, and after.
unfoldable pub parse : String → Option SecretRef
parse raw = with_scheme (trim (text_of (after_prefix (chars secret_scheme) (chars (trim raw)))))

-- `SecretRef::mint`, of the hexadecimal text of a new identifier.
unfoldable pub mint : String → SecretRef
mint raw = secret_scheme ++ text_of (first handle_length (chars raw))

pub record SecretEntry : Type 0 where
  pub key_name : String
  pub value : Option String
  pub last_touched : Instant
  pub waiter : Bool

abbrev pub SecretVault : Type 0
SecretVault = Map SecretEntry

-- How `await_fulfillment` stops to wait.
pub data Waited : Type 0 where
  fulfilled cancelled elapsed : Waited

unfoldable pub request : String → String → Instant → SecretVault → SecretRef × SecretVault
request raw key_name now entries = (
  mint raw,
  insert (mint raw)
      (record { key_name = key_name; value = none; last_touched = now; waiter = true }) entries,
)

abbrev pub answer_entry :
    SecretRef → String → Instant → Option SecretEntry → SecretVault → Bool × SecretVault
answer_entry handle value now none entries = (false, entries)
answer_entry handle value now (some entry) entries =
    if is_some entry.value then (false, entries) else (
      true,
      insert handle (record entry { value = some value; last_touched = now; waiter = false })
          entries,
    )

unfoldable pub submit : SecretRef → String → Instant → SecretVault → Bool × SecretVault
submit handle value now entries = answer_entry handle value now (lookup handle entries) entries

unfoldable pub forget : SecretRef → SecretVault → Bool × SecretVault
forget handle entries = (is_some (lookup handle entries), remove handle entries)

abbrev pub no_such_handle : SecretRef → Error
no_such_handle handle = malformed_response ("no such secret handle: " ++ handle)

abbrev pub not_answered : SecretRef → Error
not_answered handle =
    malformed_response ("the secret handle " ++ (handle ++ " has not been answered yet"))

unfoldable pub await_fulfillment :
    Waited → SecretRef → SecretVault → Result (Unit {0}) Error × SecretVault
unfolding forget
await_fulfillment fulfilled handle entries = (ok tt, entries)
await_fulfillment cancelled handle entries = (
  err (
      malformed_response
        ("the request for " ++ (handle ++ " was cancelled before the user answered"))),
  (forget handle entries).1,
)
await_fulfillment elapsed handle entries = (
  err (malformed_response ("the request for " ++ (handle ++ " went unanswered for 300 seconds"))),
  (forget handle entries).1,
)

abbrev pub push :
    String
    → String
    → Result (Map String) Error × SecretVault
    → Result (Map String) Error × SecretVault
push name value (ok l, entries) = (ok ((name, value) ∷ l), entries)
push name value (err e, entries) = (err e, entries)

abbrev pub touched : Instant → SecretEntry → SecretEntry
touched now entry = record entry { last_touched = now }

-- The entry of a handle goes on with its value.
abbrev pub with_value :
    SecretRef
    → Option String
    → SecretVault
    → (String → Result (Map String) Error × SecretVault)
    → Result (Map String) Error × SecretVault
with_value handle none entries next = (err (not_answered handle), entries)
with_value handle (some value) entries next = next value

abbrev pub with_entry :
    SecretRef
    → Option SecretEntry
    → SecretVault
    → (SecretEntry → String → Result (Map String) Error × SecretVault)
    → Result (Map String) Error × SecretVault
with_entry handle none entries next = (err (no_such_handle handle), entries)
with_entry handle (some entry) entries next = with_value handle entry.value entries (next entry)

-- The handles come in the order in which their map is run through.
unfoldable pub resolve_locked :
    Map SecretRef → Instant → SecretVault → Result (Map String) Error × SecretVault
resolve_locked [] now entries = (ok [], entries)
resolve_locked ((name, handle) ∷ handles) now entries =
    with_entry handle (lookup handle entries) entries (λ entry value.
      push name value (resolve_locked handles now (insert handle (touched now entry) entries)))

unfoldable pub resolve :
    Map SecretRef → Instant → SecretVault → Result (Map String) Error × SecretVault
unfolding resolve_locked
resolve handles now entries = resolve_locked handles now entries

abbrev pub remove_each : Map SecretRef → SecretVault → SecretVault
remove_each [] entries = entries
remove_each ((name, handle) ∷ handles) entries = remove_each handles (remove handle entries)

abbrev pub consumed :
    Map SecretRef
    → Result (Map String) Error × SecretVault
    → Result (Map String) Error × SecretVault
consumed handles (err e, entries) = (err e, entries)
consumed handles (ok l, entries) = (ok l, remove_each handles entries)

unfoldable pub consume :
    Map SecretRef → Instant → SecretVault → Result (Map String) Error × SecretVault
unfolding resolve_locked
consume handles now entries = consumed handles (resolve_locked handles now entries)

-- `HashMap::retain` with the test of `sweep`.
unfoldable pub retain_touched : Instant → SecretVault → SecretVault
retain_touched now [] = []
retain_touched now ((handle, entry) ∷ entries) =
    let rest = retain_touched now entries in
    if ltb (now - entry.last_touched) idle_ttl then (handle, entry) ∷ rest else rest

unfoldable pub sweep : Instant → SecretVault → ℕ × SecretVault
unfolding retain_touched
sweep now entries =
    (length entries - length (retain_touched now entries), retain_touched now entries)

unfoldable pub key_name_of : SecretRef → SecretVault → Option String
key_name_of handle entries = elim (lookup handle entries) [
  | none ↦ none
  | some entry ↦ some entry.key_name
]
