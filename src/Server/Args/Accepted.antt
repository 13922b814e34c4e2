-- ===== src/Server/Args/Accepted.antt =====
-- crates/tinymcp/src/server/args/mod.rs: what the validators of texts let through.
use Prim.Native.Char.{Char}
use mathlib.Core.Bool.{true≢false}
use tinymcp.Common.{
  ◌≡◌, refl, sym, ap, ◌∙◌, Bool, true, false, not, List, [], ◌∷◌, All, Option, none, some, String,
  str_eq, if◌then◌else◌, if_split, Result, ok, err, ◌>>=◌,
}
use tinymcp.Common.Chars.{
  chars, text_of, trim, trim_start, trim_end, unless_last, is_whitespace, chars-text_of,
}
use tinymcp.Json.{Value, null, bool, number, string, array, object, Members, get, items_list}
use tinymcp.Server.Declarations.{ToolCallError}
use tinymcp.Server.Args.{
  unless_blank, required_text, required_non_empty_string, present, ok_some, optional_text,
  optional_non_empty_string, add_entry, string_entries, optional_entries, optional_string_array,
  required_entries, required_non_empty_string_array,
}

-- A list that `trim` leaves alone at its start.
abbrev starts_well : List Char → Bool
starts_well [] = true
starts_well (c ∷ l) = not (is_whitespace c)

trim_start-starts_well : (l : List Char) → starts_well (trim_start l) ≡ true
unfolding trim_start
trim_start-starts_well [] = refl
trim_start-starts_well (c ∷ l) =
    if_split (λ k. starts_well k ≡ true) (is_whitespace c) (λ _. trim_start-starts_well l)
      (λ h. ap not h)

trim_start_kept : (l : List Char) → starts_well l ≡ true → trim_start l ≡ l
unfolding trim_start
trim_start_kept [] h = refl
trim_start_kept (c ∷ l) h =
    if_split (λ k. k ≡ c ∷ l) (is_whitespace c)
      (λ space. absurd (true≢false (sym h ∙ ap not space))) (λ _. refl)

unless_last-starts_well :
    (c : Char) (m : List Char) → not (is_whitespace c) ≡ true → starts_well (unless_last c m) ≡ true
unless_last-starts_well c [] h =
    if_split (λ k. starts_well k ≡ true) (is_whitespace c) (λ _. refl) (λ _. h)
unless_last-starts_well c (d ∷ m) h = h

trim_end-starts_well : (l : List Char) → starts_well l ≡ true → starts_well (trim_end l) ≡ true
unfolding trim_end
trim_end-starts_well [] h = refl
trim_end-starts_well (c ∷ l) h = unless_last-starts_well c (trim_end l) h

trim_end-unless_last :
    (c : Char) (m : List Char) → trim_end m ≡ m → trim_end (unless_last c m) ≡ unless_last c m
unfolding trim_end
trim_end-unless_last c [] h =
    if_split (λ k. trim_end k ≡ k) (is_whitespace c) (λ _. refl)
      (λ other. ap (λ b. if b then [] else c ∷ []) other)
trim_end-unless_last c (d ∷ m) h = ap (unless_last c) h

trim_end_twice : (l : List Char) → trim_end (trim_end l) ≡ trim_end l
unfolding trim_end
trim_end_twice [] = refl
trim_end_twice (c ∷ l) = trim_end-unless_last c (trim_end l) (trim_end_twice l)

trim_twice : (s : String) → trim (trim s) ≡ trim s
unfolding trim
trim_twice s =
    let l = trim_start (chars s) in
    let well = trim_end-starts_well l (trim_start-starts_well (chars s)) in
    ap (λ k. text_of (trim_end (trim_start k))) (chars-text_of (trim_end l))
    ∙ ap (λ k. text_of (trim_end k)) (trim_start_kept (trim_end l) well)
    ∙ ap text_of (trim_end_twice l)

-- A text that is not blank and has no space at its ends.
abbrev pub IsTrimmed : String → Type 0
IsTrimmed s = (trim s ≡ s) × (str_eq s "" ≡ false)

abbrev pub Ok {ℓ} : {A : Type ℓ} → (A → Type 0) → Result A ToolCallError → Type 0
Ok P (ok a) = P a
Ok P (err e) = Unit

abbrev pub IfGiven {ℓ} : {A : Type ℓ} → (A → Type 0) → Option A → Type 0
IfGiven P none = Unit
IfGiven P (some a) = P a

ok_some-Ok {ℓ} :
    {A : Type ℓ} (P : A → Type 0) (r : Result A ToolCallError) → Ok P r → Ok (IfGiven P) (ok_some r)
ok_some-Ok P (ok a) h = h
ok_some-Ok P (err e) h = tt

unless_blank-Ok : (e : ToolCallError) (raw : String) → Ok IsTrimmed (unless_blank e (trim raw))
unless_blank-Ok e raw =
    if_split (Ok IsTrimmed) (str_eq (trim raw) "") (λ _. tt) (λ h. (trim_twice raw, h))

required_text-Ok : (key : String) (v : Option Value) → Ok IsTrimmed (required_text key v)
required_text-Ok key (some (string raw)) = unless_blank-Ok _ raw
required_text-Ok key none = tt
required_text-Ok key (some null) = tt
required_text-Ok key (some (bool b)) = tt
required_text-Ok key (some (number n)) = tt
required_text-Ok key (some (array l)) = tt
required_text-Ok key (some (object m)) = tt

optional_text-Ok : (key : String) (v : Option Value) → Ok (IfGiven IsTrimmed) (optional_text key v)
optional_text-Ok key (some (string raw)) = ok_some-Ok IsTrimmed _ (unless_blank-Ok _ raw)
optional_text-Ok key none = tt
optional_text-Ok key (some null) = tt
optional_text-Ok key (some (bool b)) = tt
optional_text-Ok key (some (number n)) = tt
optional_text-Ok key (some (array l)) = tt
optional_text-Ok key (some (object m)) = tt

add_entry-Ok :
    (raw : String) (r : Result (List String) ToolCallError)
    → Ok (All IsTrimmed) r
    → Ok (All IsTrimmed) (add_entry (trim raw) r)
add_entry-Ok raw (err e) h = tt
add_entry-Ok raw (ok l) h =
    if_split (Ok (All IsTrimmed)) (str_eq (trim raw) "") (λ _. h)
      (λ given. ((trim_twice raw, given), h))

string_entries-Ok :
    (key : String) (items : List Value) → Ok (All IsTrimmed) (string_entries key items)
unfolding string_entries
string_entries-Ok key [] = tt
string_entries-Ok key (string raw ∷ items) =
    add_entry-Ok raw (string_entries key items) (string_entries-Ok key items)
string_entries-Ok key (null ∷ items) = tt
string_entries-Ok key (bool b ∷ items) = tt
string_entries-Ok key (number n ∷ items) = tt
string_entries-Ok key (array l ∷ items) = tt
string_entries-Ok key (object m ∷ items) = tt

optional_entries-Ok :
    (key : String) (v : Option Value) → Ok (IfGiven (All IsTrimmed)) (optional_entries key v)
optional_entries-Ok key (some (array l)) =
    ok_some-Ok (All IsTrimmed) _ (string_entries-Ok key (items_list l))
optional_entries-Ok key none = tt
optional_entries-Ok key (some null) = tt
optional_entries-Ok key (some (bool b)) = tt
optional_entries-Ok key (some (number n)) = tt
optional_entries-Ok key (some (string s)) = tt
optional_entries-Ok key (some (object m)) = tt

-- One entry at least, and none of them blank.
abbrev pub AreSome : List String → Type 0
AreSome [] = ⊥
AreSome (s ∷ l) = All IsTrimmed (s ∷ l)

required_entries-Ok :
    (key : String) (given : Option (List String))
    → IfGiven (All IsTrimmed) given
    → Ok AreSome (required_entries key given)
required_entries-Ok key none h = tt
required_entries-Ok key (some []) h = tt
required_entries-Ok key (some (s ∷ l)) h = h

required_array-Ok :
    (key : String) (r : Result (Option (List String)) ToolCallError)
    → Ok (IfGiven (All IsTrimmed)) r
    → Ok AreSome (r >>= required_entries key)
required_array-Ok key (ok given) h = required_entries-Ok key given h
required_array-Ok key (err e) h = tt

-- A text that a validator accepts is trimmed and not blank: the required and the optional one, every
-- entry of an array, and an array that is required has an entry.
pub accepted_texts :
    (args : Members) (key : String)
    → Ok IsTrimmed (required_non_empty_string args key)
      × Ok (IfGiven IsTrimmed) (optional_non_empty_string args key)
      × Ok (IfGiven (All IsTrimmed)) (optional_string_array args key)
      × Ok AreSome (required_non_empty_string_array args key)
unfolding required_non_empty_string optional_non_empty_string optional_string_array
    required_non_empty_string_array
accepted_texts args key =
    let entries = optional_entries-Ok key (present args key) in
    (
      required_text-Ok key (get key args),
      optional_text-Ok key (present args key),
      entries,
      required_array-Ok key (optional_entries key (present args key)) entries,
    )
