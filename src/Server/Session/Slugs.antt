-- ===== src/Server/Session/Slugs.antt =====
-- crates/tinymcp/src/server/session/mod.rs: what the names of clients look like.
use Prim.Native.Char.{Char, code}
use mathlib.Core.List.{append-nil}
use text.Mathlib.TextEquality.{Char-path}
use tinymcp.Common.{
  ◌≡◌, refl, ap, ◌∙◌, Bool, true, false, ◌&&◌, ◌||◌, not, List, [], ◌∷◌, Option, none, some, String,
  arith, ◌==◌, ◌++◌,
}
use tinymcp.Common.Chars.{
  chars, text_of, trim, trim_start, trim_end, is_lower, is_digit, to_ascii_lowercase-code,
  chars-text_of, text_of-chars,
}
use tinymcp.Server.Session.{
  dash, is_nil, push_char, push_all, pop_dashes, reverse_onto, unless_empty, normalize_client_name,
}

abbrev pub is_word : Char → Bool
is_word c = is_lower c || is_digit c

abbrev pub is_dash : Char → Bool
is_dash c = code c == code dash

-- Words of small letters and digits with one dash between two; `after_word` tells whether a word's
-- character stands before.
abbrev pub is_slug_from : Bool → List Char → Bool
is_slug_from after_word [] = after_word
is_slug_from after_word (c ∷ l) =
    (is_word c && is_slug_from true l) || (is_dash c && after_word && is_slug_from false l)

abbrev pub is_slug : String → Bool
is_slug s = is_slug_from false (chars s)

-- The texts under construction, last character first.
abbrev ends_in_word : List Char → Bool
ends_in_word [] = false
ends_in_word (c ∷ r) = is_word c

abbrev is_begun : List Char → Bool
is_begun [] = true
is_begun (c ∷ r) = (is_word c || (is_dash c && ends_in_word r)) && is_begun r

reverse_onto-is_slug :
    (r l : List Char)
    → is_begun r ≡ true
    → is_slug_from (ends_in_word r) l ≡ true
    → is_slug_from false (reverse_onto r l) ≡ true
reverse_onto-is_slug [] l begun h = h
reverse_onto-is_slug (c ∷ r) l begun h =
    reverse_onto-is_slug r (c ∷ l) (ground arith) (ground arith)

-- The accumulator, and what the flag says of it.
abbrev IsBegun : List Char × Bool → Type 0
IsBegun (r, separated) = (is_begun r ≡ true) × ((ends_in_word r || is_nil r) ≡ not separated)

push_char-IsBegun : (c : Char) (n : List Char × Bool) → IsBegun n → IsBegun (push_char c n)
push_char-IsBegun c n h = ground (arith, to_ascii_lowercase-code c)

push_all-IsBegun : (l : List Char) (n : List Char × Bool) → IsBegun n → IsBegun (push_all l n)
unfolding push_all
push_all-IsBegun [] n h = h
push_all-IsBegun (c ∷ l) n h = push_all-IsBegun l (push_char c n) (push_char-IsBegun c n h)

pop_dashes-is_begun :
    (r : List Char)
    → is_begun r ≡ true
    → (is_begun (pop_dashes r) ≡ true)
      × ((ends_in_word (pop_dashes r) || is_nil (pop_dashes r)) ≡ true)
unfolding pop_dashes
pop_dashes-is_begun [] h = (refl, refl)
pop_dashes-is_begun (c ∷ r) h = ground (arith, pop_dashes-is_begun r)

-- A name, when there is one.
abbrev pub IsName : Option String → Type 0
IsName none = Unit
IsName (some name) = is_slug name ≡ true

unless_empty-IsName :
    (r : List Char)
    → is_begun r ≡ true
    → (ends_in_word r || is_nil r) ≡ true
    → IsName (unless_empty r)
unless_empty-IsName [] begun h = tt
unless_empty-IsName (c ∷ r) begun h =
    ap (is_slug_from false) (chars-text_of (reverse_onto (c ∷ r) []))
    ∙ reverse_onto-is_slug (c ∷ r) [] begun (ground arith)

pub normalize_client_name-IsName : (raw : String) → IsName (normalize_client_name raw)
unfolding normalize_client_name
normalize_client_name-IsName raw =
    let pushed = push_all-IsBegun (chars (trim raw)) ([], false) (refl, refl) in
    let popped = pop_dashes-is_begun (push_all (chars (trim raw)) ([], false)).0 pushed.0 in
    unless_empty-IsName _ popped.0 popped.1

trim_start-is_slug : (b : Bool) (l : List Char) → is_slug_from b l ≡ true → trim_start l ≡ l
unfolding trim_start
trim_start-is_slug b [] h = refl
trim_start-is_slug b (c ∷ l) h = ground arith

trim_end-is_slug : (b : Bool) (l : List Char) → is_slug_from b l ≡ true → trim_end l ≡ l
unfolding trim_end
trim_end-is_slug b [] h = refl
trim_end-is_slug b (c ∷ l) h = ground (arith, trim_end-is_slug true l, trim_end-is_slug false l)

-- A name goes through the loop unchanged, and ends in a word.
push_all-is_slug :
    (l r : List Char) (separated : Bool)
    → is_slug_from (ends_in_word r) l ≡ true
    → (ends_in_word r || is_nil r) ≡ not separated
    → ((push_all l (r, separated)).0 ≡ reverse_onto l r) × (ends_in_word (reverse_onto l r) ≡ true)
unfolding push_all
push_all-is_slug [] r b h flag = (refl, h)
push_all-is_slug (c ∷ l) r b h flag =
    ground
      (arith, push_all-is_slug l (c ∷ r) true, push_all-is_slug l (c ∷ r) false, Char-path c dash)

unless_empty-pop_dashes :
    (r : List Char)
    → ends_in_word r ≡ true
    → unless_empty (pop_dashes r) ≡ some (text_of (reverse_onto r []))
unfolding pop_dashes
unless_empty-pop_dashes [] h = ground arith
unless_empty-pop_dashes (c ∷ r) h = ground arith

reverse_onto_twice :
    (l r s : List Char) → reverse_onto (reverse_onto l r) s ≡ reverse_onto r (l ++ s)
reverse_onto_twice [] r s = refl
reverse_onto_twice (c ∷ l) r s = reverse_onto_twice l (c ∷ r) s

chars-trim : (s : String) → is_slug s ≡ true → chars (trim s) ≡ chars s
unfolding trim
chars-trim s h =
    chars-text_of (trim_end (trim_start (chars s)))
    ∙ ap trim_end (trim_start-is_slug false (chars s) h)
    ∙ trim_end-is_slug false (chars s) h

-- A name is what it is normalized to.
normalize_client_name-is_slug : (s : String) → is_slug s ≡ true → normalize_client_name s ≡ some s
unfolding normalize_client_name
normalize_client_name-is_slug s h =
    let pushed = push_all-is_slug (chars s) [] false h refl in
    ap (λ l. unless_empty (pop_dashes (push_all l ([], false)).0)) (chars-trim s h)
    ∙ ap (λ r. unless_empty (pop_dashes r)) pushed.0
    ∙ unless_empty-pop_dashes (reverse_onto (chars s) []) pushed.1
    ∙ ap (λ l. some (text_of l)) (reverse_onto_twice (chars s) [] [] ∙ append-nil (chars s))
    ∙ ap some (text_of-chars s)

-- Either nothing of the client's name survives, or it is normalized to words of small letters and
-- digits with single dashes between them, and to that every further time.
abbrev pub IsNormal : Option String → Type 0
IsNormal none = Unit
IsNormal (some name) = (is_slug name ≡ true) × (normalize_client_name name ≡ some name)

IsName→IsNormal : (o : Option String) → IsName o → IsNormal o
IsName→IsNormal none h = tt
IsName→IsNormal (some name) h = (h, normalize_client_name-is_slug name h)

pub normalize_client_name-IsNormal : (raw : String) → IsNormal (normalize_client_name raw)
normalize_client_name-IsNormal raw =
    IsName→IsNormal (normalize_client_name raw) (normalize_client_name-IsName raw)
