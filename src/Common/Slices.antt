-- ===== src/Common/Slices.antt =====
-- The `str` methods that cut a text at characters, on the list of its characters.
use Prim.Native.Nat.{ℕ, suc, zero}
use Prim.Native.Char.{Char, code}
use Prim.Native.String.{String}
use mathlib.Core.Bool.{Bool, false, ◌||◌}
use mathlib.Core.Option.{Option, none, some}
use mathlib.Core.List.{List, [], ◌∷◌, map}
use tinymcp.Common.Tests.{◌==◌, if◌then◌else◌}
use tinymcp.Common.Chars.{text_of, is_prefix, to_ascii_lowercase}

abbrev pub is_char : Char → Char → Bool
is_char a c = code c == code a

-- Up to the first character that passes, as `split(p).next()`.
unfoldable pub before_first : (Char → Bool) → List Char → List Char
before_first p [] = []
before_first p (c ∷ l) = let rest = before_first p l in if p c then [] else c ∷ rest

-- After the first character that passes, as the second part of `split_once`.
unfoldable pub after_first : (Char → Bool) → List Char → Option (List Char)
after_first p [] = none
after_first p (c ∷ l) = let rest = after_first p l in if p c then some l else rest

-- After the last character that passes, where there is one.
unfoldable pub after_last : (Char → Bool) → List Char → Option (List Char)
after_last p [] = none
after_last p (c ∷ l) = elim (after_last p l) [
  | some rest ↦ some rest
  | none ↦ if p c then some l else none
]

-- The last part of `rsplit(p)`.
abbrev pub last_part : (Char → Bool) → List Char → List Char
last_part p l = elim (after_last p l) [ some rest ↦ rest | none ↦ l ]

-- `str::contains`, of a text and of a character.
unfoldable pub has_infix : List Char → List Char → Bool
unfolding is_prefix
has_infix p [] = is_prefix p []
has_infix p (c ∷ l) = is_prefix p (c ∷ l) || has_infix p l

unfoldable pub has_char : (Char → Bool) → List Char → Bool
has_char p [] = false
has_char p (c ∷ l) = p c || has_char p l

unfoldable pub trim_start_matches : (Char → Bool) → List Char → List Char
trim_start_matches p [] = []
trim_start_matches p (c ∷ l) = let rest = trim_start_matches p l in if p c then rest else c ∷ l

-- A character that passes is kept when one that is kept follows it.
abbrev pub keep_before : (Char → Bool) → Char → List Char → List Char
keep_before p c [] = if p c then [] else c ∷ []
keep_before p c (d ∷ l) = c ∷ d ∷ l

unfoldable pub trim_end_matches : (Char → Bool) → List Char → List Char
trim_end_matches p [] = []
trim_end_matches p (c ∷ l) = keep_before p c (trim_end_matches p l)

-- `str::to_ascii_lowercase`, which `eq_ignore_ascii_case` compares.
abbrev pub lowercase : List Char → String
lowercase l = text_of (map to_ascii_lowercase l)

-- `str::get(..n)` of a text of ASCII, and the text itself when it is shorter.
abbrev pub first : ℕ → List Char → List Char
first zero l = []
first (suc n) [] = []
first (suc n) (c ∷ l) = c ∷ first n l

-- `strip_prefix`, and the text itself without the prefix.
abbrev pub after_prefix : List Char → List Char → List Char
after_prefix p l = if is_prefix p l then past p l else l
  where
    past : List Char → List Char → List Char
    past [] m = m
    past (c ∷ q) [] = []
    past (c ∷ q) (d ∷ m) = past q m
