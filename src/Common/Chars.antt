-- ===== src/Common/Chars.antt =====
-- Texts as lists of characters, with the tests and the trimming of Rust's `char` and `str`.
use Prim.Native.Nat.{ℕ, zero, suc, ◌+◌, ◌-◌, ◌<◌}
use Prim.Native.Char.{Char, code}
use Prim.Native.String.{String, char_at}
use mathlib.Core.Path.{◌≡◌, refl, ap}
use mathlib.Core.Bool.{Bool, true, false, ◌&&◌, ◌||◌}
use mathlib.Core.List.{List, [], ◌∷◌}
use native.Mathlib.Omega.{arith}
use tinymcp.Common.Tests.{leb, ◌==◌, if◌then◌else◌}

abbrev pub chars : String → List Char
chars String.[] = []
chars (String.◌∷◌ c s) = c ∷ chars s

abbrev pub text_of : List Char → String
text_of [] = ""
text_of (c ∷ l) = String.◌∷◌ c (text_of l)

pub text_of-chars : (s : String) → text_of (chars s) ≡ s
text_of-chars String.[] = refl
text_of-chars (String.◌∷◌ c s) = ap (String.◌∷◌ c) (text_of-chars s)

pub chars-text_of : (l : List Char) → chars (text_of l) ≡ l
chars-text_of [] = refl
chars-text_of (c ∷ l) = ap (λ m. c ∷ m) (chars-text_of l)

abbrev pub is_between : ℕ → ℕ → ℕ → Bool
is_between low high n = leb low n && leb n high

abbrev pub is_upper : Char → Bool
is_upper c = is_between 65 90 (code c)

abbrev pub is_lower : Char → Bool
is_lower c = is_between 97 122 (code c)

abbrev pub is_digit : Char → Bool
is_digit c = is_between 48 57 (code c)

-- `char::is_ascii_alphanumeric`.
abbrev pub is_ascii_alphanumeric : Char → Bool
is_ascii_alphanumeric c = is_upper c || is_lower c || is_digit c

-- `char::to_ascii_lowercase`: a capital's place in the alphabet.
abbrev pub to_ascii_lowercase : Char → Char
to_ascii_lowercase c = if is_upper c then char_at "abcdefghijklmnopqrstuvwxyz" (code c - 65) else c

-- `char::is_whitespace`: the characters with the property White_Space.
abbrev pub is_whitespace : Char → Bool
is_whitespace c =
    is_between 9 13 (code c)
    || code c == 32
    || code c == 133
    || code c == 160
    || code c == 5760
    || is_between 8192 8202 (code c)
    || is_between 8232 8233 (code c)
    || code c == 8239
    || code c == 8287
    || code c == 12288

-- `str::starts_with`.
unfoldable pub is_prefix : List Char → List Char → Bool
is_prefix [] l = true
is_prefix (c ∷ p) [] = false
is_prefix (c ∷ p) (d ∷ l) = code c == code d && is_prefix p l

unfoldable pub starts_with : String → String → Bool
unfolding is_prefix
starts_with s prefix = is_prefix (chars prefix) (chars s)

unfoldable pub trim_start : List Char → List Char
trim_start [] = []
trim_start (c ∷ l) = let rest = trim_start l in if is_whitespace c then rest else c ∷ l

-- A space is kept when a character that is kept follows it.
abbrev pub unless_last : Char → List Char → List Char
unless_last c [] = if is_whitespace c then [] else c ∷ []
unless_last c (d ∷ l) = c ∷ d ∷ l

unfoldable pub trim_end : List Char → List Char
trim_end [] = []
trim_end (c ∷ l) = unless_last c (trim_end l)

-- `str::trim`.
unfoldable pub trim : String → String
unfolding trim_start trim_end
trim s = text_of (trim_end (trim_start (chars s)))

-- A test that holds below a bound holds of each number below it.
abbrev below : (ℕ → Bool) → ℕ → Bool
below p zero = true
below p (suc k) = p k && below p k

below_lem : (p : ℕ → Bool) (k n : ℕ) → below p k ≡ true → n < k → p n ≡ true
below_lem p zero n h less = ground arith
below_lem p (suc k) n h less = ground (arith, below_lem p k n)

abbrev is_place : ℕ → Bool
is_place n = code (char_at "abcdefghijklmnopqrstuvwxyz" n) == n + 97

pub to_ascii_lowercase-code :
    (c : Char) → is_upper c ≡ true → code (to_ascii_lowercase c) ≡ code c + 32
to_ascii_lowercase-code c h =
    ground (arith, below_lem is_place 26 (code c - 65) refl (ground arith))
