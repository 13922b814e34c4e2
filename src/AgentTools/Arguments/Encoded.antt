-- ===== src/AgentTools/Arguments/Encoded.antt =====
-- crates/tinymcp/src/agent_tools/arguments.rs: an object that is encoded in a text.
use Prim.Native.Char.{Char, code}
use Prim.Native.String.{char_at}
use text.Mathlib.TextEquality.{Char-path}
use mathlib.Core.Bool.{true≢false}
use tinymcp.Common.{
  ◌≡◌, refl, sym, ap, ◌∙◌, Bool, true, false, ◌&&◌, List, [], ◌∷◌, ◌++◌, none, some, String,
  if◌then◌else◌, ◌==◌, unwrap_or, ok, arith,
}
use tinymcp.Common.Chars.{
  chars, text_of, trim, trim_start, trim_end, unless_last, is_whitespace, chars-text_of,
  text_of-chars,
}
use tinymcp.Json.{string, object, Members, Codec}
use tinymcp.AgentTools.Arguments.{
  fence, strip_prefix, chars_eq, with_first, strip_suffix, drop_tag, without_fence, strip_fence,
  decoded, decode_object, normalize_tool_arguments,
}

abbrev newline : Char
newline = char_at "\n" 0

abbrev ends_in : Char → List Char → Bool
ends_in e [] = false
ends_in e (c ∷ []) = code c == code e
ends_in e (c ∷ d ∷ l) = ends_in e (d ∷ l)

abbrev starts_in : Char → List Char → Bool
starts_in b [] = false
starts_in b (c ∷ l) = code c == code b

abbrev left_brace : Char
left_brace = char_at "{" 0

abbrev right_brace : Char
right_brace = char_at "}" 0

-- A text between braces.
abbrev pub is_braced : String → Bool
is_braced s = starts_in left_brace (chars s) && ends_in right_brace (chars s)

-- A text in a fence of markdown, with its language.
abbrev pub in_fence : List Char → List Char
in_fence l = fence ++ ((chars "json" ++ (newline ∷ (l ++ newline ∷ []))) ++ fence)

abbrev pub fenced : String → String
fenced s = text_of (in_fence (chars s))

same_char : (c d : Char) → (code c == code d) ≡ true → c ≡ d
same_char c d h = Char-path c d (ground arith)

-- A list that begins, or ends, in a character that is no space.
trim_start-starts_in :
    (b : Char) (l : List Char) → is_whitespace b ≡ false → starts_in b l ≡ true → trim_start l ≡ l
unfolding trim_start
trim_start-starts_in b [] other h = refl
trim_start-starts_in b (c ∷ l) other h =
    ap (λ space. if space then trim_start l else c ∷ l) (ap is_whitespace (same_char c b h) ∙ other)

trim_end-ends_in :
    (e : Char) (l : List Char) → is_whitespace e ≡ false → ends_in e l ≡ true → trim_end l ≡ l
unfolding trim_end
trim_end-ends_in e [] other h = refl
trim_end-ends_in e (c ∷ []) other h =
    ap (λ space. if space then [] else c ∷ []) (ap is_whitespace (same_char c e h) ∙ other)
trim_end-ends_in e (c ∷ d ∷ l) other h = ap (unless_last c) (trim_end-ends_in e (d ∷ l) other h)

trim_end-newline :
    (e : Char) (l : List Char)
    → is_whitespace e ≡ false
    → ends_in e l ≡ true
    → trim_end (l ++ newline ∷ []) ≡ l
unfolding trim_end
trim_end-newline e [] other h = absurd (true≢false (sym h))
trim_end-newline e (c ∷ []) other h =
    ap (λ space. if space then [] else c ∷ []) (ap is_whitespace (same_char c e h) ∙ other)
trim_end-newline e (c ∷ d ∷ l) other h = ap (unless_last c) (trim_end-newline e (d ∷ l) other h)

ends_in-append : (e : Char) (k l : List Char) → ends_in e l ≡ true → ends_in e (k ++ l) ≡ true
ends_in-append e [] l h = h
ends_in-append e (c ∷ k) [] h = absurd (true≢false (sym h))
ends_in-append e (c ∷ []) (d ∷ l) h = h
ends_in-append e (c ∷ x ∷ k) (d ∷ l) h = ends_in-append e (x ∷ k) (d ∷ l) h

starts_in-append : (b : Char) (k l : List Char) → starts_in b k ≡ true → starts_in b (k ++ l) ≡ true
starts_in-append b [] l h = absurd (true≢false (sym h))
starts_in-append b (c ∷ k) l h = h

-- A list that is longer than the fence is not the fence.
longer_than_fence : (c : Char) (q : List Char) → chars_eq (c ∷ q ++ fence) fence ≡ false
longer_than_fence c [] = ground arith
longer_than_fence c (a ∷ []) = ground arith
longer_than_fence c (a ∷ b ∷ []) = ground arith
longer_than_fence c (a ∷ b ∷ d ∷ q) = ground arith

strip_suffix-append : (q : List Char) → strip_suffix fence (q ++ fence) ≡ some q
unfolding strip_suffix
strip_suffix-append [] = refl
strip_suffix-append (c ∷ q) =
    ap (λ same. if same then some [] else with_first c (strip_suffix fence (q ++ fence)))
      (longer_than_fence c q)
    ∙ ap (with_first c) (strip_suffix-append q)

no_fence : (l : List Char) → starts_in left_brace l ≡ true → strip_prefix fence l ≡ none
unfolding strip_prefix
no_fence [] h = refl
no_fence (c ∷ l) h =
    ap (λ d. if code (char_at "`" 0) == code d then strip_prefix (chars "``") l else none)
      (same_char c left_brace h)

trimmed_braces :
    (l : List Char)
    → starts_in left_brace l ≡ true
    → ends_in right_brace l ≡ true
    → trim_end (trim_start l) ≡ l
trimmed_braces l starts ends =
    ap trim_end (trim_start-starts_in left_brace l refl starts)
    ∙ trim_end-ends_in right_brace l refl ends

strip_fence-braced :
    (s : String)
    → starts_in left_brace (chars s) ≡ true
    → ends_in right_brace (chars s) ≡ true
    → strip_fence s ≡ s
unfolding strip_fence trim
strip_fence-braced s starts ends =
    ap (λ l. without_fence l (strip_prefix fence l))
      (chars-text_of (trim_end (trim_start (chars s))) ∙ trimmed_braces (chars s) starts ends)
    ∙ ap (without_fence (chars s)) (no_fence (chars s) starts)
    ∙ text_of-chars s

-- The fence of a text comes off, and its language.
inner_text :
    (l : List Char)
    → starts_in left_brace l ≡ true
    → ends_in right_brace l ≡ true
    → trim (text_of (newline ∷ (l ++ newline ∷ []))) ≡ text_of l
unfolding trim trim_start
inner_text l starts ends =
    ap (λ k. text_of (trim_end (trim_start k))) (chars-text_of (newline ∷ (l ++ newline ∷ [])))
    ∙ ap (λ k. text_of (trim_end k))
        (trim_start-starts_in left_brace (l ++ newline ∷ []) refl
          (starts_in-append left_brace l (newline ∷ []) starts))
    ∙ ap text_of (trim_end-newline right_brace l refl ends)

in_fence-trimmed : (l : List Char) → trim_end (trim_start (in_fence l)) ≡ in_fence l
in_fence-trimmed l =
    ap trim_end (trim_start-starts_in (char_at "`" 0) (in_fence l) refl refl)
    ∙ trim_end-ends_in (char_at "`" 0) (in_fence l) refl (
        ends_in-append (char_at "`" 0) fence
          ((chars "json" ++ (newline ∷ (l ++ newline ∷ []))) ++ fence)
          (ends_in-append (char_at "`" 0) (chars "json" ++ (newline ∷ (l ++ newline ∷ []))) fence
            refl))

strip_fence-fenced :
    (s : String)
    → starts_in left_brace (chars s) ≡ true
    → ends_in right_brace (chars s) ≡ true
    → strip_fence (fenced s) ≡ s
unfolding strip_fence trim strip_prefix
strip_fence-fenced s starts ends =
    let l = chars s in
    let inner = chars "json" ++ (newline ∷ (l ++ newline ∷ [])) in
    ap (λ k. without_fence k (strip_prefix fence k))
      (chars-text_of (trim_end (trim_start (chars (fenced s))))
        ∙ ap (λ k. trim_end (trim_start k)) (chars-text_of (in_fence l))
        ∙ in_fence-trimmed l)
    ∙ ap (λ o. trim (text_of (drop_tag (unwrap_or o (inner ++ fence))))) (strip_suffix-append inner)
    ∙ inner_text l starts ends
    ∙ text_of-chars s

braced-starts : (s : String) → is_braced s ≡ true → starts_in left_brace (chars s) ≡ true
braced-starts s h = ground arith

braced-ends : (s : String) → is_braced s ≡ true → ends_in right_brace (chars s) ≡ true
braced-ends s h = ground arith

-- An object is read as itself, whether it comes as an object, as a text between braces that decodes
-- to it, or as that text in a fence of markdown marked as JSON.
pub encoded_object :
    (json : Codec) (m : Members) (s : String)
    → is_braced s ≡ true
    → json.from_str s ≡ ok (object m)
    → (normalize_tool_arguments json (some (object m)) ≡ ok m)
      × (normalize_tool_arguments json (some (string s)) ≡ ok m)
      × (normalize_tool_arguments json (some (string (fenced s))) ≡ ok m)
unfolding normalize_tool_arguments decode_object
encoded_object json m s braced decodes =
    let starts = braced-starts s braced in
    let ends = braced-ends s braced in
    let reads = ap (decoded json) decodes in
    (
      refl,
      ap (λ t. decoded json (json.from_str t)) (strip_fence-braced s starts ends) ∙ reads,
      ap (λ t. decoded json (json.from_str t)) (strip_fence-fenced s starts ends) ∙ reads,
    )
