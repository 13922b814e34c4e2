-- ===== src/Transport/Sse/Arriving.antt =====
-- crates/tinymcp/src/transport/http/sse.rs: how the newlines of a text are read while more of it arrives.
use Prim.Native.Char.{Char}
use mathlib.Core.Bool.{true≢false}
use text.Mathlib.TextEquality.{Char-path}
use tinymcp.Common.{
  ◌≡◌, refl, sym, ap, ◌∙◌, Bool, true, false, ◌&&◌, List, [], ◌∷◌, ◌++◌, if◌then◌else◌, Bool-cases,
  inl, inr, arith,
}
use tinymcp.Transport.Sse.{is_char, newline, return, starts_with_newline, normalized}

abbrev pub ends_in_newline : List Char → Bool
ends_in_newline [] = false
ends_in_newline (c ∷ []) = is_char c newline
ends_in_newline (c ∷ d ∷ l) = ends_in_newline (d ∷ l)

-- `l` begins with `q`.
abbrev pub begins : List Char → List Char → Bool
begins [] l = true
begins (d ∷ q) [] = false
begins (d ∷ q) (c ∷ l) = is_char d c && begins q l

pub begins-rest : (q l : List Char) → begins q l ≡ true → (t : List Char) × (l ≡ q ++ t)
begins-rest [] l h = (l, refl)
begins-rest (d ∷ q) [] h = absurd (true≢false (sym h))
begins-rest (d ∷ q) (c ∷ l) h =
    let (t, e) = begins-rest q l (ground arith) in
    (t, ap (λ x. x ∷ l) (Char-path c d (ground arith)) ∙ ap (λ k. d ∷ k) e)

pub begins-append : (q t : List Char) → begins q (q ++ t) ≡ true
begins-append [] t = refl
begins-append (d ∷ q) t = ground (arith, begins-append q t)

normalized_kept :
    (c : Char) (l : List Char)
    → (is_char c return && starts_with_newline l) ≡ false
    → normalized (c ∷ l) ≡ c ∷ normalized l
unfolding normalized
normalized_kept c l h = ap (λ b. if b then normalized l else c ∷ normalized l) h

normalized_dropped :
    (c : Char) (l : List Char)
    → (is_char c return && starts_with_newline l) ≡ true
    → normalized (c ∷ l) ≡ normalized l
unfolding normalized
normalized_dropped c l h = ap (λ b. if b then normalized l else c ∷ normalized l) h

starts_with_newline-append :
    (l m : List Char) → starts_with_newline l ≡ true → starts_with_newline (l ++ m) ≡ true
starts_with_newline-append [] m h = ground arith
starts_with_newline-append (c ∷ l) m h = h

dropped_before :
    (c : Char) (l m : List Char)
    → (is_char c return && starts_with_newline l) ≡ true
    → (is_char c return && starts_with_newline (l ++ m)) ≡ true
dropped_before c l m h = ground (arith, starts_with_newline-append l m)

newline_is_no_return :
    (c : Char) (b : Bool) → is_char c newline ≡ true → (is_char c return && b) ≡ false
newline_is_no_return c b h = ground arith

-- A character that stays, when what comes after it does.
kept-begins :
    (c : Char) (l m q : List Char)
    → (is_char c return && starts_with_newline l) ≡ false
    → ends_in_newline q ≡ true
    → begins q (c ∷ normalized l) ≡ true
    → ((r : List Char)
        → ends_in_newline r ≡ true
        → begins r (normalized l) ≡ true
        → begins r (normalized (l ++ m)) ≡ true)
    → begins q (normalized (c ∷ (l ++ m))) ≡ true
unfolding normalized
kept-begins c l m [] kept e h later = absurd (true≢false (sym e))
kept-begins c l m (d ∷ []) kept e h later =
    let none_dropped = newline_is_no_return c (starts_with_newline (l ++ m)) (ground arith) in
    ap (begins (d ∷ [])) (normalized_kept c (l ++ m) none_dropped) ∙ ground arith
kept-begins c [] m (d ∷ x ∷ q) kept e h later = ground arith
kept-begins c (y ∷ l) m (d ∷ x ∷ q) kept e h later =
    ap (begins (d ∷ x ∷ q)) (normalized_kept c (y ∷ l ++ m) kept) ∙ ground (arith, later (x ∷ q))

-- What is read of a text up to a newline stays when more of the text arrives.
pub normalized-begins :
    (b m q : List Char)
    → ends_in_newline q ≡ true
    → begins q (normalized b) ≡ true
    → begins q (normalized (b ++ m)) ≡ true
unfolding normalized
normalized-begins [] m [] e h = absurd (true≢false (sym e))
normalized-begins [] m (d ∷ q) e h = absurd (true≢false (sym h))
normalized-begins (c ∷ l) m q e h = elim (Bool-cases (is_char c return && starts_with_newline l)) [
  | inl dropped ↦
      ap (begins q) (normalized_dropped c (l ++ m) (dropped_before c l m dropped))
      ∙ normalized-begins l m q e (sym (ap (begins q) (normalized_dropped c l dropped)) ∙ h)
  | inr kept ↦
      kept-begins c l m q kept e (sym (ap (begins q) (normalized_kept c l kept)) ∙ h)
        (λ r. normalized-begins l m r)
]
