-- ===== src/Transport/Sse/Boundary.antt =====
-- crates/tinymcp/src/transport/http/sse.rs: the boundary of the last complete event.
use Prim.Native.Char.{Char}
use mathlib.Core.Bool.{true≢false}
use tinymcp.Common.{
  ◌≡◌, refl, sym, ap, ◌∙◌, Bool, true, false, ◌&&◌, List, [], ◌∷◌, ◌++◌, Option, none, some,
  if◌then◌else◌, if_split, ◌⊎◌, inl, inr, arith,
}
use tinymcp.Transport.Sse.{
  is_char, newline, lines, put_first, starts_with_newline, prefix_or, complete_prefix,
}
use tinymcp.Transport.Sse.Arriving.{ends_in_newline, begins}

-- A prefix that is found ends in a newline, and another one follows it.
abbrev pub Found : List Char → Option (List Char) → Type 0
Found l none = Unit
Found l (some p) = (ends_in_newline p ≡ true) × (begins (p ++ newline ∷ []) l ≡ true)

ends_in_newline-cons :
    (c : Char) (p : List Char) → ends_in_newline p ≡ true → ends_in_newline (c ∷ p) ≡ true
ends_in_newline-cons c [] h = absurd (true≢false (sym h))
ends_in_newline-cons c (d ∷ p) h = h

two_newlines :
    (c : Char) (l : List Char)
    → (is_char c newline && starts_with_newline l) ≡ true
    → Found (c ∷ l) (some (c ∷ []))
two_newlines c [] h = ground arith
two_newlines c (d ∷ l) h = ground arith

prefix_or-Found :
    (c : Char) (l : List Char) (o : Option (List Char))
    → Found l o
    → Found (c ∷ l) (prefix_or c (is_char c newline && starts_with_newline l) o)
prefix_or-Found c l (some p) f = (ends_in_newline-cons c p f.0, ground arith)
prefix_or-Found c l none f =
    if_split (Found (c ∷ l)) (is_char c newline && starts_with_newline l) (λ h. two_newlines c l h)
      (λ _. tt)

pub complete_prefix-Found : (l : List Char) → Found l (complete_prefix l)
unfolding complete_prefix
complete_prefix-Found [] = tt
complete_prefix-Found (c ∷ l) = prefix_or-Found c l (complete_prefix l) (complete_prefix-Found l)

-- What a later boundary adds to an earlier one.
abbrev pub addition : Option (List Char) → List Char
addition none = []
addition (some v) = v

later_boundary :
    (c : Char) (o : Option (List Char))
    → is_char c newline ≡ true
    → prefix_or c (is_char c newline && true) o ≡ some (c ∷ addition o)
later_boundary c none h = ground arith
later_boundary c (some v) h = refl

pub complete_prefix-append :
    (p t : List Char)
    → ends_in_newline p ≡ true
    → complete_prefix (p ++ newline ∷ t) ≡ some (p ++ addition (complete_prefix (newline ∷ t)))
unfolding complete_prefix
complete_prefix-append [] t h = absurd (true≢false (sym h))
complete_prefix-append (c ∷ []) t h = later_boundary c (complete_prefix (newline ∷ t)) h
complete_prefix-append (c ∷ d ∷ p) t h =
    ap (prefix_or c (is_char c newline && starts_with_newline (d ∷ p ++ newline ∷ t)))
      (complete_prefix-append (d ∷ p) t h)

-- It is nothing, or begins with the newline that ended the earlier event.
abbrev pub IsAddition : List Char → Type 0
IsAddition r = (r ≡ []) ⊎ ((v : List Char) × (r ≡ newline ∷ v))

prefix_or-IsAddition :
    (b : Bool) (o : Option (List Char)) → IsAddition (addition (prefix_or newline b o))
prefix_or-IsAddition b (some p) = inr (p, refl)
prefix_or-IsAddition true none = inr ([], refl)
prefix_or-IsAddition false none = inl refl

pub addition-IsAddition : (t : List Char) → IsAddition (addition (complete_prefix (newline ∷ t)))
unfolding complete_prefix
addition-IsAddition t = prefix_or-IsAddition _ (complete_prefix t)

-- Lines.
abbrev has_line : List (List Char) → Bool
has_line [] = false
has_line (_ ∷ _) = true

has_line-put_first : (c : Char) (a : List (List Char)) → has_line (put_first c a) ≡ true
has_line-put_first c [] = refl
has_line-put_first c (l ∷ a) = refl

has_line-lines : (d : Char) (l : List Char) → has_line (lines (d ∷ l)) ≡ true
unfolding lines
has_line-lines d l =
    if_split (λ a. has_line a ≡ true) (is_char d newline) (λ _. refl)
      (λ _. has_line-put_first d (lines l))

-- One more character before lines that have begun.
more_lines :
    (c : Char) (ends : Bool) (a b : List (List Char))
    → has_line a ≡ true
    → (if ends then [] ∷ (a ++ b) else put_first c (a ++ b))
      ≡ (if ends then [] ∷ a else put_first c a) ++ b
more_lines c true a b h = refl
more_lines c false [] b h = absurd (true≢false (sym h))
more_lines c false (l ∷ a) b h = refl

pub lines-append :
    (p r : List Char) → ends_in_newline p ≡ true → lines (p ++ r) ≡ lines p ++ lines r
unfolding lines
lines-append [] r h = absurd (true≢false (sym h))
lines-append (c ∷ []) r h =
    ap (λ ends. if ends then [] ∷ lines r else put_first c (lines r)) h
    ∙ ap (λ ends. (if ends then [] ∷ [] else put_first c []) ++ lines r) (sym h)
lines-append (c ∷ d ∷ p) r h =
    ap (λ k. if is_char c newline then [] ∷ k else put_first c k) (lines-append (d ∷ p) r h)
    ∙ more_lines c (is_char c newline) (lines (d ∷ p)) (lines r) (has_line-lines d p)
