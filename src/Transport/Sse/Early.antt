-- ===== src/Transport/Sse/Early.antt =====
-- crates/tinymcp/src/transport/http/sse.rs: a reply that is read before the stream has ended.
use Prim.Native.Char.{Char}
use mathlib.Core.List.{append-nil, append_assoc}
use tinymcp.Common.{
  ◌≡◌, refl, sym, subst, ap, ◌∙◌, true, List, [], ◌∷◌, ◌++◌, map, Option, none, some, inl, inr,
  Result, ok, err, arith,
}
use tinymcp.Error.{Error}
use tinymcp.Json.{Value, Codec}
use tinymcp.Transport.Sse.{
  McpSseEvent, PendingEvent, no_event, newline, lines, without_returns, take_line, flush,
  then_events, parse_lines, parse_sse_events, first_response, response_if_ok, normalized,
  complete_prefix, events_of, first_complete_sse_data,
}
use tinymcp.Transport.Sse.Arriving.{ends_in_newline, begins-rest, normalized-begins}
use tinymcp.Transport.Sse.Boundary.{
  Found, complete_prefix-Found, addition, complete_prefix-append, IsAddition, addition-IsAddition,
  lines-append,
}

map-append {ℓ κ} :
    {A : Type ℓ} {B : Type κ} (f : A → B) (a b : List A) → map f (a ++ b) ≡ map f a ++ map f b
map-append f [] b = refl
map-append f (x ∷ a) b = ap (λ l. f x ∷ l) (map-append f a b)

then_events_assoc :
    (json : Codec) (a b c : Result (List McpSseEvent) Error)
    → then_events json a (then_events json b c) ≡ then_events json (then_events json a b) c
then_events_assoc json (err e) b c = refl
then_events_assoc json (ok k) (err e) c = refl
then_events_assoc json (ok k) (ok l) (err e) = refl
then_events_assoc json (ok k) (ok l) (ok m) = ap ok (sym (append_assoc k l m))

first_response-append :
    (json : Codec) (k l : List McpSseEvent) (v : Value)
    → first_response json k ≡ some v
    → first_response json (k ++ l) ≡ some v
unfolding first_response
first_response-append json [] l v h = ground arith
first_response-append json (e ∷ k) l v h = ground (arith, first_response-append json k l v)

ends_in_newline-append : (p : List Char) → ends_in_newline (p ++ newline ∷ []) ≡ true
ends_in_newline-append [] = refl
ends_in_newline-append (c ∷ []) = refl
ends_in_newline-append (c ∷ d ∷ p) = ends_in_newline-append (d ∷ p)

module _ (json : Codec) where
  -- A blank line ends the events before it.
  parse_lines-blank :
      (a b : List (List Char)) (p : PendingEvent)
      → parse_lines json (a ++ ([] ∷ b)) p
        ≡ then_events json (parse_lines json a p) (parse_lines json b no_event)
  unfolding parse_lines
  parse_lines-blank [] b p = refl
  parse_lines-blank ([] ∷ a) b p =
      ap (then_events json (flush json p)) (parse_lines-blank a b no_event)
      ∙ then_events_assoc json (flush json p) (parse_lines json a no_event)
          (parse_lines json b no_event)
  parse_lines-blank ((c ∷ l) ∷ a) b p = parse_lines-blank a b (take_line (c ∷ l) p)

  -- The answer of a longer text, when it is no error, is the reply `v`.
  abbrev pub Keeps : Value → Result (Option Value) Error → Type 0
  Keeps v (ok found) = found ≡ some v
  Keeps v (err e) = Unit

  then_events-Keeps :
      (v : Value) (a b : Result (List McpSseEvent) Error)
      → response_if_ok json a ≡ ok (some v)
      → Keeps v (response_if_ok json (then_events json a b))
  then_events-Keeps v (err e) b h = tt
  then_events-Keeps v (ok k) (err e) h = tt
  then_events-Keeps v (ok k) (ok l) h = first_response-append json k l v (ground arith)

  -- The events of a text that goes on with a blank line.
  parse-blank :
      (p t : List Char)
      → ends_in_newline p ≡ true
      → parse_sse_events json (p ++ newline ∷ t)
        ≡ then_events json (parse_sse_events json p) (parse_sse_events json t)
  unfolding parse_sse_events lines without_returns
  parse-blank p t ends =
      ap (λ k. parse_lines json (map without_returns k) no_event)
        (lines-append p (newline ∷ t) ends)
      ∙ ap (λ k. parse_lines json k no_event) (map-append without_returns (lines p) ([] ∷ lines t))
      ∙ parse_lines-blank (map without_returns (lines p)) (map without_returns (lines t)) no_event

  abbrev Kept : Value → List Char → Type 0
  Kept v text = Keeps v (response_if_ok json (parse_sse_events json text))

  addition-Keeps :
      (v : Value) (p r : List Char)
      → ends_in_newline p ≡ true
      → IsAddition r
      → response_if_ok json (parse_sse_events json p) ≡ ok (some v)
      → Kept v (p ++ r)
  addition-Keeps v p r ends (inl nothing) h =
      subst (Kept v) (sym (ap (λ k. p ++ k) nothing ∙ append-nil p)) (subst (Keeps v) (sym h) refl)
  addition-Keeps v p r ends (inr (t, more)) h = subst (Kept v) (sym (ap (λ k. p ++ k) more)) (
      subst (λ x. Keeps v (response_if_ok json x)) (sym (parse-blank p t ends))
        (then_events-Keeps v (parse_sse_events json p) (parse_sse_events json t) h))

  boundary-Keeps :
      (b m : List Char) (v : Value) (o : Option (List Char))
      → complete_prefix (normalized b) ≡ o
      → events_of json o ≡ ok (some v)
      → Keeps v (events_of json (complete_prefix (normalized (b ++ m))))
  boundary-Keeps b m v none e h = ground arith
  boundary-Keeps b m v (some p) e h =
      let found = subst (Found (normalized b)) e (complete_prefix-Found (normalized b)) in
      let (t, rest) =
        begins-rest (p ++ newline ∷ []) (normalized (b ++ m))
          (normalized-begins b m (p ++ newline ∷ []) (ends_in_newline-append p) found.1) in
      let longer =
        ap complete_prefix (rest ∙ append_assoc p (newline ∷ []) t)
        ∙ complete_prefix-append p t found.0 in
      subst (λ o. Keeps v (events_of json o)) (sym longer)
        (addition-Keeps v p (addition (complete_prefix (newline ∷ t))) found.0
          (addition-IsAddition t) h)

  -- A reply that is found in the part of a stream that has arrived is found, whatever arrives after
  -- it, unless a later event is malformed: no half of an event is read, and no later event is taken
  -- in its place.
  pub first_complete_sse_data-Keeps :
      (buffer more : List Char) (v : Value)
      → first_complete_sse_data json buffer ≡ ok (some v)
      → Keeps v (first_complete_sse_data json (buffer ++ more))
  unfolding first_complete_sse_data
  first_complete_sse_data-Keeps buffer more v h =
      boundary-Keeps buffer more v (complete_prefix (normalized buffer)) refl h
