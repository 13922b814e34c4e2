-- ===== src/Server/Protocol/Agreement.antt =====
-- crates/tinymcp/src/server/protocol/mod.rs: the bounded answer of a line against the unbounded
-- one.
use Prim.Native.String.{◌++◌, len}
use text.Mathlib.TextLemmas.{nil-append}
use tinymcp.Common.{
  ℕ, ◌≤◌, ltb, leb, ◌==◌, ◌&&◌, ◌≡◌, refl, sym, subst, ap, ◌∙◌, Bool, true, false, List, [], ◌∷◌,
  Option, none, some, String, if_split, arith, Result, ok, err,
}
use tinymcp.Json.{
  Value, null, bool, number, string, array, object, nil, cons, Codec, list_items, items_list,
}
use tinymcp.Server.Declarations.{RequestHeaders}
use tinymcp.Server.Session.{ClientSession}
use tinymcp.Server.Protocol.Requests.{Handler}
use tinymcp.Server.Protocol.Messages.{
  no_messages, push_some, frame, handle_parsed, handle_single_message, handle_each, handle_value,
  handle_line,
}
use tinymcp.Server.Protocol.Bounded.{
  Output, write, too_small, minimum_response_len, emit, close, as_line, limited, continue_with,
  bounded_each, closed, bounded_parsed, handle_line_bounded,
}
use tinymcp.Server.Protocol.Limits.{
  Holds, IsFitting, IsEmitted, plain, plain_all, printed, nothing, emit-IsEmitted,
  plain_all-printed, write-IsFitting,
}

module _ {S : Type 0} (json : Codec) (h : Handler S) (headers : RequestHeaders) (limit : ℕ) where
  -- The loop, when it goes through, writes the responses of the unbounded loop and ends in its state.
  abbrev Follows :
      Bool
      → List Value × (ClientSession × S)
      → Output
      → Option Output × (ClientSession × S)
      → Type 0
  Follows batch (l, w0) o (none, w) = Unit
  Follows batch (l, w0) o (some o1, w) =
      (o1 ≡ plain_all json batch l o) × (w ≡ w0) × (len o1.out ≤ limit)

  Follows-push_some :
      (batch : Bool) (r : Option Value) (l : List Value) (w0 : ClientSession × S) (o o1 : Output)
      (x : Option Output × (ClientSession × S))
      → o1 ≡ plain json batch r o
      → Follows batch (l, w0) o1 x
      → Follows batch (push_some r l, w0) o x
  Follows-push_some batch r l w0 o o1 (none, w) e f = tt
  Follows-push_some batch none l w0 o o1 (some o2, w) e f =
      (f.0 ∙ ap (plain_all json batch l) e, f.1, f.2)
  Follows-push_some batch (some v) l w0 o o1 (some o2, w) e f =
      (f.0 ∙ ap (plain_all json batch l) e, f.1, f.2)

  continue-Follows :
      (batch : Bool) (r : Option Value) (items : List Value) (o : Output) (w : ClientSession × S)
      (emitted : Option Output)
      → Holds (IsEmitted json limit (plain json batch r o)) emitted
      → ((o1 : Output)
          → len o1.out ≤ limit
          → Follows batch
              (handle_each json h headers items w)
              o1
              (bounded_each json h headers limit batch false items o1 w))
      → Follows batch
          (
            push_some r (handle_each json h headers items w).0,
            (handle_each json h headers items w).1,
          )
          o
          (continue_with json h headers limit emitted
            (bounded_each json h headers limit batch false items)
            w)
  continue-Follows batch r items o w none e rest = tt
  continue-Follows batch r items o w (some o1) e rest =
      Follows-push_some batch r (handle_each json h headers items w).0
        (handle_each json h headers items w).1 o o1
        (bounded_each json h headers limit batch false items o1 w) e.0 (rest o1 e.1)

  bounded_each-Follows :
      (batch : Bool) (items : List Value) (o : Output) (w : ClientSession × S)
      → len o.out ≤ limit
      → Follows batch
          (handle_each json h headers items w)
          o
          (bounded_each json h headers limit batch false items o w)
  unfolding bounded_each handle_each
  bounded_each-Follows batch [] o w fits = (refl, refl, fits)
  bounded_each-Follows batch (item ∷ items) o w fits =
      let x = handle_single_message json h headers item w in
      let full = handle_each json h headers (item ∷ items) w in
      if_split (Follows batch full o) (batch && too_small limit o (minimum_response_len json item))
        (λ _. tt)
        (λ _.
          continue-Follows batch x.0 items o x.1 (emit json limit batch x.0 o)
            (emit-IsEmitted json limit batch x.0 o fits)
            (λ o1 f. bounded_each-Follows batch items o1 x.1 f))

  abbrev fits : Option String → Bool
  fits none = true
  fits (some line) = leb (len line) limit

  -- A bounded answer, when there is one, against the unbounded one, with the states after them.
  abbrev pub Agrees :
      Result (Option String) (Unit {0}) × (ClientSession × S)
      → Option String × (ClientSession × S)
      → Type 0
  Agrees (err e, w) x = Unit
  Agrees (ok line, w) (line0, w0) = (line ≡ line0) × (w ≡ w0) × (fits line ≡ true)

  -- The printer's law.
  abbrev pub PrintsArrays : Type 0
  PrintsArrays = (l : List Value) → json.to_string (array (list_items l)) ≡ printed json l

  as_line-Agrees :
      (m : Option String) (out line : String) (w w0 : ClientSession × S)
      → Holds (IsFitting limit out) m
      → out ≡ line
      → w ≡ w0
      → Agrees (as_line m, w) (some line, w0)
  as_line-Agrees none out line w w0 f e same = tt
  as_line-Agrees (some t) out line w w0 f e same = (ap some (f.0 ∙ e), same, ground arith)

  -- The end of a batch.
  batch-Agrees :
      PrintsArrays
      → (l : List Value) (o : Output) (w w0 : ClientSession × S) → o ≡ plain_all json true l nothing
      → len o.out ≤ limit
      → w ≡ w0
      → Agrees (close json limit true o, w) (frame json h headers true l, w0)
  batch-Agrees prints [] o w w0 e f same = ground arith
  batch-Agrees prints (v ∷ l) o w w0 e f same =
      let lemma = plain_all-printed json v l in
      let counted = ap (λ x. x.count == 0) e ∙ lemma.1 in
      let line = json.to_string (array (list_items (v ∷ l))) in
      if_split (λ x. Agrees (x, w) (some line, w0)) (o.count == 0)
        (λ empty. absurd (ground (arith, counted, empty)))
        (λ _.
          as_line-Agrees (write limit "]" o.out) (o.out ++ "]") line w w0
            (write-IsFitting limit "]" o.out f)
            (ap (λ x. x.out ++ "]") e ∙ lemma.0 ∙ sym (prints (v ∷ l))) same)

  -- The end of a line that is no batch, which has at most one response.
  single-Agrees :
      (r : Option Value) (o : Output) (w w0 : ClientSession × S)
      → o ≡ plain_all json false (push_some r []) nothing
      → len o.out ≤ limit
      → w ≡ w0
      → Agrees (close json limit false o, w) (frame json h headers false (push_some r []), w0)
  single-Agrees none o w w0 e f same = ground arith
  single-Agrees (some v) o w w0 e f same = ground (arith, nil-append (json.to_string v))

  batch-closed :
      PrintsArrays
      → (l : List Value) (w0 : ClientSession × S) (x : Option Output × (ClientSession × S))
      → Follows true (l, w0) nothing x
      → Agrees (closed json h headers limit true x) (frame json h headers true l, w0)
  batch-closed prints l w0 (none, w) f = tt
  batch-closed prints l w0 (some o, w) f = batch-Agrees prints l o w w0 f.0 f.2 f.1

  single-closed :
      (r : Option Value) (w0 : ClientSession × S) (x : Option Output × (ClientSession × S))
      → Follows false (push_some r [], w0) nothing x
      → Agrees
          (closed json h headers limit false x)
          (frame json h headers false (push_some r []), w0)
  single-closed r w0 (none, w) f = tt
  single-closed r w0 (some o, w) f = single-Agrees r o w w0 f.0 f.2 f.1

  no_messages-closed :
      (w : ClientSession × S) (m : Option Output)
      → Holds (IsEmitted json limit (plain json false (some no_messages) nothing)) m
      → Agrees
          (closed json h headers limit false (
            continue_with json h headers limit m
              (bounded_each json h headers limit false true [])
              w))
          (frame json h headers false (no_messages ∷ []), w)
  unfolding bounded_each
  no_messages-closed w none f = tt
  no_messages-closed w (some o) f = single-Agrees (some no_messages) o w w f.0 f.1 refl

  empty_batch-Agrees :
      (w : ClientSession × S)
      → Agrees
          (closed json h headers limit false
            (bounded_each json h headers limit false true (array nil ∷ []) nothing w))
          (frame json h headers false (no_messages ∷ []), w)
  unfolding bounded_each
  empty_batch-Agrees w =
      no_messages-closed w (emit json limit false (some no_messages) nothing)
        (emit-IsEmitted json limit false (some no_messages) nothing (ground arith))

  -- A value that is no array.
  message-Agrees :
      (value : Value) (w : ClientSession × S)
      → let l = handle_each json h headers (value ∷ []) w in
        Agrees
          (closed json h headers limit false
            (bounded_each json h headers limit false false (value ∷ []) nothing w))
          (frame json h headers false l.0, l.1)
  unfolding handle_each
  message-Agrees value w =
      single-closed (handle_single_message json h headers value w).0
        (handle_single_message json h headers value w).1
        (bounded_each json h headers limit false false (value ∷ []) nothing w)
        (bounded_each-Follows false (value ∷ []) nothing w (ground arith))

  value-Agrees :
      PrintsArrays
      → (value : Value) (line : String) (w : ClientSession × S)
      → Agrees
          (bounded_parsed json h headers limit (ok value) line w)
          (handle_parsed json h headers (ok value) w)
  unfolding handle_value
  value-Agrees prints null line w = message-Agrees null w
  value-Agrees prints (bool b) line w = message-Agrees (bool b) w
  value-Agrees prints (number n) line w = message-Agrees (number n) w
  value-Agrees prints (string s) line w = message-Agrees (string s) w
  value-Agrees prints (object m) line w = message-Agrees (object m) w
  value-Agrees prints (array nil) line w = empty_batch-Agrees w
  value-Agrees prints (array (cons v items)) line w =
      let l = v ∷ items_list items in
      batch-closed prints (handle_each json h headers l w).0 (handle_each json h headers l w).1
        (bounded_each json h headers limit true false l nothing w)
        (bounded_each-Follows true l nothing w (ground arith))

  limited-Agrees :
      (response : Option String) (w : ClientSession × S)
      → Agrees (limited limit response, w) (response, w)
  limited-Agrees none w = (refl, refl, refl)
  limited-Agrees (some line) w =
      if_split (λ x. Agrees (x, w) (some line, w)) (ltb limit (len line)) (λ _. tt)
        (λ within. (refl, refl, ground arith))

  parsed-Agrees :
      PrintsArrays
      → (line : String) (w : ClientSession × S) (parsed : Result Value String)
      → json.from_str line ≡ parsed
      → Agrees
          (bounded_parsed json h headers limit parsed line w)
          (handle_line json h headers line w)
  unfolding handle_line
  parsed-Agrees prints line w (err e) same =
      limited-Agrees (handle_line json h headers line w).0 (handle_line json h headers line w).1
  parsed-Agrees prints line w (ok value) same =
      subst
        (λ p.
          Agrees (bounded_parsed json h headers limit (ok value) line w)
            (handle_parsed json h headers p w))
        (sym same) (value-Agrees prints value line w)

  -- When the bounded answer of a line is given, it is the unbounded one of that line, it is not
  -- longer than the limit, and the session and the handler's state are those of the unbounded one.
  -- The printer is to print an array as its elements between brackets and commas.
  pub handle_line_bounded-Agrees :
      PrintsArrays
      → (line : String) (w : ClientSession × S)
      → Agrees (handle_line_bounded json h headers limit line w) (handle_line json h headers line w)
  unfolding handle_line_bounded
  handle_line_bounded-Agrees prints line w = parsed-Agrees prints line w (json.from_str line) refl
