-- ===== src/Server/Protocol/Limits.antt =====
-- crates/tinymcp/src/server/protocol/mod.rs: the writes under a limit against those without one.
use Prim.Native.String.{◌++◌, len}
use text.Mathlib.TextPositions.{len-append}
use text.Mathlib.TextLemmas.{append_assoc, append-nil}
use tinymcp.Common.{
  ℕ, suc, ◌+◌, ◌≤◌, ltb, ◌==◌, not, ◌&&◌, ◌≡◌, refl, sym, ap, ◌∙◌, Bool, true, false, List, [], ◌∷◌,
  Option, none, some, String, if◌then◌else◌, if_split, arith,
}
use tinymcp.Common.Options.{◌>>=◌, keep_if}
use tinymcp.Json.{Value, Codec}
use tinymcp.Server.Protocol.Bounded.{Output, write, write_if, emit}

-- What holds of the value of an option, when it has one.
abbrev pub Holds {ℓ} : {A : Type ℓ} → (A → Type 0) → Option A → Type 0
Holds P none = Unit
Holds P (some a) = P a

bind-Holds {ℓ κ} :
    {A : Type ℓ} {B : Type κ} (P : A → Type 0) (Q : B → Type 0) (m : Option A) (f : A → Option B)
    → Holds P m
    → ((a : A) → P a → Holds Q (f a))
    → Holds Q (m >>= f)
bind-Holds P Q none f h k = tt
bind-Holds P Q (some a) f h k = k a h

keep_if-Holds {ℓ} :
    {A : Type ℓ} (P : A → Type 0) (p : A → Bool) (a : A) → P a → Holds P (keep_if p a)
keep_if-Holds P p a h = if_split (Holds P) (p a) (λ _. h) (λ _. tt)

-- A text that is `t` and fits.
abbrev pub IsFitting : ℕ → String → String → Type 0
IsFitting limit t s = (s ≡ t) × (len s ≤ limit)

pub write-IsFitting :
    (limit : ℕ) (bytes out : String)
    → len out ≤ limit
    → Holds (IsFitting limit (out ++ bytes)) (write limit bytes out)
write-IsFitting limit bytes out h = ground (arith, len-append out bytes)

write_if-IsFitting :
    (test : Bool) (limit : ℕ) (bytes out : String)
    → len out ≤ limit
    → Holds (IsFitting limit (if test then out ++ bytes else out)) (write_if test limit bytes out)
write_if-IsFitting true limit bytes out h = write-IsFitting limit bytes out h
write_if-IsFitting false limit bytes out h = (refl, h)

abbrev pub nothing : Output
nothing = record { out = ""; count = 0 }

module _ (json : Codec) where
  -- The writes without a limit.
  abbrev pub plain : Bool → Option Value → Output → Output
  plain batch none o = o
  plain batch (some v) o =
      let opened = if o.count == 0 && batch then o.out ++ "[" else o.out in
      let separated = if ltb 0 o.count then opened ++ "," else opened in
      record { out = separated ++ json.to_string v; count = o.count + 1 }

  abbrev pub plain_all : Bool → List Value → Output → Output
  plain_all batch [] o = o
  plain_all batch (v ∷ l) o = plain_all batch l (plain batch (some v) o)

  abbrev pub IsEmitted : ℕ → Output → Output → Type 0
  IsEmitted limit o o1 = (o1 ≡ o) × (len o1.out ≤ limit)

  pub emit-IsEmitted :
      (limit : ℕ) (batch : Bool) (r : Option Value) (o : Output)
      → len o.out ≤ limit
      → Holds (IsEmitted limit (plain batch r o)) (emit json limit batch r o)
  unfolding emit
  emit-IsEmitted limit batch none o h = (refl, h)
  emit-IsEmitted limit batch (some v) o h =
      let Q : Output → Type 0 = IsEmitted limit (plain batch (some v) o) in
      let first = o.count == 0 && batch in
      let later = ltb 0 o.count in
      bind-Holds (IsFitting limit (if first then o.out ++ "[" else o.out)) Q
        (write_if first limit "[" o.out) _ (write_if-IsFitting first limit "[" o.out h)
        (λ a pa.
          bind-Holds (IsFitting limit (if later then a ++ "," else a)) Q
            (write_if later limit "," a) _ (write_if-IsFitting later limit "," a pa.1)
            (λ b pb.
              bind-Holds (IsFitting limit (b ++ json.to_string v)) Q
                (write limit (json.to_string v) b) _
                (write-IsFitting limit (json.to_string v) b pb.1)
                (λ c pc.
                  keep_if-Holds Q (λ o1. not (batch && ltb limit (len o1.out + 1)))
                    (record { out = c; count = o.count + 1 })
                    (
                      ap (λ x. record { out = x; count = o.count + 1 })
                          (pc.0
                            ∙ ap (λ x. x ++ json.to_string v)
                                (pb.0 ∙ ap (λ x. if later then x ++ "," else x) pa.0)),
                      pc.1,
                    ))))

  -- The elements of an array after its first, and what is written of them.
  abbrev pub rest_of : List Value → String
  rest_of [] = ""
  rest_of (v ∷ l) = "," ++ (json.to_string v ++ rest_of l)

  -- How an array is printed.
  abbrev pub printed : List Value → String
  printed [] = "[]"
  printed (v ∷ l) = "[" ++ (json.to_string v ++ (rest_of l ++ "]"))

  plain_all-rest :
      (l : List Value) (o : Output) (k : ℕ)
      → o.count ≡ suc k
      → ((plain_all true l o).out ≡ o.out ++ rest_of l)
        × (((plain_all true l o).count == 0) ≡ false)
  plain_all-rest [] o k h = (sym (append-nil o.out), ground arith)
  plain_all-rest (v ∷ l) o k h =
      let next = plain true (some v) o in
      let rest = plain_all-rest l next (suc k) (ground arith) in
      let written : next.out ≡ (o.out ++ ",") ++ json.to_string v = ground arith in
      (
        rest.0
            ∙ ap (λ x. x ++ rest_of l) written
            ∙ append_assoc (o.out ++ ",") (json.to_string v) (rest_of l)
            ∙ append_assoc o.out "," (json.to_string v ++ rest_of l),
        rest.1,
      )

  pub plain_all-printed :
      (v : Value) (l : List Value)
      → ((plain_all true (v ∷ l) nothing).out ++ "]" ≡ printed (v ∷ l))
        × (((plain_all true (v ∷ l) nothing).count == 0) ≡ false)
  plain_all-printed v l =
      let rest = plain_all-rest l (plain true (some v) nothing) 0 refl in
      (
        ap (λ x. x ++ "]") (rest.0 ∙ append_assoc "[" (json.to_string v) (rest_of l))
            ∙ append_assoc "[" (json.to_string v ++ rest_of l) "]"
            ∙ ap (λ x. "[" ++ x) (append_assoc (json.to_string v) (rest_of l) "]"),
        rest.1,
      )
