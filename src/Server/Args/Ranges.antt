-- ===== src/Server/Args/Ranges.antt =====
-- crates/tinymcp/src/server/args/mod.rs: when the validators of numbers and of names accept.
use tinymcp.Common.{
  ℕ, ltb, leb, ◌≡◌, refl, ap, ◌∙◌, true, false, ◌&&◌, ◌||◌, not, List, [], ◌∷◌, all, contains,
  Option, none, some, String, str_eq, if◌then◌else◌, eq_iff, Result, ok, err, arith,
}
use tinymcp.Json.{Value, Members, get, keys, as_u64, is_null}
use tinymcp.Server.Declarations.{ToolCallError}
use tinymcp.Server.Args.{
  unless_null, present, ok_some, bounded, bounded_positive, positive_or, positive_u64_or_default,
  optional_bounded, optional_positive_u64, unexpected, reject_names, reject_unexpected_arguments,
  sort, insert_sorted,
}

-- The number of a value, when it is one from 1 to `max`.
abbrev pub in_range : ℕ → Option ℕ → Option ℕ
in_range max none = none
in_range max (some n) = if ltb 0 n && leb n max then some n else none

-- What a result accepts.
abbrev pub accepted {ℓ} : {A : Type ℓ} → Result A ToolCallError → Option A
accepted (ok a) = some a
accepted (err e) = none

abbrev pub number_or : ℕ → ℕ → Option Value → Option ℕ
number_or default max none = some default
number_or default max (some v) = in_range max (as_u64 v)

abbrev pub given : Option ℕ → Option (Option ℕ)
given none = none
given (some n) = some (some n)

abbrev pub optional_in : ℕ → Option Value → Option (Option ℕ)
optional_in max none = some none
optional_in max (some v) = if is_null v then some none else given (in_range max (as_u64 v))

bounded-in_range :
    (key : String) (max : ℕ) (n : Option ℕ) → accepted (bounded key max n) ≡ in_range max n
bounded-in_range key max none = refl
bounded-in_range key max (some n) = ground arith

positive_or-number_or :
    (default : ℕ) (key : String) (max : ℕ) (v : Option Value)
    → accepted (positive_or default key max v) ≡ number_or default max v
unfolding bounded_positive
positive_or-number_or default key max none = refl
positive_or-number_or default key max (some v) = bounded-in_range key max (as_u64 v)

accepted-ok_some : (r : Result ℕ ToolCallError) → accepted (ok_some r) ≡ given (accepted r)
accepted-ok_some (ok n) = refl
accepted-ok_some (err e) = refl

optional_bounded-optional_in :
    (key : String) (max : ℕ) (v : Option Value)
    → accepted (optional_bounded key max (unless_null v)) ≡ optional_in max v
unfolding bounded_positive
optional_bounded-optional_in key max none = refl
optional_bounded-optional_in key max (some v) =
    elim (is_null v)
      as (λ b.
        accepted (optional_bounded key max (if b then none else some v))
        ≡ (if b then some none else given (in_range max (as_u64 v)))) [
          | true ↦ refl
          | false ↦
              accepted-ok_some (bounded key max (as_u64 v))
              ∙ ap given (bounded-in_range key max (as_u64 v))
        ]

-- The validators of a number in a range accept exactly the numbers from 1 to the maximum, unchanged.
-- The one with a default takes it just when the key is missing; the optional one takes a missing key
-- and `null` for none.
pub accepted_numbers :
    (args : Members) (key : String) (default max : ℕ)
    → (accepted (positive_u64_or_default args key default max)
        ≡ number_or default max (get key args))
      × (accepted (optional_positive_u64 args key max) ≡ optional_in max (get key args))
unfolding positive_u64_or_default optional_positive_u64 present bounded_positive
accepted_numbers args key default max = (
  positive_or-number_or default key max (get key args),
  optional_bounded-optional_in key max (get key args),
)

contains-insert_sorted :
    (k s : String) (l : List String) → contains (insert_sorted s l) k ≡ (str_eq s k || contains l k)
unfolding insert_sorted
contains-insert_sorted k s [] = refl
contains-insert_sorted k s (t ∷ l) = ground (arith, contains-insert_sorted k s l)

contains-sort : (k : String) (l : List String) → contains (sort l) k ≡ contains l k
unfolding sort
contains-sort k [] = refl
contains-sort k (s ∷ l) =
    contains-insert_sorted k s (sort l) ∙ ap (λ b. str_eq s k || b) (contains-sort k l)

contains-unexpected :
    (k : String) (allowed l : List String)
    → contains (unexpected allowed l) k ≡ (contains l k && not (contains allowed k))
unfolding unexpected
contains-unexpected k allowed [] = refl
contains-unexpected k allowed (s ∷ l) = ground (arith, contains-unexpected k allowed l, eq_iff s k)

reject_names-accepted :
    (allowed l : List String)
    → accepted (reject_names (unexpected allowed l))
      ≡ (if all (contains allowed) l then some tt else none)
unfolding unexpected
reject_names-accepted allowed [] = refl
reject_names-accepted allowed (s ∷ l) = ground (arith, reject_names-accepted allowed l)

-- An object passes exactly when all of its keys are allowed, and the names that the refusal joins are
-- the keys that are not allowed.
pub accepted_names :
    (args : Members) (allowed : List String) (k : String)
    → (accepted (reject_unexpected_arguments args allowed)
        ≡ (if all (contains allowed) (keys args) then some tt else none))
      × (contains (sort (unexpected allowed (keys args))) k
          ≡ (contains (keys args) k && not (contains allowed k)))
unfolding reject_unexpected_arguments
accepted_names args allowed k = (
  reject_names-accepted allowed (keys args),
  contains-sort k (unexpected allowed (keys args)) ∙ contains-unexpected k allowed (keys args),
)
