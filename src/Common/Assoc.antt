-- ===== src/Common/Assoc.antt =====
-- Maps with text keys, as association lists: `HashMap`, `HashSet` (with `Unit` values), `BTreeMap`.
use Prim.Native.String.{String}
use mathlib.Core.Path.{◌≡◌, refl}
use mathlib.Core.Bool.{Bool, false, ◌||◌}
use mathlib.Core.Option.{Option, none, some}
use mathlib.Core.List.{List, [], ◌∷◌}
use native.Mathlib.Omega.{arith}
use text.Mathlib.Text.{◌==◌}
use text.Mathlib.TextEquality.{eq_iff}
use text.Mathlib.TextPositions.{eq_refl}
use tinymcp.Common.Tests.{if◌then◌else◌, is_some}

abbrev pub Map {ℓ} : Type ℓ → Type ℓ
Map V = List (String × V)

abbrev pub str_eq : String → String → Bool
str_eq s t = s == t

-- `slice::contains`.
abbrev pub contains : List String → String → Bool
contains [] s = false
contains (x ∷ xs) s = x == s || contains xs s

module _ {ℓ} {V : Type ℓ} where
  -- Every binding of the key goes, so that the key is absent afterwards.
  unfoldable pub remove : String → Map V → Map V
  remove name [] = []
  remove name ((key, value) ∷ rest) =
      if key == name then remove name rest else (key, value) ∷ remove name rest

  unfoldable pub lookup : String → Map V → Option V
  lookup name [] = none
  lookup name ((key, value) ∷ rest) = if key == name then some value else lookup name rest

  abbrev pub contains_key : String → Map V → Bool
  contains_key name table = is_some (lookup name table)

  unfoldable pub insert : String → V → Map V → Map V
  insert name new [] = (name, new) ∷ []
  insert name new ((key, value) ∷ rest) =
      if key == name then (name, new) ∷ rest else (key, value) ∷ insert name new rest

  pub lookup-remove :
      (name other : String) (table : Map V)
      → lookup other (remove name table) ≡ (if name == other then none else lookup other table)
  unfolding lookup remove
  lookup-remove name other [] = ground arith
  lookup-remove name other ((key, value) ∷ rest) =
      ground
        (arith, eq_iff key other, lookup-remove name other rest, eq_iff name other, eq_iff key name)

  pub lookup-insert :
      (name other : String) (new : V) (table : Map V)
      → lookup other (insert name new table)
        ≡ (if name == other then some new else lookup other table)
  unfolding lookup insert
  lookup-insert name other new [] = refl
  lookup-insert name other new ((key, value) ∷ rest) = ground (
    arith,
    lookup-insert name other new rest,
    eq_iff key name,
    eq_iff key other,
    eq_iff name other,
  )

  pub remove-insert : (k : String) (v : V) (m : Map V) → remove k (insert k v m) ≡ remove k m
  unfolding insert remove
  remove-insert k v [] = ground (arith, eq_refl k)
  remove-insert k v ((j, w) ∷ m) = ground (arith, eq_refl k, remove-insert k v m)

  pub insert-insert : (k : String) (v w : V) (m : Map V) → insert k v (insert k w m) ≡ insert k v m
  unfolding insert
  insert-insert k v w [] = ground (arith, eq_refl k)
  insert-insert k v w ((j, u) ∷ m) = ground (arith, eq_refl k, insert-insert k v w m)

  pub lookup-insert_self :
      (name : String) (new : V) (m : Map V) → lookup name (insert name new m) ≡ some new
  lookup-insert_self name new m = rw (lookup-insert name name new m, eq_refl name)
