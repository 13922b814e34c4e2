-- ===== src/Common/Ordered.antt =====
-- `BTreeMap` with text keys, as association lists in the order of their keys, and `sort_by` with a
-- text key.
use Prim.Native.String.{String, compare}
use Prim.Native.String.compare as compare_text
use mathlib.Core.Path.{◌≡◌, refl, ap, ◌∙◌}
use mathlib.Core.Bool.{Bool, true, false}
use mathlib.Core.Option.{some}
use mathlib.Core.List.{List, [], ◌∷◌}
use native.Mathlib.Omega.{arith}
use text.Mathlib.Text.{is_lt}
use text.Mathlib.TextEquality.{eq_iff}
use text.Mathlib.TextPositions.{compare_refl}
use tinymcp.Common.Tests.{if◌then◌else◌, if_split}
use tinymcp.Common.Assoc.{Map, str_eq, lookup}

module _ {ℓ} {V : Type ℓ} where
  unfoldable pub ordered_insert : String → V → Map V → Map V
  ordered_insert name new [] = (name, new) ∷ []
  ordered_insert name new ((key, value) ∷ rest) =
      if str_eq key name
      then (name, new) ∷ rest
      else (if is_lt (compare name key)
          then (name, new) ∷ (key, value) ∷ rest
          else (key, value) ∷ ordered_insert name new rest)

  -- `BTreeMap::extend`: a later value replaces one of the same key.
  unfoldable pub extend : Map V → Map V → Map V
  extend old [] = old
  extend old ((name, new) ∷ more) = extend (ordered_insert name new old) more

  abbrev pub key_names : Map V → List String
  key_names [] = []
  key_names ((name, value) ∷ rest) = name ∷ key_names rest

  pub lookup-ordered_insert :
      (name other : String) (new : V) (m : Map V)
      → lookup other (ordered_insert name new m)
        ≡ (if str_eq name other then some new else lookup other m)
  unfolding lookup ordered_insert
  lookup-ordered_insert name other new [] = refl
  lookup-ordered_insert name other new ((key, value) ∷ rest) = ground (
    arith,
    lookup-ordered_insert name other new rest,
    eq_iff key name,
    eq_iff key other,
    eq_iff name other,
  )

abbrev pub texts_eq : List String → List String → Bool
texts_eq [] [] = true
texts_eq [] (t ∷ l) = false
texts_eq (s ∷ k) [] = false
texts_eq (s ∷ k) (t ∷ l) = if str_eq s t then texts_eq k l else false

pub texts_eq_lem : (a b : List String) → texts_eq a b ≡ true → a ≡ b
texts_eq_lem [] [] h = refl
texts_eq_lem [] (t ∷ l) h = cc
texts_eq_lem (s ∷ k) [] h = cc
texts_eq_lem (s ∷ k) (t ∷ l) h = ground (arith, eq_iff s t, texts_eq_lem k l)

module _ {ℓ} {A : Type ℓ} (key : A → String) where
  -- An item goes before those of the same key that came after it.
  unfoldable pub place : A → List A → List A
  place a [] = a ∷ []
  place a (b ∷ l) =
      let rest = place a l in if is_lt (compare (key b) (key a)) then b ∷ rest else a ∷ b ∷ l

  unfoldable pub sort_by : List A → List A
  unfolding place
  sort_by [] = []
  sort_by (a ∷ l) = place a (sort_by l)

-- A text is not before one that is before it.
pub lt_asym : (s t : String) → is_lt (compare s t) ≡ true → is_lt (compare t s) ≡ false
lt_asym String.[] String.[] h = cc
lt_asym String.[] (String.◌∷◌ d t) h = rw (compare_text.cons-nil d t) refl
lt_asym (String.◌∷◌ c s) String.[] h = ground (arith, compare_text.cons-nil c s)
lt_asym (String.◌∷◌ c s) (String.◌∷◌ d t) h =
    ground (arith, lt_asym s t, compare_text.cons-cons c d s t, compare_text.cons-cons d c t s)

module _ {ℓ} {A : Type ℓ} (key : A → String) where
  -- Each item is not after the next.
  abbrev pub IsSorted : List A → Type 0
  IsSorted [] = Unit
  IsSorted (a ∷ []) = Unit
  IsSorted (a ∷ b ∷ l) = (is_lt (compare (key b) (key a)) ≡ false) × IsSorted (b ∷ l)

  abbrev Bounded : A → List A → Type 0
  Bounded a [] = Unit
  Bounded a (b ∷ l) = is_lt (compare (key b) (key a)) ≡ false

  IsSorted-tail : (a : A) (l : List A) → IsSorted (a ∷ l) → IsSorted l
  IsSorted-tail a [] h = tt
  IsSorted-tail a (b ∷ l) h = h.1

  IsSorted-cons : (a : A) (l : List A) → Bounded a l → IsSorted l → IsSorted (a ∷ l)
  IsSorted-cons a [] h k = tt
  IsSorted-cons a (b ∷ l) h k = (h, k)

  sorted_head : (a : A) (l : List A) → IsSorted (a ∷ l) → Bounded a l
  sorted_head a [] h = tt
  sorted_head a (b ∷ l) h = h.0

  place-Bounded :
      (a b : A) (l : List A)
      → is_lt (compare (key a) (key b)) ≡ false
      → Bounded b l
      → Bounded b (place key a l)
  unfolding place
  place-Bounded a b [] h k = h
  place-Bounded a b (c ∷ l) h k =
      if_split (Bounded b) (is_lt (compare (key c) (key a))) (λ _. k) (λ _. h)

  place-IsSorted : (a : A) (l : List A) → IsSorted l → IsSorted (place key a l)
  unfolding place
  place-IsSorted a [] h = tt
  place-IsSorted a (b ∷ l) h =
      if_split IsSorted (is_lt (compare (key b) (key a)))
        (λ less.
          IsSorted-cons b (place key a l)
            (place-Bounded a b l (lt_asym (key b) (key a) less) (sorted_head b l h))
            (place-IsSorted a l (IsSorted-tail b l h)))
        (λ more. (more, h))

  pub sort_by-IsSorted : (l : List A) → IsSorted (sort_by key l)
  unfolding sort_by
  sort_by-IsSorted [] = tt
  sort_by-IsSorted (a ∷ l) = place-IsSorted a (sort_by key l) (sort_by-IsSorted l)

  -- Sorting keeps the items of each key, in their order.
  unfoldable pub with_key : String → List A → List A
  with_key k [] = []
  with_key k (a ∷ l) = let rest = with_key k l in if str_eq (key a) k then a ∷ rest else rest

  with_key-place :
      (k : String) (a : A) (l : List A) → with_key k (place key a l) ≡ with_key k (a ∷ l)
  unfolding place with_key
  with_key-place k a [] = refl
  with_key-place k a (b ∷ l) =
      ground (arith, with_key-place k a l, eq_iff (key a) k, eq_iff (key b) k, compare_refl k)

  pub with_key-sort_by : (k : String) (l : List A) → with_key k (sort_by key l) ≡ with_key k l
  unfolding sort_by with_key
  with_key-sort_by k [] = refl
  with_key-sort_by k (a ∷ l) =
      with_key-place k a (sort_by key l)
      ∙ ap (λ rest. if str_eq (key a) k then a ∷ rest else rest) (with_key-sort_by k l)
