-- ===== src/Common/Effects.antt =====
-- Calls that change a state and may fail. What was written before a failure stays written, so the
-- state comes back beside the error too.
use mathlib.Core.Bool.{Bool, true, false}
use tinymcp.Common.Results.{Result, ok, err}
use tinymcp.Common.Tests.{if◌then◌else◌}

abbrev pub Effect {ℓ} : Type ℓ → Type ℓ → Type ℓ → Type ℓ
Effect S E A = S → Result A E × S

module _ {ℓ} {S E A : Type ℓ} where
  unfoldable pub done : A → Effect S E A
  done a s = (ok a, s)

  unfoldable pub fail : E → Effect S E A
  fail e s = (err e, s)

  unfoldable pub of_result : Result A E → Effect S E A
  of_result r s = (r, s)

  -- What the state tells, and a call that cannot fail.
  unfoldable pub gets : (S → A) → Effect S E A
  gets f s = (ok (f s), s)

  unfoldable pub always : (S → A × S) → Effect S E A
  always f s = (ok (f s).0, (f s).1)

module _ {ℓ} {S E F A : Type ℓ} where
  -- The caller goes on, and looks at the result itself.
  unfoldable pub attempt : Effect S F A → Effect S E (Result A F)
  attempt m s = (ok (m s).0, (m s).1)

module _ {S E : Type 0} where
  unfoldable pub change : (S → S) → Effect S E (Unit {0})
  change f s = (ok tt, f s)

module _ {ℓ} {S E A B : Type ℓ} where
  abbrev pub resume : (A → Effect S E B) → Result A E → S → Result B E × S
  resume f (ok a) s = f a s
  resume f (err e) s = (err e, s)

  infixl 5 ◌>>=◌ ◌>>◌
  unfoldable pub ◌>>=◌ : Effect S E A → (A → Effect S E B) → Effect S E B
  unfolding done fail of_result gets always attempt change
  ◌>>=◌ m f s = resume f (m s).0 (m s).1

  abbrev pub ◌>>◌ : Effect S E A → Effect S E B → Effect S E B
  m >> k = m >>= λ _. k

-- The call keeps `P`, whether it fails or not.
pub record Keeps {ℓ} {S E A : Type ℓ} (P : S → Type ℓ) (m : Effect S E A) : Type ℓ where
  pub at : (s : S) → P s → P (m s).1

module _ {ℓ} {S E A : Type ℓ} {P : S → Type ℓ} where
  pub Keeps-done : (a : A) → Keeps {E = E} P (done a)
  unfolding done
  Keeps-done a = record { at = λ s p. p }

  pub Keeps-fail : (e : E) → Keeps P (fail {A = A} e)
  unfolding fail
  Keeps-fail e = record { at = λ s p. p }

  pub Keeps-of_result : (r : Result A E) → Keeps P (of_result r)
  unfolding of_result
  Keeps-of_result r = record { at = λ s p. p }

  pub Keeps-gets : (f : S → A) → Keeps {E = E} P (gets f)
  unfolding gets
  Keeps-gets f = record { at = λ s p. p }

  pub Keeps-if :
      (b : Bool) (m n : Effect S E A) → Keeps P m → Keeps P n → Keeps P (if b then m else n)
  Keeps-if true m n km kn = km
  Keeps-if false m n km kn = kn

module _ {ℓ} {S E F A : Type ℓ} {P : S → Type ℓ} where
  pub Keeps-attempt : (m : Effect S F A) → Keeps P m → Keeps {E = E} P (attempt m)
  unfolding attempt
  Keeps-attempt m k = record { at = k.at }

module _ {ℓ} {S E A B : Type ℓ} {P : S → Type ℓ} where
  Keeps-resume :
      (f : A → Effect S E B)
      → ((a : A) → Keeps P (f a))
      → (r : Result A E) (s : S) → P s
      → P (resume f r s).1
  Keeps-resume f kf (ok a) s p = (kf a).at s p
  Keeps-resume f kf (err e) s p = p

  pub Keeps-bind :
      (m : Effect S E A) (f : A → Effect S E B)
      → Keeps P m
      → ((a : A) → Keeps P (f a))
      → Keeps P (m >>= f)
  unfolding ◌>>=◌
  Keeps-bind m f km kf = record { at = λ s p. Keeps-resume f kf (m s).0 (m s).1 (km.at s p) }

pub ruleset keeps_rules =
    (Keeps-done, Keeps-fail, Keeps-of_result, Keeps-gets, Keeps-if, Keeps-attempt, Keeps-bind)

-- From a state with `P`, the call returns a result and a state that satisfy `Q`.
pub record Yields {ℓ} {S E A : Type ℓ} (P : S → Type ℓ) (Q : Result A E → S → Type ℓ)
    (m : Effect S E A) : Type ℓ where
  pub at : (s : S) → P s → Q (m s).0 (m s).1

module _ {ℓ} {S E A : Type ℓ} {P : S → Type ℓ} {Q : Result A E → S → Type ℓ} where
  pub Yields-done : (a : A) → ((s : S) → P s → Q (ok a) s) → Yields P Q (done a)
  unfolding done
  Yields-done a h = record { at = h }

  pub Yields-fail : (e : E) → ((s : S) → P s → Q (err e) s) → Yields P Q (fail e)
  unfolding fail
  Yields-fail e h = record { at = h }

module _ {ℓ} {S E A B : Type ℓ} {Q : Result B E → S → Type ℓ} where
  Yields-resume :
      (R : Result A E → S → Type ℓ) (f : A → Effect S E B)
      → ((a : A) → Yields (R (ok a)) Q (f a))
      → ((e : E) (s : S) → R (err e) s → Q (err e) s)
      → (r : Result A E) (s : S) → R r s
      → Q (resume f r s).0 (resume f r s).1
  Yields-resume R f next failed (ok a) s h = (next a).at s h
  Yields-resume R f next failed (err e) s h = failed e s h

module _ {ℓ} {S E A B : Type ℓ} {P : S → Type ℓ} {Q : Result B E → S → Type ℓ} where
  -- What the first call yields, the rest starts from.
  pub Yields-bind :
      (R : Result A E → S → Type ℓ) (m : Effect S E A) (f : A → Effect S E B)
      → Yields P R m
      → ((a : A) → Yields (R (ok a)) Q (f a))
      → ((e : E) (s : S) → R (err e) s → Q (err e) s)
      → Yields P Q (m >>= f)
  unfolding ◌>>=◌
  Yields-bind R m f first next failed = record {
    at = λ s p. Yields-resume R f next failed (m s).0 (m s).1 (first.at s p);
  }

  -- A first call that keeps `P` on every result.
  pub Yields-after :
      (m : Effect S E A) (f : A → Effect S E B)
      → Keeps P m
      → ((a : A) → Yields P Q (f a))
      → ((e : E) (s : S) → P s → Q (err e) s)
      → Yields P Q (m >>= f)
  Yields-after m f first next failed =
      Yields-bind (λ _. P) m f (record { at = first.at }) next failed

module _ {ℓ} {S E F A B : Type ℓ} {P : S → Type ℓ} {Q : Result B E → S → Type ℓ} where
  -- After an attempt there is a rest for either result.
  pub Yields-attempt :
      (R : Result A F → S → Type ℓ) (m : Effect S F A) (f : Result A F → Effect S E B)
      → Yields P R m
      → ((r : Result A F) → Yields (R r) Q (f r))
      → Yields P Q (attempt m >>= f)
  unfolding ◌>>=◌
  Yields-attempt R m f first next = record { at = λ s p. (next (m s).0).at (m s).1 (first.at s p) }

  pub Yields-tried :
      (m : Effect S F A) (f : Result A F → Effect S E B)
      → Keeps P m
      → ((r : Result A F) → Yields P Q (f r))
      → Yields P Q (attempt m >>= f)
  Yields-tried m f first next = Yields-attempt (λ _. P) m f (record { at = first.at }) next

module _ {ℓ} {S E A : Type ℓ} {P Q : S → Type ℓ} where
  pub Keeps-both : (m : Effect S E A) → Keeps P m → Keeps Q m → Keeps (λ s. P s × Q s) m
  Keeps-both m p q = record { at = λ s h. (p.at s h.0, q.at s h.1) }

module _ {ℓ} {S E A : Type ℓ} {P I : S → Type ℓ} {Q : Result A E → S → Type ℓ} where
  -- What is kept holds besides what is yielded.
  pub Yields-and :
      (m : Effect S E A) → Keeps I m → Yields P Q m → Yields (λ s. I s × P s) (λ r s. I s × Q r s) m
  Yields-and m k y = record { at = λ s h. (k.at s h.0, y.at s h.1) }
