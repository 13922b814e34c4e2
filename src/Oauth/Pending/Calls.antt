-- ===== src/Oauth/Pending/Calls.antt =====
-- crates/tinymcp/src/registry/oauth/pending.rs: sequences of calls on the store.
use tinymcp.Common.{
  ℕ, ◌≡◌, refl, ap, ◌∙◌, Bool, true, false, ◌||◌, not, List, [], ◌∷◌, Option, none, some, String,
  Map, str_eq, lookup, remove, lookup-remove, lookup-insert, if◌then◌else◌, if_split, eq_refl, ◌&&◌,
  Bool-cases, inl, inr, lookup-insert_self, arith,
}
use tinymcp.Oauth.Pending.{
  PendingAuthorization, expired_at, retain, pruned, park, take, peek, count,
}

pub data Call : Type 0 where
  parking : (state : String) (p : PendingAuthorization) (now : ℕ) → Call
  taking : (state : String) (now : ℕ) → Call
  peeking : (state : String) (now : ℕ) → Call
  counting : (now : ℕ) → Call

unfoldable pub call : Call → Map PendingAuthorization → Map PendingAuthorization
call (parking state p now) m = park state p now m
call (taking state now) m = (take state now m).1
call (peeking state now) m = (peek state now m).1
call (counting now) m = (count now m).1

unfoldable pub calls : List Call → Map PendingAuthorization → Map PendingAuthorization
calls [] m = m
calls (c ∷ l) m = calls l (call c m)

abbrev pub parks : String → Call → Bool
parks s (parking state p now) = str_eq state s
parks s (taking state now) = false
parks s (peeking state now) = false
parks s (counting now) = false

unfoldable pub any_parks : String → List Call → Bool
any_parks s [] = false
any_parks s (c ∷ l) = parks s c || any_parks s l

-- What is not there is not there after a retention.
retain-absent :
    (keep : PendingAuthorization → Bool) (s : String) (m : Map PendingAuthorization)
    → lookup s m ≡ none
    → lookup s (retain keep m) ≡ none
unfolding retain lookup
retain-absent keep s [] h = refl
retain-absent keep s ((state, p) ∷ m) h = ground (arith, retain-absent keep s m)

call-absent :
    (s : String) (c : Call) (m : Map PendingAuthorization)
    → parks s c ≡ false
    → lookup s m ≡ none
    → lookup s (call c m) ≡ none
unfolding call park take peek count pruned
call-absent s (parking state p now) m other h = ground (
  arith,
  lookup-insert state s p (retain (λ x. not (expired_at now x)) m),
  retain-absent (λ x. not (expired_at now x)) s m,
)
call-absent s (taking state now) m other h = ground (
  arith,
  lookup-remove state s (retain (λ x. not (expired_at now x)) m),
  retain-absent (λ x. not (expired_at now x)) s m,
)
call-absent s (peeking state now) m other h = retain-absent (λ x. not (expired_at now x)) s m h
call-absent s (counting now) m other h = retain-absent (λ x. not (expired_at now x)) s m h

calls-absent :
    (s : String) (l : List Call) (m : Map PendingAuthorization)
    → any_parks s l ≡ false
    → lookup s m ≡ none
    → lookup s (calls l m) ≡ none
unfolding calls any_parks
calls-absent s [] m other h = h
calls-absent s (c ∷ l) m other h =
    calls-absent s l (call c m) (ground arith) (call-absent s c m (ground arith) h)

retain-present :
    (keep : PendingAuthorization → Bool) (s : String) (p : PendingAuthorization)
    (m : Map PendingAuthorization)
    → keep p ≡ true
    → lookup s m ≡ some p
    → lookup s (retain keep m) ≡ some p
unfolding retain lookup
retain-present keep s p [] k h = ground arith
retain-present keep s p ((state, q) ∷ m) k h = elim (Bool-cases (str_eq state s)) [
  | inl here ↦
      let same : q ≡ p = ground arith in let kept : keep q ≡ true = ap keep same ∙ k in ground arith
  | inr elsewhere ↦ ground (arith, retain-present keep s p m k)
]

-- A call that is not about `s`, at a time at which `p` is not expired.
abbrev pub leaves : String → PendingAuthorization → Call → Bool
leaves s p (parking state q now) = not (str_eq state s) && not (expired_at now p)
leaves s p (taking state now) = not (str_eq state s) && not (expired_at now p)
leaves s p (peeking state now) = not (expired_at now p)
leaves s p (counting now) = not (expired_at now p)

unfoldable pub all_leave : String → PendingAuthorization → List Call → Bool
all_leave s p [] = true
all_leave s p (c ∷ l) = leaves s p c && all_leave s p l

call-present :
    (s : String) (p : PendingAuthorization) (c : Call) (m : Map PendingAuthorization)
    → leaves s p c ≡ true
    → lookup s m ≡ some p
    → lookup s (call c m) ≡ some p
unfolding call park take peek count pruned
call-present s p (parking state q now) m away h = ground (
  arith,
  lookup-insert state s q (retain (λ x. not (expired_at now x)) m),
  retain-present (λ x. not (expired_at now x)) s p m,
)
call-present s p (taking state now) m away h = ground (
  arith,
  lookup-remove state s (retain (λ x. not (expired_at now x)) m),
  retain-present (λ x. not (expired_at now x)) s p m,
)
call-present s p (peeking state now) m away h =
    retain-present (λ x. not (expired_at now x)) s p m away h
call-present s p (counting now) m away h = retain-present (λ x. not (expired_at now x)) s p m away h

calls-present :
    (s : String) (p : PendingAuthorization) (l : List Call) (m : Map PendingAuthorization)
    → all_leave s p l ≡ true
    → lookup s m ≡ some p
    → lookup s (calls l m) ≡ some p
unfolding calls all_leave
calls-present s p [] m away h = h
calls-present s p (c ∷ l) m away h =
    calls-present s p l (call c m) (ground arith) (call-present s p c m (ground arith) h)

-- A sign-in that is parked is taken back as it was, after any calls about other sign-ins while it is
-- not expired, and it is taken back once: after that, and any calls that do not park its state anew,
-- a `take` of it finds nothing.
pub take_once :
    (s : String) (p : PendingAuthorization) (m : Map PendingAuthorization)
    (before after : List Call) (now back again : ℕ)
    → all_leave s p before ≡ true
    → expired_at back p ≡ false
    → any_parks s after ≡ false
    → let taken = take s back (calls before (park s p now m)) in
      (taken.0 ≡ some p) × ((take s again (calls after taken.1)).0 ≡ none)
unfolding take park pruned
take_once s p m before after now back again away fresh other =
    let parked = calls before (park s p now m) in
    let entries = retain (λ x. not (expired_at back x)) parked in
    (
      retain-present (λ x. not (expired_at back x)) s p parked (ap not fresh)
          (calls-present s p before (park s p now m) away
            (lookup-insert_self s p (retain (λ x. not (expired_at now x)) m))),
      retain-absent (λ x. not (expired_at again x)) s (calls after (remove s entries))
          (calls-absent s after (remove s entries) other
            (ground (arith, lookup-remove s s entries, eq_refl s))),
    )

-- What is found was kept.
abbrev pub IsFresh : ℕ → Option PendingAuthorization → Type 0
IsFresh now none = Unit
IsFresh now (some p) = expired_at now p ≡ false

if-IsFresh :
    (now : ℕ) (b : Bool) (p : PendingAuthorization) (o : Option PendingAuthorization)
    → expired_at now p ≡ false
    → IsFresh now o
    → IsFresh now (if b then some p else o)
if-IsFresh now true p o h f = h
if-IsFresh now false p o h f = f

retain-IsFresh :
    (now : ℕ) (s : String) (m : Map PendingAuthorization)
    → IsFresh now (lookup s (retain (λ x. not (expired_at now x)) m))
unfolding retain lookup
retain-IsFresh now s [] = tt
retain-IsFresh now s ((state, p) ∷ m) =
    let rest = retain (λ x. not (expired_at now x)) m in
    if_split (λ k. IsFresh now (lookup s k)) (not (expired_at now p))
      (λ kept.
        if-IsFresh now (str_eq state s) p (lookup s rest) (ground arith) (retain-IsFresh now s m))
      (λ _. retain-IsFresh now s m)

-- Neither `take` nor `peek` gives out a sign-in that is expired at the time of the call.
pub given-IsFresh :
    (s : String) (now : ℕ) (m : Map PendingAuthorization)
    → IsFresh now (take s now m).0 × IsFresh now (peek s now m).0
unfolding take peek pruned
given-IsFresh s now m = (retain-IsFresh now s m, retain-IsFresh now s m)
