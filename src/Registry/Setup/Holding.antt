-- ===== src/Registry/Setup/Holding.antt =====
-- crates/tinymcp/src/registry/setup/types.rs: the entry of one handle through the calls on the vault.
use tinymcp.Common.{
  ◌-◌, leb, ltb, ◌≡◌, refl, ◌&&◌, ◌||◌, not, Bool, true, false, List, [], ◌∷◌, Option, none, some,
  String, Map, str_eq, lookup, insert, remove, lookup-insert, lookup-remove, eq_iff, if_split,
  if◌then◌else◌, is_some, Result, ok, err, arith, sym, subst,
}
use tinymcp.Error.{Error}
use tinymcp.Supervisor.{Instant}
use tinymcp.Registry.Setup.{
  fulfilled, cancelled, elapsed, SecretRef, SecretEntry, SecretVault, idle_ttl, mint, request,
  submit, answer_entry, forget, touched, push, resolve_locked, resolve, remove_each, consumed,
  consume, retain_touched, sweep, Waited, await_fulfillment, with_entry, with_value,
}

pub data Call : Type 0 where
  requesting : (raw key_name : String) (now : Instant) → Call
  submitting : (handle : SecretRef) (value : String) (now : Instant) → Call
  waiting : (waited : Waited) (handle : SecretRef) → Call
  resolving : (handles : Map SecretRef) (now : Instant) → Call
  consuming : (handles : Map SecretRef) (now : Instant) → Call
  forgetting : (handle : SecretRef) → Call
  sweeping : (now : Instant) → Call

unfoldable pub call : Call → SecretVault → SecretVault
call (requesting raw key_name now) v = (request raw key_name now v).1
call (submitting handle value now) v = (submit handle value now v).1
call (waiting waited handle) v = (await_fulfillment waited handle v).1
call (resolving handles now) v = (resolve handles now v).1
call (consuming handles now) v = (consume handles now v).1
call (forgetting handle) v = (forget handle v).1
call (sweeping now) v = (sweep now v).1

unfoldable pub calls : List Call → SecretVault → SecretVault
calls [] v = v
calls (c ∷ l) v = calls l (call c v)

abbrev pub names : Map SecretRef → SecretRef → Bool
names [] handle = false
names ((name, other) ∷ handles) handle = str_eq other handle || names handles handle

-- A call that leaves a handle that was touched at `start`: it is not minted anew, given up or consumed,
-- no clock has gone back, and a sweep comes before the handle has been idle for too long.
abbrev pub leaves : SecretRef → Instant → Call → Bool
leaves h start (requesting raw key_name now) = not (str_eq (mint raw) h)
leaves h start (submitting handle value now) = true
leaves h start (waiting waited handle) = not (str_eq handle h)
leaves h start (resolving handles now) = leb start now
leaves h start (consuming handles now) = leb start now && not (names handles h)
leaves h start (forgetting handle) = not (str_eq handle h)
leaves h start (sweeping now) = ltb (now - start) idle_ttl

abbrev pub all_leave : SecretRef → Instant → List Call → Bool
all_leave h start [] = true
all_leave h start (c ∷ l) = leaves h start c && all_leave h start l

-- The handle holds the value and was touched no earlier than `start`.
abbrev pub Holds : String → Instant → Option SecretEntry → Type 0
Holds x start none = true ≡ false
Holds x start (some entry) = (entry.value ≡ some x) × (leb start entry.last_touched ≡ true)

push-entries :
    (name value : String) (r : Result (Map String) Error × SecretVault)
    → (push name value r).1 ≡ r.1
push-entries name value (ok l, v) = refl
push-entries name value (err e, v) = refl

module _ (h : SecretRef) (x : String) (start : Instant) where
  touch-Holds :
      (handle : SecretRef) (entry : SecretEntry) (now : Instant) (v : SecretVault)
      → leb start now ≡ true
      → lookup handle v ≡ some entry
      → Holds x start (lookup h v)
      → Holds x start (lookup h (insert handle (touched now entry) v))
  touch-Holds handle entry now v late found held =
      rw (lookup-insert handle h (touched now entry) v) (
        if_split (Holds x start) (str_eq handle h)
          (λ e.
            let same : lookup h v ≡ some entry = ground (arith, eq_iff handle h) in
            ((subst (Holds x start) same held).0, late))
          (λ _. held))

  with_value-Holds :
      (handle : SecretRef) (v : SecretVault)
      (next : String → Result (Map String) Error × SecretVault)
      → Holds x start (lookup h v)
      → (o : Option String) → ((value : String) → Holds x start (lookup h (next value).1))
      → Holds x start (lookup h (with_value handle o v next).1)
  with_value-Holds handle v next held none after = held
  with_value-Holds handle v next held (some value) after = after value

  with_entry-Holds :
      (handle : SecretRef) (v : SecretVault)
      (next : SecretEntry → String → Result (Map String) Error × SecretVault)
      → Holds x start (lookup h v)
      → (o : Option SecretEntry)
      → ((entry : SecretEntry) (value : String)
          → o ≡ some entry
          → Holds x start (lookup h (next entry value).1))
      → Holds x start (lookup h (with_entry handle o v next).1)
  with_entry-Holds handle v next held none after = held
  with_entry-Holds handle v next held (some entry) after =
      with_value-Holds handle v (next entry) held entry.value (λ value. after entry value refl)

  pub resolve_locked-Holds :
      (handles : Map SecretRef) (now : Instant) (v : SecretVault)
      → leb start now ≡ true
      → Holds x start (lookup h v)
      → Holds x start (lookup h (resolve_locked handles now v).1)
  unfolding resolve_locked
  resolve_locked-Holds [] now v late held = held
  resolve_locked-Holds ((name, handle) ∷ handles) now v late held =
      with_entry-Holds handle v _ held (lookup handle v) (λ entry value e.
        subst (λ u. Holds x start (lookup h u))
          (sym (
            push-entries name value
              (resolve_locked handles now (insert handle (touched now entry) v))))
          (resolve_locked-Holds handles now (insert handle (touched now entry) v) late
            (touch-Holds handle entry now v late e held)))

  remove_each-Holds :
      (handles : Map SecretRef) (v : SecretVault)
      → names handles h ≡ false
      → Holds x start (lookup h v)
      → Holds x start (lookup h (remove_each handles v))
  remove_each-Holds [] v other held = held
  remove_each-Holds ((name, handle) ∷ handles) v other held =
      remove_each-Holds handles (remove handle v) (ground arith) (
        rw (lookup-remove handle h v)
          (if_split (Holds x start) (str_eq handle h) (λ e. absurd (ground arith)) (λ _. held)))

  kept-Holds :
      (b : Bool) (entry : SecretEntry) (o rest : Option SecretEntry)
      → Holds x start (if b then some entry else o)
      → (Holds x start o → Holds x start rest)
      → Holds x start (if b then some entry else rest)
  kept-Holds true entry o rest held after = held
  kept-Holds false entry o rest held after = after held

  idle-Holds :
      (b : Bool) (entry : SecretEntry) (o rest : Option SecretEntry)
      → Holds x start (if b then some entry else o)
      → (Holds x start (some entry) → Holds x start rest)
      → (Holds x start o → Holds x start rest)
      → Holds x start rest
  idle-Holds true entry o rest held here after = here held
  idle-Holds false entry o rest held here after = after held

  retain_touched-Holds :
      (now : Instant) (v : SecretVault)
      → ltb (now - start) idle_ttl ≡ true
      → Holds x start (lookup h v)
      → Holds x start (lookup h (retain_touched now v))
  unfolding retain_touched lookup
  retain_touched-Holds now [] early held = held
  retain_touched-Holds now ((handle, entry) ∷ v) early held =
      let after = retain_touched-Holds now v early in
      if_split (λ u. Holds x start (lookup h u)) (ltb (now - entry.last_touched) idle_ttl)
        (λ kept. kept-Holds (str_eq handle h) entry _ _ held after)
        (λ idle.
          idle-Holds (str_eq handle h) entry _ _ held (λ here. absurd (ground (arith, here.1)))
            after)

  answer_entry-Holds :
      (handle : SecretRef) (value : String) (now : Instant) (v : SecretVault)
      (o : Option SecretEntry)
      → lookup handle v ≡ o
      → Holds x start (lookup h v)
      → Holds x start (lookup h (answer_entry handle value now o v).1)
  answer_entry-Holds handle value now v none e held = held
  answer_entry-Holds handle value now v (some entry) e held =
      if_split (λ (u : Bool × SecretVault). Holds x start (lookup h u.1)) (is_some entry.value)
        (λ _. held)
        (λ free. rw (lookup-insert handle h _ v) (
          if_split (Holds x start) (str_eq handle h)
            (λ f.
              let same : lookup h v ≡ some entry = ground (arith, eq_iff handle h) in
              let answered = (subst (Holds x start) same held).0 in absurd (ground arith))
            (λ _. held)))

  remove-Holds :
      (handle : SecretRef) (v : SecretVault)
      → not (str_eq handle h) ≡ true
      → Holds x start (lookup h v)
      → Holds x start (lookup h (remove handle v))
  remove-Holds handle v other held =
      rw (lookup-remove handle h v)
        (if_split (Holds x start) (str_eq handle h) (λ e. absurd (ground arith)) (λ _. held))

  consumed-Holds :
      (handles : Map SecretRef) (r : Result (Map String) Error × SecretVault)
      → names handles h ≡ false
      → Holds x start (lookup h r.1)
      → Holds x start (lookup h (consumed handles r).1)
  consumed-Holds handles (ok l, v) other held = remove_each-Holds handles v other held
  consumed-Holds handles (err e, v) other held = held

  call-Holds :
      (c : Call) (v : SecretVault)
      → leaves h start c ≡ true
      → Holds x start (lookup h v)
      → Holds x start (lookup h (call c v))
  unfolding call request submit forget await_fulfillment resolve consume sweep
  call-Holds (requesting raw key_name now) v away held =
      rw (lookup-insert (mint raw) h _ v)
        (if_split (Holds x start) (str_eq (mint raw) h) (λ e. absurd (ground arith)) (λ _. held))
  call-Holds (submitting handle value now) v away held =
      answer_entry-Holds handle value now v (lookup handle v) refl held
  call-Holds (waiting fulfilled handle) v away held = held
  call-Holds (waiting cancelled handle) v away held = remove-Holds handle v away held
  call-Holds (waiting elapsed handle) v away held = remove-Holds handle v away held
  call-Holds (resolving handles now) v away held = resolve_locked-Holds handles now v away held
  call-Holds (consuming handles now) v away held =
      consumed-Holds handles (resolve_locked handles now v) (ground arith)
        (resolve_locked-Holds handles now v (ground arith) held)
  call-Holds (forgetting handle) v away held = remove-Holds handle v away held
  call-Holds (sweeping now) v away held = retain_touched-Holds now v away held

  pub calls-Holds :
      (l : List Call) (v : SecretVault)
      → all_leave h start l ≡ true
      → Holds x start (lookup h v)
      → Holds x start (lookup h (calls l v))
  unfolding calls
  calls-Holds [] v away held = held
  calls-Holds (c ∷ l) v away held =
      calls-Holds l (call c v) (ground arith) (call-Holds c v (ground arith) held)
