-- ===== src/Registry/Setup/Answers.antt =====
-- crates/tinymcp/src/registry/setup/types.rs: sequences of calls on the vault.
use tinymcp.Common.{
  ◌≡◌, refl, ap, not, Bool, true, false, List, [], ◌∷◌, Option, none, some, String, Map, lookup,
  insert, remove, lookup-remove, lookup-insert_self, eq_refl, is_some, Result, ok, err, arith,
}
use tinymcp.Error.{Error}
use tinymcp.Supervisor.{Instant}
use tinymcp.Registry.Setup.{
  SecretRef, SecretEntry, SecretVault, submit, answer_entry, touched, push, resolve_locked, resolve,
  consumed, consume, no_such_handle, with_entry,
}
use tinymcp.Registry.Setup.Holding.{Call, calls, all_leave, Holds, calls-Holds}

-- It is asked for and not answered.
abbrev pub is_pending : Option SecretEntry → Bool
is_pending none = false
is_pending (some entry) = not (is_some entry.value)

module _ (h : SecretRef) (x : String) (start : Instant) where
  -- What the calls give while the handle holds the value.
  found :
      (name other : String) (now : Instant) (v : SecretVault) (o : Option SecretEntry)
      → Holds x start o
      → (answer_entry h other now o v ≡ (false, v))
        × ((w : SecretVault) × (with_entry h o v
                (λ entry value. push name value (ok [], insert h (touched now entry) v))
              ≡ (ok ((name, x) ∷ []), w)))
  found name other now v none held = absurd (ground arith)
  found name other now v (some entry) held =
      rw (held.0) (refl, (insert h (record entry { value = some x; last_touched = now }) v, refl))

  gone : (w : SecretVault) → lookup h (remove h w) ≡ none
  gone w = ground (arith, lookup-remove h h w, eq_refl h)

  held_once :
      (name other : String) (now : Instant) (v : SecretVault)
      → Holds x start (lookup h v)
      → (submit h other now v ≡ (false, v))
        × ((resolve ((name, h) ∷ []) now v).0 ≡ ok ((name, x) ∷ []))
        × ((consume ((name, h) ∷ []) now v).0 ≡ ok ((name, x) ∷ []))
        × ((resolve ((name, h) ∷ []) now (consume ((name, h) ∷ []) now v).1).0
            ≡ err (no_such_handle h))
  unfolding submit resolve consume resolve_locked
  held_once name other now v held =
      let (again, (w, e)) = found name other now v (lookup h v) held in
      (
        again,
        ap (λ (r : Result (Map String) Error × SecretVault). r.0) e,
        ap (λ (r : Result (Map String) Error × SecretVault). (consumed ((name, h) ∷ []) r).0) e,
        rw e (rw (gone w) refl),
      )

  submitted :
      (v : SecretVault) (o : Option SecretEntry)
      → o ≡ lookup h v
      → is_pending o ≡ true
      → ((answer_entry h x start o v).0 ≡ true)
        × Holds x start (lookup h (answer_entry h x start o v).1)
  submitted v none e asked = absurd (ground arith)
  submitted v (some entry) e asked =
      let free : is_some entry.value ≡ false = ground arith in
      rw free (refl, rw (lookup-insert_self h _ v) (refl, ground arith))

  first_answer :
      (v : SecretVault)
      → is_pending (lookup h v) ≡ true
      → ((submit h x start v).0 ≡ true) × Holds x start (lookup h (submit h x start v).1)
  unfolding submit
  first_answer v asked = submitted v (lookup h v) refl asked

  -- A secret that is asked for is answered once. The first answer is taken, and after any calls that
  -- leave its handle another answer is refused, with the vault as it was, and the handle is resolved to
  -- the first one; once it is consumed, which gives that answer too, it is no handle any more.
  pub answered_once :
      (name other : String) (now : Instant) (v : SecretVault) (l : List Call)
      → is_pending (lookup h v) ≡ true
      → all_leave h start l ≡ true
      → let answered = submit h x start v in
        let later = calls l answered.1 in
        (answered.0 ≡ true)
        × (submit h other now later ≡ (false, later))
        × ((resolve ((name, h) ∷ []) now later).0 ≡ ok ((name, x) ∷ []))
        × ((consume ((name, h) ∷ []) now later).0 ≡ ok ((name, x) ∷ []))
        × ((resolve ((name, h) ∷ []) now (consume ((name, h) ∷ []) now later).1).0
            ≡ err (no_such_handle h))
  answered_once name other now v l asked away =
      let (taken, held) = first_answer v asked in
      let (again, resolved, used, lost) =
        held_once name other now (calls l (submit h x start v).1)
          (calls-Holds h x start l _ away held) in
      (taken, again, resolved, used, lost)
