-- ===== src/Lifecycle/Table/Traces.antt =====
-- crates/tinymcp-bus/src/client_lifecycle/table.rs: sequences of calls on the table.
use tinymcp.Common.{
  ℕ, ◌≡◌, Bool, true, false, ◌||◌, List, [], ◌∷◌, Option, none, some, String, lookup, lookup-insert,
  lookup-remove, eq_iff, eq_refl, arith, Result, is_some, ◌==◌, err,
}
use tinymcp.Lifecycle.Table.{
  ClientTable, is_pointer, unavailable, cleanup_pending, admit, insert_client, retire, evict,
  complete_host_cleanup, reservation_for, reserve_host_completion,
}
use tinymcp.Lifecycle.Table.Cleanup.{
  Others, finish_cleanup, retry_orphaned, reservation_with_action,
}
use tinymcp.Lifecycle.Table.Fences.{
  Fenced, KeepsFence, finish_cleanup-Refused, retry_each-Fenced, admit-Fenced, retire-Fenced,
  evict-Fenced, reservation_for-Fenced, reserve_host_completion-Fenced, complete-Fenced,
}

-- The calls that change the table, with what their callers give.
pub data Call (A : Type 0) (E : Type 0) : Type 0 where
  admitting : (dir : String) (removed : Bool) (create : Result ℕ E) → Call A E
  inserting : (dir : String) (client : ℕ) → Call A E
  retiring_client : (dir : String) → Call A E
  reserving : (dir : String) → Call A E
  reserving_action : (dir : String) (action : A) → Call A E
  fencing : (dir : String) → Call A E
  completing : (dir : String) (reservation : ℕ) → Call A E
  evicting_client : (dir : String) (client : ℕ) → Call A E
  finishing : (dir : String) (client : Option ℕ) (reservation : ℕ) → Call A E
  retrying : Call A E

-- Whether a call is the host's confirmation of the reservation `r`.
unfoldable pub is_completion : {A E : Type 0} → ℕ → Call A E → Bool
is_completion r (admitting d b c) = false
is_completion r (inserting d c) = false
is_completion r (retiring_client d) = false
is_completion r (reserving d) = false
is_completion r (reserving_action d a) = false
is_completion r (fencing d) = false
is_completion r (completing d q) = q == r
is_completion r (evicting_client d c) = false
is_completion r (finishing d c q) = false
is_completion r retrying = false

abbrev table_of : {A : Type 0} → ClientTable A → Option (ℕ × ClientTable A) → ClientTable A
table_of t none = t
table_of t (some (r, t')) = t'

module _ {A E : Type 0} (perform : A → ClientTable A → Bool × ClientTable A) (o : Others A) where
  -- A call's effect. `reservation_with_action` has its first round undisturbed.
  unfoldable pub call : Call A E → ClientTable A → ClientTable A
  call (admitting d removed create) t = (admit d removed create t).1
  call (inserting d c) t = insert_client d c t
  call (retiring_client d) t = (retire d t).1
  call (reserving d) t = (reservation_for d t).1
  call (reserving_action d a) t = table_of t (reservation_with_action (λ _ u. u) 1 d a t)
  call (fencing d) t = (reserve_host_completion d t).1
  call (completing d q) t = (complete_host_cleanup d q t).1
  call (evicting_client d c) t = (evict d c t).1
  call (finishing d c q) t = (finish_cleanup perform o d c q t).1
  call retrying t = retry_orphaned perform o t

  unfoldable pub calls : List (Call A E) → ClientTable A → ClientTable A
  calls [] t = t
  calls (c ∷ l) t = calls l (call c t)

unfoldable pub has_completion : {A E : Type 0} → ℕ → List (Call A E) → Bool
has_completion r [] = false
has_completion r (c ∷ l) = is_completion r c || has_completion r l

module _ {A : Type 0} (dir : String) (r : ℕ) where
  reservation_with_action-Fenced :
      (d : String) (a : A) (t : ClientTable A)
      → Fenced dir r t
      → Fenced dir r (table_of t (reservation_with_action (λ _ u. u) 1 d a t))
  unfolding reservation_with_action reservation_for
  reservation_with_action-Fenced d a t f =
      ground (arith, eq_iff d dir, lookup-insert d dir t.next t.reservations)

module _ {A E : Type 0} (dir : String) (r : ℕ) (perform : A → ClientTable A → Bool × ClientTable A)
    (o : Others A) (keeps : KeepsFence dir r perform o) where
  call-Fenced :
      (c : Call A E) (t : ClientTable A)
      → is_completion r c ≡ false
      → Fenced dir r t
      → Fenced dir r (call perform o c t)
  unfolding call is_completion insert_client retry_orphaned
  call-Fenced (admitting d removed create) t quiet f = admit-Fenced dir r d removed create t f
  call-Fenced (inserting d c) t quiet f = record {
    held = f.held;
    waiting = f.waiting;
    known = f.known;
  }
  call-Fenced (retiring_client d) t quiet f = retire-Fenced dir r d t f
  call-Fenced (reserving d) t quiet f = reservation_for-Fenced dir r d t f
  call-Fenced (reserving_action d a) t quiet f = reservation_with_action-Fenced dir r d a t f
  call-Fenced (fencing d) t quiet f = reserve_host_completion-Fenced dir r d t f
  call-Fenced (completing d q) t quiet f = complete-Fenced dir r d q t (ground arith) f
  call-Fenced (evicting_client d c) t quiet f = evict-Fenced dir r d c t f
  call-Fenced (finishing d c q) t quiet f =
      (finish_cleanup-Refused dir r perform o keeps d c q t f).0
  call-Fenced retrying t quiet f = retry_each-Fenced dir r perform o keeps t.reservations t f

  calls-Fenced :
      (l : List (Call A E)) (t : ClientTable A)
      → has_completion r l ≡ false
      → Fenced dir r t
      → Fenced dir r (calls perform o l t)
  unfolding calls has_completion
  calls-Fenced [] t quiet f = f
  calls-Fenced (c ∷ l) t quiet f =
      calls-Fenced l (call perform o c t) (ground arith) (call-Fenced c t (ground arith) f)

  -- Over any sequence of calls in which the host does not confirm the reservation `r`, a directory
  -- that `r` fences stays fenced, and every `admit` of it after those calls is refused and changes
  -- nothing. The actions and the other threads do not confirm it either.
  pub calls-admit :
      (l : List (Call A E)) (t : ClientTable A) (removed : Bool) (create : Result ℕ E)
      → has_completion r l ≡ false
      → Fenced dir r t
      → Fenced dir r (calls perform o l t)
        × (admit dir removed create (calls perform o l t) ≡ (err unavailable, calls perform o l t))
  unfolding admit cleanup_pending
  calls-admit l t removed create quiet f =
      let kept = calls-Fenced l t quiet f in (kept, ground (arith, kept.held))

-- What `complete_host_cleanup` does to the reservation it is given.
module _ {A : Type 0} where
  -- What the answer and the table after a confirmation say of the table before it.
  abbrev pub Confirmed : String → ℕ → ClientTable A → Bool × ClientTable A → Type 0
  Confirmed dir r t (false, t') = (is_pointer (lookup dir t.reservations) r ≡ false) × (t' ≡ t)
  Confirmed dir r t (true, t') =
      (is_pointer (lookup dir t.reservations) r ≡ true)
      × ((t'.cell r).host_completion_pending ≡ false)
      × ((t'.cell r).after_close ≡ (t.cell r).after_close)
      × (cleanup_pending dir t' ≡ is_some (t.cell r).after_close)
      × (t'.clients ≡ t.clients)

  -- A stale confirmation answers false and changes nothing. The confirmation of the current one
  -- answers true, ends its wait, keeps its action and the clients, and gives up the reservation when
  -- it has no action, and else keeps it for the normal cleanup.
  pub complete_host_cleanup-Confirmed :
      (dir : String) (r : ℕ) (t : ClientTable A) → Confirmed dir r t (complete_host_cleanup dir r t)
  unfolding complete_host_cleanup cleanup_pending
  complete_host_cleanup-Confirmed dir r t =
      ground (arith, eq_refl dir, lookup-remove dir dir t.reservations)
